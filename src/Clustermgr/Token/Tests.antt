-- ===== src/Clustermgr/Token/Tests.antt =====
-- Tokens of clustermgr/volumemgr/proto.go at a host's address.
use cubefs_blobstore.Base.{◌≡◌, refl, none, some, arith}
use cubefs_blobstore.Clustermgr.Token.{encode_token, decode_token, format_uint, digits_before}
use cubefs_blobstore.Clustermgr.Token.Laws.{HasSemicolon, decode_token-encode_token}

encoded : encode_token "h:1" 420 ≡ "h:1;420"
unfolding encode_token format_uint digits_before
encoded = refl

decode_token-encode_token_example :
    ((¬ HasSemicolon "h:1") → decode_token (encode_token "h:1" 420) ≡ some ("h:1", 420))
    × (HasSemicolon "h:1" → decode_token (encode_token "h:1" 420) ≡ none)
decode_token-encode_token_example = decode_token-encode_token "h:1" 420 (omega arith)
