-- ===== src/Proto/Vuid/Tests.antt =====
-- Concrete ids of common/proto/vuid.go.
use cubefs_blobstore.Base.{ℕ, ◌^◌, ◌<◌, ◌≡◌, refl, true, some, arith}
use cubefs_blobstore.Proto.Vuid.{
  is_valid_epoch, encode_vuid_prefix, encode_vuid, new_vuid, vid, index, epoch, vuid_prefix,
  is_valid,
}
use cubefs_blobstore.Proto.Vuid.Laws.{fields-encode_vuid}

packs : new_vuid 3 255 16777215 ≡ some 0x3ffffffff
unfolding new_vuid
packs = refl

fields-encode_vuid_example :
    ((v : ℕ) × (new_vuid 3 7 9 ≡ some v)
      × (v < 2 ^ 64)
      × (is_valid v ≡ true)
      × (vid v ≡ 3)
      × (index v ≡ 7)
      × (epoch v ≡ 9))
    × (encode_vuid (encode_vuid_prefix (vid 0x307000009) (index 0x307000009)) (epoch 0x307000009)
        ≡ 0x307000009)
    × (new_vuid (vid 0x307000009) (index 0x307000009) 9
        ≡ some (encode_vuid (vuid_prefix 0x307000009) 9))
unfolding is_valid_epoch
fields-encode_vuid_example =
    fields-encode_vuid 3 7 9 0x307000009 (omega arith) (omega arith) refl (omega arith)
