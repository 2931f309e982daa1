-- ===== src/Access/Sign.antt =====
-- access/server_location.go: the checksum of a location under a secret key. A check that fails is refused;
-- a panic is told apart.
pub mod Laws
pub mod Limits
mod Tests
use cubefs_blobstore.Base.{
  ℕ, zero, suc, ◌+◌, ◌%◌, ◌^◌, Bool, true, false, not, ◌&&◌, ◌||◌, Option, none, some, List, [],
  ◌∷◌, ◌++◌, length, ltb, ◌==◌, if◌then◌else◌,
}
use cubefs_blobstore.Base.Bytes.{crc32}
use cubefs_blobstore.Access.Outcome.{Outcome, done, refused, panics, ◌>>=◌}
use cubefs_blobstore.Access.Location.{SliceInfo, Location}
use cubefs_blobstore.Access.Codec.{encode2}

abbrev pub crc_poly : ℕ
crc_poly = 0x59c8943c

abbrev pub crc_magic_key : List ℕ
crc_magic_key =
    0x52 ∷ 0xe ∷ 0x53 ∷ 0x53 ∷ 0x81 ∷ 0x1f ∷ 0x51 ∷ 0xb7 ∷ 0xa4 ∷ 0x72 ∷ 0x10 ∷ 0x33 ∷ 0x64 ∷ 0xa7
    ∷ 0x3a ∷ 0x10 ∷ 0x19 ∷ 0xbc ∷ 0x60 ∷ 0x7 ∷ []

-- copy(key[at:], b)
unfoldable pub overwrite : ℕ → List ℕ → List ℕ → List ℕ
overwrite at [] b = []
overwrite (suc at) (k ∷ key) b = k ∷ overwrite at key b
overwrite zero (k ∷ key) [] = k ∷ key
overwrite zero (k ∷ key) (x ∷ b) = x ∷ overwrite zero key b

unfoldable pub init_location_secret : List ℕ → List ℕ → List ℕ
unfolding overwrite
init_location_secret key b = overwrite 7 key b

-- buf[4:n]; the clauses for fewer bytes are not reached.
abbrev from_fourth : List ℕ → List ℕ
from_fourth (a ∷ b ∷ c ∷ d ∷ rest) = rest
from_fourth _ = []

abbrev crc_of : List ℕ → Option (List ℕ) → Outcome ℕ
crc_of key none = panics
crc_of key (some buf) =
    if ltb (length buf) 4 then refused else done (crc32 crc_poly (key ++ from_fourth buf))

-- The buffer has 1024 bytes.
unfoldable pub calc_crc : List ℕ → Location → Outcome ℕ
calc_crc key loc = crc_of key (encode2 1024 loc)

unfoldable pub fill_crc : List ℕ → Location → Outcome Location
fill_crc key loc = do crc ← calc_crc key loc; done (record loc { crc = crc })

abbrev crc_matches : Location → Outcome ℕ → Outcome Bool
crc_matches loc (done crc) = done (loc.crc == crc)
crc_matches loc refused = done false
crc_matches loc panics = panics

unfoldable pub verify_crc : List ℕ → Location → Outcome Bool
verify_crc key loc = crc_matches loc (calc_crc key loc)

unfoldable pub same_constants : Location → Location → Bool
same_constants l first =
    l.cluster_id == first.cluster_id
    && (l.code_mode == first.code_mode && l.blob_size == first.blob_size)

-- MinBid + c for c from `from` on, `left` of them.
unfoldable pub slice_bids : ℕ → ℕ → ℕ → List ℕ
slice_bids min_bid from zero = []
slice_bids min_bid from (suc left) = (min_bid + from) % 2 ^ 64 ∷ slice_bids min_bid (from + 1) left

unfoldable pub bids_of : List SliceInfo → List ℕ
bids_of [] = []
bids_of (blob ∷ blobs) = slice_bids blob.min_bid 0 blob.count ++ bids_of blobs

-- The loop over the signed locations, which collects their ids.
unfoldable pub collect_bids : List ℕ → Location → List Location → Outcome (List ℕ)
collect_bids key first [] = done []
collect_bids key first (l ∷ locs) = do
  valid ← verify_crc key l
  rest ←
      (if not valid || not (same_constants l first) then refused else collect_bids key first locs)
  done (bids_of l.blobs ++ rest)

unfoldable pub has_bid : ℕ → List ℕ → Bool
has_bid bid [] = false
has_bid bid (b ∷ bids) = b == bid || has_bid bid bids

unfoldable pub has_all : List ℕ → List ℕ → Bool
has_all [] bids = true
has_all (bid ∷ more) bids = has_bid bid bids && has_all more bids

-- locs[0] panics when there is none.
unfoldable pub sign_crc : List ℕ → Location → List Location → Outcome Location
sign_crc key loc [] = panics
sign_crc key loc (first ∷ locs) = if not (same_constants loc first) then refused else (do
  bids ← collect_bids key first (first ∷ locs)
  if has_all (bids_of loc.blobs) bids then fill_crc key loc else refused)
