-- ===== src/Proto/Vuid/Laws.antt =====
-- The packing of common/proto/vuid.go read back, and what makes a packed id valid.
use cubefs_blobstore.Base.{ℕ, ◌+◌, ◌*◌, ◌/◌, ◌%◌, ◌^◌, ◌<◌, ◌≡◌, ap, true, some, arith}
use cubefs_blobstore.Base.Bits.{ones, bit_and-ones, bit_and-shifted}
use cubefs_blobstore.Proto.Vuid.{
  is_valid_epoch, encode_vuid_prefix, encode_vuid, new_vuid, vid, index, epoch, vuid_prefix,
  is_valid,
}

epoch-mod : (v : ℕ) → epoch v ≡ v % 2 ^ 24
unfolding epoch
epoch-mod v = omega (arith, bit_and-ones 24 v)

index-mod : (v : ℕ) → index v ≡ v / 2 ^ 24 % 2 ^ 8
unfolding index
index-mod v = omega (arith, bit_and-shifted 24 v (ones 8), bit_and-ones 8 (v / 2 ^ 24))

vid-mod : (v : ℕ) → vid v ≡ v / 2 ^ 32 % 2 ^ 32
unfolding vid
vid-mod v = omega (arith, bit_and-shifted 32 v (ones 32), bit_and-ones 32 (v / 2 ^ 32))

epoch_valid_bounds : (e : ℕ) → is_valid_epoch e ≡ true → (e < 2 ^ 24) × (0 < e)
unfolding is_valid_epoch
epoch_valid_bounds e h = ground arith

fields-packed :
    (w i e : ℕ)
    → w < 2 ^ 32
    → i < 2 ^ 8
    → e < 2 ^ 24
    → let p = (w * 2 ^ 32 + i * 2 ^ 24 + e) % 2 ^ 64 in (vid p ≡ w) × (index p ≡ i) × (epoch p ≡ e)
fields-packed w i e hw hi he =
    let p = (w * 2 ^ 32 + i * 2 ^ 24 + e) % 2 ^ 64 in
    (omega (arith, vid-mod p), omega (arith, index-mod p), omega (arith, epoch-mod p))

fields-new_vuid :
    (w i e : ℕ)
    → w < 2 ^ 32
    → i < 2 ^ 8
    → is_valid_epoch e ≡ true
    → (v : ℕ) × (new_vuid w i e ≡ some v)
      × (v < 2 ^ 64)
      × (is_valid v ≡ true)
      × (vid v ≡ w)
      × (index v ≡ i)
      × (epoch v ≡ e)
unfolding new_vuid is_valid
fields-new_vuid w i e hw hi he =
    let p = w * 2 ^ 32 + i * 2 ^ 24 + e in
    let reads = fields-packed w i e hw hi ((epoch_valid_bounds e he).0) in
    (p % 2 ^ 64, ground arith, omega arith, ground (arith, reads), reads.0, reads.1, reads.2)

encode_vuid-fields :
    (v : ℕ) → v < 2 ^ 64 → encode_vuid (encode_vuid_prefix (vid v) (index v)) (epoch v) ≡ v
unfolding encode_vuid encode_vuid_prefix
encode_vuid-fields v h = omega (arith, epoch-mod v, index-mod v, vid-mod v)

new_vuid-vuid_prefix :
    (v e : ℕ)
    → v < 2 ^ 64
    → is_valid_epoch e ≡ true
    → new_vuid (vid v) (index v) e ≡ some (encode_vuid (vuid_prefix v) e)
unfolding encode_vuid encode_vuid_prefix vuid_prefix new_vuid
new_vuid-vuid_prefix v e h k = rw k (ap some (omega (arith, epoch-mod v, index-mod v, vid-mod v)))

-- For every volume, unit index and valid epoch, `NewVuid` succeeds, the id is below 2^64 and valid,
-- and `Vid`, `Index` and `Epoch` read the three parts back. Every id below 2^64 is rebuilt from its
-- volume, index and epoch; its prefix with the valid epoch is the id that `NewVuid` makes of its volume
-- and index.
pub fields-encode_vuid :
    (w i e u : ℕ)
    → w < 2 ^ 32
    → i < 2 ^ 8
    → is_valid_epoch e ≡ true
    → u < 2 ^ 64
    → ((v : ℕ) × (new_vuid w i e ≡ some v)
        × (v < 2 ^ 64)
        × (is_valid v ≡ true)
        × (vid v ≡ w)
        × (index v ≡ i)
        × (epoch v ≡ e))
      × (encode_vuid (encode_vuid_prefix (vid u) (index u)) (epoch u) ≡ u)
      × (new_vuid (vid u) (index u) e ≡ some (encode_vuid (vuid_prefix u) e))
fields-encode_vuid w i e u hw hi he hu =
    (fields-new_vuid w i e hw hi he, encode_vuid-fields u hu, new_vuid-vuid_prefix u e hu he)
