-- ===== src/Crc32Block/Stream.antt =====
-- The stream that common/crc32block/encode.go makes of some bytes, block by block.
use cubefs_blobstore.Base.{
  ℕ, zero, suc, ◌≤◌, ◌<◌, ◌≡◌, refl, ap, ◌∙◌, List, [], ◌∷◌, ◌++◌, length, take, drop, length-drop,
  drop_all, take_all, arith,
}
use cubefs_blobstore.Crc32Block.{write_crc}

-- `fuel` blocks at most.
unfoldable pub blocks : ℕ → ℕ → List ℕ → List ℕ
blocks zero payload bytes = []
blocks (suc fuel) payload [] = []
blocks (suc fuel) payload (x ∷ bytes) =
    write_crc (take payload (x ∷ bytes)) ++ blocks fuel payload (drop payload (x ∷ bytes))

-- Each block takes a byte at least, so there are no more blocks than bytes.
unfoldable pub encoded : ℕ → List ℕ → List ℕ
encoded payload bytes = blocks (length bytes) payload bytes

module _ (payload : ℕ) where
  blocks-enough :
      (f g : ℕ) (bytes : List ℕ)
      → 0 < payload
      → length bytes ≤ f
      → length bytes ≤ g
      → blocks f payload bytes ≡ blocks g payload bytes
  unfolding blocks
  blocks-enough zero zero bytes p h k = refl
  blocks-enough zero (suc g) [] p h k = refl
  blocks-enough (suc f) zero [] p h k = refl
  blocks-enough zero (suc g) (x ∷ bytes) p h k = absurd (omega arith)
  blocks-enough (suc f) zero (x ∷ bytes) p h k = absurd (omega arith)
  blocks-enough (suc f) (suc g) [] p h k = refl
  blocks-enough (suc f) (suc g) (x ∷ bytes) p h k =
      let shorter = length-drop payload (x ∷ bytes) in
      ap (λ l. write_crc (take payload (x ∷ bytes)) ++ l)
        (blocks-enough f g (drop payload (x ∷ bytes)) p (omega arith) (omega arith))

  pub encoded-next :
      (bytes : List ℕ)
      → 0 < payload
      → 0 < length bytes
      → encoded payload bytes
        ≡ write_crc (take payload bytes) ++ encoded payload (drop payload bytes)
  unfolding encoded blocks
  encoded-next [] p h = absurd (omega arith)
  encoded-next (x ∷ bytes) p h =
      let shorter = length-drop payload (x ∷ bytes) in
      ap (λ l. write_crc (take payload (x ∷ bytes)) ++ l)
        (blocks-enough (length bytes) (length (drop payload (x ∷ bytes))) (drop payload (x ∷ bytes))
          p (omega arith) (omega arith))

  pub encoded-last :
      (bytes : List ℕ)
      → 0 < payload
      → 0 < length bytes
      → length bytes ≤ payload
      → encoded payload bytes ≡ write_crc bytes ++ []
  unfolding encoded blocks
  encoded-last bytes p h k =
      encoded-next bytes p h
      ∙ (ap (λ l. write_crc l ++ encoded payload (drop payload bytes)) (take_all payload bytes k)
          ∙ ap (λ l. write_crc bytes ++ encoded payload l) (drop_all payload bytes k))
