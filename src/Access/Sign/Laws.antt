-- ===== src/Access/Sign/Laws.antt =====
-- What the checksum of access/server_location.go promises: a filled location verifies, and a signed one is
-- made of the blobs of verified ones.
use cubefs_blobstore.Base.{
  ℕ, ◌≡◌, refl, sym, ap, subst, ◌∙◌, inl, inr, Bool, true, false, not, ◌||◌, List, [], ◌∷◌, ◌++◌,
  length, leb, if◌then◌else◌, Bool-cases, In, In-append, arith,
}
use cubefs_blobstore.Base.Bytes.{be32}
use cubefs_blobstore.Access.Location.{Location}
use cubefs_blobstore.Access.Codec.{encode2, encode_body}
use cubefs_blobstore.Access.Outcome.{Outcome, done, refused, panics, ◌>>=◌}
use cubefs_blobstore.Access.Sign.{
  calc_crc, fill_crc, verify_crc, same_constants, bids_of, collect_bids, has_bid, has_all, sign_crc,
}

-- The checksum is not part of what is summed.
calc_crc-crc :
    (key : List ℕ) (loc : Location) (c : ℕ)
    → calc_crc key (record loc { crc = c }) ≡ calc_crc key loc
unfolding calc_crc encode2 encode_body be32
calc_crc-crc key loc c = elim (Bool-cases (leb (length (be32 loc.crc ++ encode_body loc)) 1024)) [
  | inl fits ↦ rw fits refl
  | inr over ↦ rw over refl
]

-- A successful bind.
bind_done :
    {A B : Type 0} (o : Outcome A) (f : A → Outcome B) (b : B)
    → (o >>= f) ≡ done b
    → (a : A) × (o ≡ done a) × (f a ≡ done b)
bind_done (done a) f b h = (a, refl, h)
bind_done refused f b h = absurd (cc)
bind_done panics f b h = absurd (cc)

done_inj : {A : Type 0} (a b : A) → done a ≡ done b → a ≡ b
done_inj a b p = ap (λ o. elim o [ done x ↦ x | refused ↦ a | panics ↦ a ]) p

verify-filled :
    (key : List ℕ) (loc : Location) (c : ℕ)
    → calc_crc key loc ≡ done c
    → verify_crc key (record loc { crc = c }) ≡ done true
unfolding verify_crc
verify-filled key loc c h = rw (calc_crc-crc key loc c, h) (ground arith)

-- A location that fillCrc has filled verifies under the same key, and differs in the checksum only.
pub verify-fill :
    (key : List ℕ) (loc loc' : Location)
    → fill_crc key loc ≡ done loc'
    → (verify_crc key loc' ≡ done true) × (loc' ≡ record loc { crc = loc'.crc })
unfolding fill_crc
verify-fill key loc loc' h =
    let (c, computed, e) = bind_done (calc_crc key loc) _ loc' h in
    subst (λ (l : Location). (verify_crc key l ≡ done true) × (l ≡ record loc { crc = l.crc }))
      (done_inj _ _ e) (verify-filled key loc c computed, refl)

has_bid-In : (bid : ℕ) (bids : List ℕ) → has_bid bid bids ≡ true → In bid bids
unfolding has_bid
has_bid-In bid [] h = cc
has_bid-In bid (b ∷ bids) h = ground (arith, has_bid-In bid bids)

has_all-In : (bid : ℕ) (more bids : List ℕ) → has_all more bids ≡ true → In bid more → In bid bids
unfolding has_all
has_all-In bid [] bids h m = absurd m
has_all-In bid (b ∷ more) bids h (inl e) = has_bid-In bid bids (rw (← e) (ground arith))
has_all-In bid (b ∷ more) bids h (inr m) = has_all-In bid more bids (ground arith) m

-- The constants that sign_crc compares.
abbrev pub SameConstants : Location → Location → Type 0
SameConstants a b =
    (a.cluster_id ≡ b.cluster_id) × (a.code_mode ≡ b.code_mode) × (a.blob_size ≡ b.blob_size)

same_constants-eq : (a b : Location) → same_constants a b ≡ true → SameConstants a b
unfolding same_constants
same_constants-eq a b h = ground arith

-- A location of the list that verifies, has the constants of `loc` and contains the id.
abbrev pub Backs : List ℕ → Location → List Location → ℕ → Location → Type 0
Backs key loc locs bid l =
    In l locs × (verify_crc key l ≡ done true) × SameConstants loc l × In bid (bids_of l.blobs)

checked :
    (valid same : Bool) (rest : Outcome (List ℕ)) (own bids : List ℕ)
    → ((if not valid || not same then refused else rest) >>= (λ r. done (own ++ r))) ≡ done bids
    → (valid ≡ true) × (same ≡ true) × ((r : List ℕ) × (rest ≡ done r) × (own ++ r ≡ bids))
checked true true rest own bids h =
    let (r, e, f) = bind_done rest _ bids h in (refl, refl, (r, e, done_inj _ _ f))
checked true false rest own bids h = absurd (cc)
checked false same rest own bids h = absurd (cc)

collect_bids-Backs :
    (key : List ℕ) (first : Location) (locs : List Location) (bids : List ℕ) (bid : ℕ)
    → collect_bids key first locs ≡ done bids
    → In bid bids
    → (l : Location) × Backs key first locs bid l
unfolding collect_bids
collect_bids-Backs key first [] bids bid h m =
    absurd (subst (λ l. In bid l) (sym (done_inj [] bids h)) m)
collect_bids-Backs key first (l ∷ locs) bids bid h m =
    let (valid, verified, k) = bind_done (verify_crc key l) _ bids h in
    let (is_valid, same, (r, rest, joined)) =
      checked valid (same_constants l first) (collect_bids key first locs) (bids_of l.blobs) bids
        k in
    elim (In-append bid (bids_of l.blobs) r (subst (λ b. In bid b) (sym joined) m)) [
      | inl own ↦
          let (a, b, c) = same_constants-eq l first same in
          (l, (inl refl, verified ∙ ap done is_valid, (sym a, sym b, sym c), own))
      | inr later ↦
          let (l', (in_l, ok, same', own)) = collect_bids-Backs key first locs r bid rest later in
          (l', (inr in_l, ok, same', own))
    ]

-- A location that sign_crc signs verifies, differs from what was asked for in the checksum only, and each
-- of its blob ids is one of a location that was handed in, verifies under the key and has the same
-- cluster, mode and blob size.
pub sign_crc_sound :
    (key : List ℕ) (loc loc' : Location) (locs : List Location)
    → sign_crc key loc locs ≡ done loc'
    → (verify_crc key loc' ≡ done true)
      × (loc' ≡ record loc { crc = loc'.crc })
      × ((bid : ℕ) → In bid (bids_of loc.blobs) → (l : Location) × Backs key loc locs bid l)
unfolding sign_crc
sign_crc_sound key loc loc' [] h = absurd (cc)
sign_crc_sound key loc loc' (first ∷ locs) h = elim (Bool-cases (same_constants loc first)) [
  | inr differ ↦ absurd (cc (rw differ at h))
  | inl same ↦
      let (bids, collected, k) =
        bind_done (collect_bids key first (first ∷ locs)) _ loc' (rw same at h) in
      elim (Bool-cases (has_all (bids_of loc.blobs) bids)) [
        | inr lacks ↦ absurd (cc (rw lacks at k))
        | inl all ↦
            let (verified, kept) = verify-fill key loc loc' (rw all at k) in
            (
              verified,
              kept,
              λ bid m.
                  let (a, b, c) = same_constants-eq loc first same in
                  let (l, (in_l, valid, (a', b', c'), own)) =
                    collect_bids-Backs key first (first ∷ locs) bids bid collected
                      (has_all-In bid (bids_of loc.blobs) bids all m) in
                  (l, (in_l, valid, (a ∙ a', b ∙ b', c ∙ c'), own)),
            )
      ]
]
