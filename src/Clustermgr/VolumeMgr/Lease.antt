-- ===== src/Clustermgr/VolumeMgr/Lease.antt =====
-- A host's hold on a volume of clustermgr/volumemgr/volumemgr.go, through allocations.
use Prim.Native.String.{String}
use cubefs_blobstore.Base.{
  ℕ, ◌≤◌, ◌<◌, ◌≡◌, ◌≢◌, inl, inr, refl, sym, ap, subst, ◌∙◌, true, false, Option, none, some, ltb,
  ◌==◌, if◌then◌else◌, ◌>>=◌, Bool-cases, some_inj, arith,
}
use cubefs_blobstore.Base.Int.{ℤ}
use cubefs_blobstore.Base.Dict.{nat_eq}
use cubefs_blobstore.Clustermgr.Volume.{
  Volume, Token, TokenRecord, to_record, get_status, can_alloc, can_insert, is_expired,
  status_active,
}
use cubefs_blobstore.Clustermgr.Sharded.{get_vol, write_vol, get_vol-write_vol_ne}
use cubefs_blobstore.Clustermgr.VolumeMgr.{
  VolumeMgr, VolumeError, Outcome, put_volume_record, put_token, AllocResult, apply_alloc_volume,
  continue_if,
}
use cubefs_blobstore.Clustermgr.VolumeMgr.Status.{
  IsKeyed, write_vol-IsKeyed, AllocSpec, no_volume, refuses, hands_out,
  apply_alloc_volume-AllocSpec,
}

-- The volume is active under a token that lasts at least until `until`.
abbrev pub Held : VolumeMgr → ℕ → ℕ → Type 0
Held m vid until =
    (vol : Volume) × (t : Token) × (get_vol m.all vid ≡ some vol)
    × (get_status vol ≡ status_active)
    × (vol.token ≡ some t)
    × (until ≤ t.expire_time)

pub not_idle :
    (v : Volume) (f : ℕ) (th : ℤ) → get_status v ≡ status_active → can_alloc v f th ≡ true → ⊥
unfolding can_alloc can_insert
not_idle v f th a c = ground arith

-- Only a volume whose token has run out is expired.
pub expired_late :
    (v : Volume) (now : ℕ) (t : Token)
    → v.token ≡ some t
    → is_expired v now ≡ some true
    → t.expire_time < now
unfolding is_expired
expired_late v now t tok h = elim (Bool-cases (get_status v == status_active)) [
  | inl active ↦
      let e : (v.token >>= λ (x : Token). some (ltb x.expire_time now)) ≡ some true =
        sym (
          ap
            (λ b.
              if b then (v.token >>= λ (x : Token). some (ltb x.expire_time now)) else some false)
            active)
        ∙ h in
      let e' : some (ltb t.expire_time now) ≡ some true =
        sym (ap (λ (o : Option Token). o >>= λ x. some (ltb x.expire_time now)) tok) ∙ e in
      let hit = some_inj _ true e' in ground arith
  | inr other ↦
      let e : some false ≡ some true =
        sym (
          ap
            (λ b.
              if b then (v.token >>= λ (x : Token). some (ltb x.expire_time now)) else some false)
            other)
        ∙ h in
      absurd (cc)
]

pub put_volume_record_all :
    (m : VolumeMgr) (vol : Volume) (db : Option VolumeError)
    → (put_volume_record m (to_record vol) db).0.all ≡ m.all
put_volume_record_all m vol none = refl
put_volume_record_all m vol (some e) = refl

pub put_token_all :
    (m : VolumeMgr) (v : ℕ) (r : TokenRecord) (db : Option VolumeError)
    → (put_token m v r db).0.all ≡ m.all
put_token_all m v r none = refl
put_token_all m v r (some e) = refl

module _ (vid until : ℕ) where
  abbrev pub Kept : VolumeMgr → Type 0
  Kept m = IsKeyed m.all × Held m vid until

  -- A write to another volume, or to this one with another token that lasts as long.
  pub Kept-other :
      (m m' : VolumeMgr) (v : Volume) → m'.all ≡ write_vol m.all v → v.vid ≢ vid → Kept m → Kept m'
  Kept-other m m' v e n (k, (vol, t, found, active, tok, lasts)) = (
    subst IsKeyed (sym e) (write_vol-IsKeyed m.all v k),
    (
      vol,
      t,
      ap (λ s. get_vol s vid) e ∙ (get_vol-write_vol_ne m.all v vid n ∙ found),
      active,
      tok,
      lasts,
    ),
  )

  pub Kept-all : (m m' : VolumeMgr) → m'.all ≡ m.all → Kept m → Kept m'
  Kept-all m m' e (k, (vol, t, found, active, tok, lasts)) =
      (subst IsKeyed (sym e) k, (vol, t, ap (λ s. get_vol s vid) e ∙ found, active, tok, lasts))

  pub alloc_spares :
      (m : VolumeMgr) (x : ℕ) (host : String) (expire_time : ℕ) (db : Option VolumeError)
      (r : AllocResult)
      → Kept m
      → apply_alloc_volume m x host expire_time db ≡ some r
      → Kept r.mgr × (x ≡ vid → r.ret ≡ none)
  alloc_spares m x host expire_time db r h e =
      go r h (apply_alloc_volume-AllocSpec m x host expire_time db h.0 r e)
    where
      go :
          (s : AllocResult)
          → Kept m
          → AllocSpec m x host expire_time db s
          → Kept s.mgr × (x ≡ vid → s.ret ≡ none)
      go s h (no_volume absent) = (h, λ p. refl)
      go s h (refuses vol threshold found t cannot) = (h, λ p. refl)
      go s (k, (vol', t', found', active, tok, lasts))
            (hands_out _ vol threshold t found th can is_t after others keyed err) =
          let other : x ≢ vid = λ p.
            let same : vol ≡ vol' =
              some_inj vol vol' (sym found ∙ (ap (get_vol m.all) p ∙ found')) in
            let busy : get_status vol ≡ status_active = ap get_status same ∙ active in
            not_idle vol m.freeze_threshold threshold busy can in
          (
            (keyed, (vol', t', others vid (λ p. other (sym p)) ∙ found', active, tok, lasts)),
            λ p. absurd (other p),
          )

  -- What holds after a step and after the rest of a loop from there holds after the loop.
  pub continue_if-Kept :
      (s : VolumeMgr × Option VolumeError) (rest : VolumeMgr → Outcome)
      (r : VolumeMgr × Option VolumeError)
      → Kept s.0
      → ((m : VolumeMgr) → Kept m → rest m ≡ some r → Kept r.0)
      → continue_if s rest ≡ some r
      → Kept r.0
  continue_if-Kept (m, some e) rest r h loop p =
      subst (λ (z : VolumeMgr × Option VolumeError). Kept z.0) (some_inj _ r p) h
  continue_if-Kept (m, none) rest r h loop p = loop m h p

  pub unchanged :
      (m : VolumeMgr) (e : Option VolumeError) (r : VolumeMgr × Option VolumeError)
      → Kept m
      → some (m, e) ≡ some r
      → Kept r.0
  unchanged m e r h p = subst (λ (z : VolumeMgr × Option VolumeError). Kept z.0) (some_inj _ r p) h
