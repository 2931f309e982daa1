-- ===== src/Clustermgr/VolumeMgr/Histories.antt =====
-- Histories of the volume manager of clustermgr/volumemgr/volumemgr.go: any sequence of allocations,
-- expiries and retentions.
use Prim.Native.String.{String}
use cubefs_blobstore.Base.{
  ℕ, ◌≤◌, ◌≡◌, ◌≢◌, inl, inr, refl, sym, ap, subst, Option, none, some, List, [], ◌∷◌, In, All,
  ◌>>=◌, Option-cases, bind_some, some_inj, arith,
}
use cubefs_blobstore.Base.Dict.{nat_eq}
use cubefs_blobstore.Clustermgr.Volume.{Token, status_active}
use cubefs_blobstore.Clustermgr.VolumeMgr.{
  VolumeMgr, VolumeError, with_status, with_token, AllocResult, apply_alloc_volume,
  apply_expire_volume, RetainVolume, apply_retain_volume,
}
use cubefs_blobstore.Clustermgr.VolumeMgr.Status.{
  IsKeyed, AllocSpec, no_volume, refuses, hands_out, apply_alloc_volume-AllocSpec,
}
use cubefs_blobstore.Clustermgr.VolumeMgr.Lease.{Held, alloc_spares}
use cubefs_blobstore.Clustermgr.VolumeMgr.Spared.{expire_spares, retain_spares}

pub data VolumeCall : Type 0 where
  allocs : ℕ → String → ℕ → Option VolumeError → VolumeCall
  expires : List ℕ → ℕ → (ℕ → Option VolumeError) → VolumeCall
  retains : List RetainVolume → (ℕ → Option VolumeError) → VolumeCall

-- The id of an allocation that handed the volume out, in front of a list.
abbrev pub handed : ℕ → AllocResult → List ℕ → List ℕ
handed x r vids = elim (r.ret) [ none ↦ vids | some info ↦ x ∷ vids ]

-- The ids of the volumes that a history hands out; `none` if the process ends on the way.
unfoldable pub handed_out : VolumeMgr → List VolumeCall → Option (List ℕ)
handed_out m [] = some []
handed_out m (allocs x host expire_time db ∷ cs) =
    apply_alloc_volume m x host expire_time db >>= λ r.
    handed_out r.mgr cs >>= λ vids. some (handed x r vids)
handed_out m (expires vids now db ∷ cs) =
    apply_expire_volume m vids now db >>= λ r. handed_out r.0 cs
handed_out m (retains rs db ∷ cs) = apply_retain_volume m rs db >>= λ r. handed_out r.0 cs

-- Expiry no later than `until`, retention for no less; allocations are free.
abbrev pub Undisturbed : ℕ → VolumeCall → Type 0
Undisturbed until (allocs x host expire_time db) = Unit
Undisturbed until (expires vids now db) = now ≤ until
Undisturbed until (retains rs db) = All (λ (a : RetainVolume). until ≤ a.expire_time) rs

handed_other :
    (x vid : ℕ) (r : AllocResult) (vids : List ℕ)
    → (x ≡ vid → r.ret ≡ none)
    → (¬ In vid vids)
    → ¬ In vid (handed x r vids)
handed_other x vid r vids away n = elim (Option-cases r.ret) [
  | inl nothing ↦ rw nothing n
  | inr (info, given) ↦ rw given (λ i. elim i [ inl p ↦ absurd (cc (away p)) | inr i' ↦ n i' ])
]

history_spares :
    (vid until : ℕ) (cs : List VolumeCall) (m : VolumeMgr) (vids : List ℕ)
    → IsKeyed m.all × Held m vid until
    → All (Undisturbed until) cs
    → handed_out m cs ≡ some vids
    → ¬ In vid vids
unfolding handed_out
history_spares vid until [] m vids h u e = subst (λ l. ¬ In vid l) (some_inj [] vids e) (λ i. i)
history_spares vid until (allocs x host expire_time db ∷ cs) m vids h u e =
    let (r, ok, e₁) = bind_some (apply_alloc_volume m x host expire_time db) _ vids e in
    let (later, ok', e₂) = bind_some (handed_out r.mgr cs) _ vids e₁ in
    let (kept, away) = alloc_spares vid until m x host expire_time db r h ok in
    subst (λ l. ¬ In vid l) (some_inj (handed x r later) vids e₂)
      (handed_other x vid r later away (history_spares vid until cs r.mgr later kept u.1 ok'))
history_spares vid until (expires xs now db ∷ cs) m vids h u e =
    let (r, ok, e₁) = bind_some (apply_expire_volume m xs now db) _ vids e in
    history_spares vid until cs r.0 vids (expire_spares vid until xs m now db r u.0 h ok) u.1 e₁
history_spares vid until (retains rs db ∷ cs) m vids h u e =
    let (r, ok, e₁) = bind_some (apply_retain_volume m rs db) _ vids e in
    history_spares vid until cs r.0 vids (retain_spares vid until rs m db r u.0 h ok) u.1 e₁

alloc-Held :
    (m : VolumeMgr) (vid : ℕ) (host : String) (until : ℕ) (db : Option VolumeError)
    {r : AllocResult}
    → r.ret ≢ none
    → AllocSpec m vid host until db r
    → IsKeyed r.mgr.all × Held r.mgr vid until
alloc-Held m vid host until db given (no_volume absent) = absurd (given refl)
alloc-Held m vid host until db given (refuses vol threshold found th cannot) = absurd (given refl)
alloc-Held m vid host until db given
      (hands_out r vol threshold t found th can is_t after others keyed err) =
    let lasts : until ≡ t.expire_time = ap (λ (z : Token). z.expire_time) (sym is_t) in
    (
      keyed,
      (with_status (with_token vol t) status_active, t, after, refl, refl, omega (arith, lasts)),
    )

-- A volume that an allocation has handed out is handed out to nobody else while its token lasts: in any
-- history of allocations, expiries no later than the token's time and retentions for no less, whatever the
-- database answers, no allocation returns it. The volumes stand under their own ids at the start.
pub volume_lease :
    (m : VolumeMgr) (vid : ℕ) (host : String) (until : ℕ) (db : Option VolumeError)
    (r : AllocResult) (cs : List VolumeCall) (vids : List ℕ)
    → IsKeyed m.all
    → apply_alloc_volume m vid host until db ≡ some r
    → r.ret ≢ none
    → All (Undisturbed until) cs
    → handed_out r.mgr cs ≡ some vids
    → ¬ In vid vids
volume_lease m vid host until db r cs vids k e given u h =
    history_spares vid until cs r.mgr vids
      (alloc-Held m vid host until db given
        (apply_alloc_volume-AllocSpec m vid host until db k r e))
      u h
