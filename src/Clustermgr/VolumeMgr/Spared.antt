-- ===== src/Clustermgr/VolumeMgr/Spared.antt =====
-- A host's hold on a volume of clustermgr/volumemgr/volumemgr.go, through expiries and retentions.
use Prim.Native.String.{String}
use cubefs_blobstore.Base.{
  ℕ, ◌≤◌, ◌≡◌, ◌≢◌, inl, inr, refl, sym, ap, ◌∙◌, Bool, true, false, Option, none, some, List, [],
  ◌∷◌, All, ◌==◌, if◌then◌else◌, ◌>>=◌, Option-cases, Bool-cases, bind_some, some_inj, arith,
}
use cubefs_blobstore.Base.Dict.{nat_eq, eq_cases}
use cubefs_blobstore.Clustermgr.Token.{decode_token}
use cubefs_blobstore.Clustermgr.Volume.{
  Volume, Token, TokenRecord, to_record, get_status, is_expired, status_idle, status_active,
}
use cubefs_blobstore.Clustermgr.Sharded.{get_vol, write_vol, get_vol-write_vol}
use cubefs_blobstore.Clustermgr.VolumeMgr.{
  VolumeMgr, VolumeError, volume_not_exist, volume_not_alloc, invalid_token, Outcome, write_volume,
  with_status, with_token, set_status, put_volume_record, put_token, expire_if, apply_expire_volume,
  RetainVolume, retain_held, apply_retain_volume,
}
use cubefs_blobstore.Clustermgr.VolumeMgr.Status.{write_vol-IsKeyed, set_status_all}
use cubefs_blobstore.Clustermgr.VolumeMgr.Lease.{
  expired_late, put_volume_record_all, put_token_all, Kept, Kept-other, Kept-all, continue_if-Kept,
  unchanged,
}

module _ (vid until : ℕ) where
  expire_step :
      (m : VolumeMgr) (v : Volume) (x now : ℕ) (db : Option VolumeError)
      (rest : VolumeMgr → Outcome) (r : VolumeMgr × Option VolumeError) (b : Bool)
      → now ≤ until
      → Kept vid until m
      → get_vol m.all x ≡ some v
      → is_expired v now ≡ some b
      → ((n : VolumeMgr) → Kept vid until n → rest n ≡ some r → Kept vid until r.0)
      → expire_if m v db rest b ≡ some r
      → Kept vid until r.0
  expire_step m v x now db rest r false early h found expired loop e =
      unchanged vid until m none r h e
  expire_step m v x now db rest r true early h found expired loop e =
      let (m', ok, e') = bind_some (set_status m v status_idle) _ r e in
      let other : v.vid ≢ vid = λ p.
        let (vol, t, found', active, tok, lasts) = h.1 in
        let own : x ≡ vid = sym (h.0 x v found) ∙ p in
        let same : v ≡ vol = some_inj v vol (sym found ∙ (ap (get_vol m.all) own ∙ found')) in
        let late = expired_late v now t (ap (λ (z : Volume). z.token) same ∙ tok) expired in
        omega arith in
      let kept' =
        Kept-other vid until m m' (with_status v status_idle)
          (set_status_all m m' v status_idle ok).0 other h in
      continue_if-Kept vid until (put_volume_record m' (to_record (with_status v status_idle)) db)
        rest r
        (Kept-all vid until m' (put_volume_record m' (to_record (with_status v status_idle)) db).0
          (put_volume_record_all m' (with_status v status_idle) db) kept')
        loop e'

  pub expire_spares :
      (vids : List ℕ) (m : VolumeMgr) (now : ℕ) (db : ℕ → Option VolumeError)
      (r : VolumeMgr × Option VolumeError)
      → now ≤ until
      → Kept vid until m
      → apply_expire_volume m vids now db ≡ some r
      → Kept vid until r.0
  unfolding apply_expire_volume
  expire_spares [] m now db r early h e = unchanged vid until m none r h e
  expire_spares (x ∷ vids) m now db r early h e = elim (Option-cases (get_vol m.all x)) [
    | inl absent ↦ unchanged vid until m (some volume_not_exist) r h (sym (ap found_or absent) ∙ e)
    | inr (v, found) ↦
        let e₁ : open_one v ≡ some r = sym (ap found_or found) ∙ e in
        elim (Bool-cases (get_status v == status_idle)) [
          | inl idle ↦
              unchanged vid until m none r h
                (sym (ap (λ b. if b then some (m, none) else checked v) idle) ∙ e₁)
          | inr busy ↦
              let e₂ : checked v ≡ some r =
                sym (ap (λ b. if b then some (m, none) else checked v) busy) ∙ e₁ in
              let (b, expired, e₃) = bind_some (is_expired v now) _ r e₂ in
              expire_step m v x now (db x) (λ m'. apply_expire_volume m' vids now db) r b early h
                found expired (λ n k q. expire_spares vids n now db r early k q) e₃
        ]
  ]
    where
      checked : Volume → Outcome
      checked v =
          is_expired v now >>= expire_if m v (db x) (λ m'. apply_expire_volume m' vids now db)

      open_one : Volume → Outcome
      open_one v = if get_status v == status_idle then some (m, none) else checked v

      found_or : Option Volume → Outcome
      found_or none = some (m, some volume_not_exist)
      found_or (some v) = open_one v

  retain_step :
      (m : VolumeMgr) (x : ℕ) (v : Volume) (a : RetainVolume) (db : Option VolumeError)
      (rest : VolumeMgr → Outcome) (r : VolumeMgr × Option VolumeError) (o : Option Token)
      → until ≤ a.expire_time
      → Kept vid until m
      → get_vol m.all x ≡ some v
      → v.token ≡ o
      → ((n : VolumeMgr) → Kept vid until n → rest n ≡ some r → Kept vid until r.0)
      → retain_held m x v a db rest o ≡ some r
      → Kept vid until r.0
  retain_step m x v a db rest r none longer h found tok loop e =
      unchanged vid until m (some volume_not_alloc) r h e
  retain_step m x v a db rest r (some t) longer h found tok loop e =
      let put : TokenRecord = record { vid = x; token_id = a.token; expire_time = a.expire_time } in
      continue_if-Kept vid until (put_token m x put db) (λ m'. rest (write_volume m' renewed)) r
        (Kept-all vid until m (put_token m x put db).0 (put_token_all m x put db) h)
        (λ n k q. loop (write_volume n renewed) (kept_write n k) q) e
    where
      renewed : Volume
      renewed = with_token v (record t { expire_time = a.expire_time })

      active_here : v.vid ≡ vid → get_status v ≡ status_active
      active_here p =
          let (vol, t', found', active, tok', lasts) = h.1 in
          let own : x ≡ vid = sym (h.0 x v found) ∙ p in
          ap get_status (some_inj v vol (sym found ∙ (ap (get_vol m.all) own ∙ found'))) ∙ active

      kept_write : (n : VolumeMgr) → Kept vid until n → Kept vid until (write_volume n renewed)
      kept_write n k = elim (eq_cases v.vid vid) [
        | inl p ↦ (
          write_vol-IsKeyed n.all renewed k.0,
          (
            renewed,
            record t { expire_time = a.expire_time },
            ap (get_vol (write_vol n.all renewed)) (sym p) ∙ get_vol-write_vol n.all renewed,
            active_here p,
            refl,
            longer,
          ),
        )
        | inr other ↦ Kept-other vid until n (write_volume n renewed) renewed refl other k
      ]

  pub retain_spares :
      (rs : List RetainVolume) (m : VolumeMgr) (db : ℕ → Option VolumeError)
      (r : VolumeMgr × Option VolumeError)
      → All (λ (a : RetainVolume). until ≤ a.expire_time) rs
      → Kept vid until m
      → apply_retain_volume m rs db ≡ some r
      → Kept vid until r.0
  unfolding apply_retain_volume
  retain_spares [] m db r longer h e = unchanged vid until m none r h e
  retain_spares (a ∷ rs) m db r longer h e = elim (Option-cases (decode_token a.token)) [
    | inl bad ↦ unchanged vid until m (some invalid_token) r h (sym (ap decoded_or bad) ∙ e)
    | inr (held, good) ↦
        let e₁ : found_or held.1 (get_vol m.all held.1) ≡ some r = sym (ap decoded_or good) ∙ e in
        elim (Option-cases (get_vol m.all held.1)) [
          | inl absent ↦
              unchanged vid until m (some volume_not_exist) r h
                (sym (ap (found_or held.1) absent) ∙ e₁)
          | inr (v, found) ↦
              retain_step m held.1 v a (db held.1) (λ m'. apply_retain_volume m' rs db) r v.token
                longer.0 h found refl (λ n k q. retain_spares rs n db r longer.1 k q)
                (sym (ap (found_or held.1) found) ∙ e₁)
        ]
  ]
    where
      found_or : ℕ → Option Volume → Outcome
      found_or x none = some (m, some volume_not_exist)
      found_or x (some v) = retain_held m x v a (db x) (λ m'. apply_retain_volume m' rs db) v.token

      decoded_or : Option (String × ℕ) → Outcome
      decoded_or none = some (m, some invalid_token)
      decoded_or (some held) = found_or held.1 (get_vol m.all held.1)
