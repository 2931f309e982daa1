-- ===== src/Scheduler/Locker/Exclusion.antt =====
-- Histories of the lock on volumes of scheduler/vol_task_locker.go.
use cubefs_blobstore.Base.{
  ℕ, ◌≡◌, ◌≢◌, inl, inr, refl, sym, ap, ◌∙◌, true, Option, none, some, List, [], ◌∷◌, In, All,
  if◌then◌else◌, arith,
}
use cubefs_blobstore.Base.Dict.{
  lookup, nat_eq, eq_cases, lookup-insert_self, lookup-insert_ne, lookup-delete_self,
  lookup-delete_ne,
}
use cubefs_blobstore.Scheduler.Locker.{VolTaskLocker, lock_if, try_lock, unlock}

abbrev pub IsLocked : VolTaskLocker → ℕ → Type 0
IsLocked m vid = lookup vid m.task_map ≢ none

pub data LockCall : Type 0 where
  locks : ℕ → LockCall
  unlocks : ℕ → LockCall

-- The ids that a history locks, in order.
unfoldable pub locked : VolTaskLocker → List LockCall → List ℕ
locked m [] = []
locked m (locks vid ∷ cs) =
    let rest = locked (try_lock m vid).0 cs in if (try_lock m vid).1 then vid ∷ rest else rest
locked m (unlocks vid ∷ cs) = locked (unlock m vid) cs

abbrev pub Holds : ℕ → LockCall → Type 0
Holds vid (locks x) = Unit
Holds vid (unlocks x) = x ≢ vid

lock_if_lem :
    (m : VolTaskLocker) (x vid : ℕ) (o : Option ℕ)
    → lookup x m.task_map ≡ o
    → IsLocked m vid
    → IsLocked (lock_if m x o).0 vid × ((lock_if m x o).1 ≡ true → x ≢ vid)
lock_if_lem m x vid none h l = (
  elim (eq_cases x vid) [
    | inl p ↦ λ q. absurd (l (ap (λ z. lookup z m.task_map) (sym p) ∙ h))
    | inr n ↦ λ q. l (sym (lookup-insert_ne x vid 0 m.task_map n) ∙ q)
  ],
  λ t p. l (ap (λ z. lookup z m.task_map) (sym p) ∙ h),
)
lock_if_lem m x vid (some e) h l = (l, λ t. absurd (ground arith))

try_lock_lem :
    (m : VolTaskLocker) (x vid : ℕ)
    → IsLocked m vid
    → IsLocked (try_lock m x).0 vid × ((try_lock m x).1 ≡ true → x ≢ vid)
unfolding try_lock
try_lock_lem m x vid l = lock_if_lem m x vid (lookup x m.task_map) refl l

held :
    (m : VolTaskLocker) (vid : ℕ) (cs : List LockCall)
    → IsLocked m vid
    → All (Holds vid) cs
    → ¬ In vid (locked m cs)
unfolding locked
held m vid [] l h = λ i. i
held m vid (locks x ∷ cs) l h =
    let (l', away) = try_lock_lem m x vid l in
    let rest = held (try_lock m x).0 vid cs l' h.1 in ground (arith, rest, away)
held m vid (unlocks x ∷ cs) l h =
    held (unlock m x) vid cs
      (unfold unlock in λ q. l (sym (lookup-delete_ne x vid m.task_map h.0) ∙ q)) h.1

-- A volume that is locked is locked by nobody else until it is unlocked: in any history of calls that
-- does not unlock it, no call locks it. After an unlock the next call locks it.
pub try_lock_exclusive :
    (m : VolTaskLocker) (vid : ℕ) (cs : List LockCall)
    → (try_lock m vid).1 ≡ true
    → (All (Holds vid) cs → ¬ In vid (locked (try_lock m vid).0 cs))
      × ((try_lock (unlock m vid) vid).1 ≡ true)
unfolding try_lock unlock
try_lock_exclusive m vid cs ok = (
  held (try_lock m vid).0 vid cs (now_locked (lookup vid m.task_map) ok),
  ap (λ o. (lock_if (unlock m vid) vid o).1) (lookup-delete_self vid m.task_map),
)
  where
    now_locked : (o : Option ℕ) → (lock_if m vid o).1 ≡ true → IsLocked (lock_if m vid o).0 vid
    now_locked none h = λ q. let e = lookup-insert_self vid 0 m.task_map in absurd (cc)
    now_locked (some e) h = absurd (ground arith)
