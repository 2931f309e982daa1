-- ===== src/Scheduler/Migrate/Places.antt =====
-- Where the tasks of scheduler/migrate.go are once they are prepared: with the workers, or waiting to be
-- finished. What the places and the lock on volumes have to agree on.
use Prim.Native.String.{String}
use cubefs_blobstore.Base.{
  ℕ, ◌≡◌, ◌≢◌, ◌⊎◌, inl, inr, sym, ap, subst, ◌∙◌, some_inj, Option, none, some,
}
use cubefs_blobstore.Base.Dict.{lookup, nat_eq, string_eq, eq_cases}
use cubefs_blobstore.Scheduler.Queue.Held.{held}
use cubefs_blobstore.Scheduler.WorkerQueue.Held.{held_at}
use cubefs_blobstore.Scheduler.Locker.{VolTaskLocker}
use cubefs_blobstore.Scheduler.Locker.Exclusion.{IsLocked}
use cubefs_blobstore.Scheduler.MigrateTask.{MigrateTask}
use cubefs_blobstore.Scheduler.Migrate.{MigrateMgr}
use cubefs_blobstore.Scheduler.Migrate.Prepare.{vol_of}

pub data Place : Type 0 where
  at_worker : String → String → Place
  at_finish : String → Place

abbrev pub id_of : Place → String
id_of (at_worker idc id) = id
id_of (at_finish id) = id

-- The task at a place.
abbrev pub task_in : MigrateMgr → Place → Option MigrateTask
task_in mgr (at_worker idc id) = held_at mgr.work_queue idc id
task_in mgr (at_finish id) = held mgr.finish_queue.queue id

idc_or : String → Place → String
idc_or d (at_worker idc id) = idc
idc_or d (at_finish id) = d

IsWorker : Place → Type 0
IsWorker (at_worker idc id) = Unit
IsWorker (at_finish id) = ⊥

pub Place-cases : (p q : Place) → (p ≡ q) ⊎ (p ≢ q)
unfolding idc_or IsWorker
Place-cases (at_worker i k) (at_worker i' k') = elim (eq_cases i i') [
  | inr ne ↦ inr (λ e. ne (ap (idc_or i) e))
  | inl p ↦ elim (eq_cases k k') [
    | inr ne ↦ inr (λ e. ne (ap id_of e))
    | inl q ↦ inl (λ j. at_worker (p j) (q j))
  ]
]
Place-cases (at_worker i k) (at_finish k') = inr (λ e. subst IsWorker e tt)
Place-cases (at_finish k) (at_worker i k') = inr (λ e. subst IsWorker (sym e) tt)
Place-cases (at_finish k) (at_finish k') = elim (eq_cases k k') [
  | inr ne ↦ inr (λ e. ne (ap id_of e))
  | inl q ↦ inl (ap at_finish q)
]

pub worker-ne-finish : (i k k' : String) → at_worker i k ≢ at_finish k'
unfolding IsWorker
worker-ne-finish i k k' e = subst IsWorker e tt

-- Every task stands under its id, its volume is locked, and no other task is of that volume.
pub record Sound (at : Place → Option MigrateTask) (l : VolTaskLocker) : Type 0 where
  pub named : (p : Place) (t : MigrateTask) → at p ≡ some t → t.task_id ≡ id_of p
  pub locked : (p : Place) (t : MigrateTask) → at p ≡ some t → IsLocked l (vol_of t)
  pub single :
      (p p' : Place) (t t' : MigrateTask)
      → at p ≡ some t
      → at p' ≡ some t'
      → vol_of t ≡ vol_of t'
      → p ≡ p'

module _ (at at' : Place → Option MigrateTask) (l l' : VolTaskLocker) (s : Sound at l) where
  -- Each task that is there was there, of the same id and volume.
  abbrev pub Descends : Type 0
  Descends =
      (p : Place) (t' : MigrateTask)
      → at' p ≡ some t'
      → (t : MigrateTask) × (at p ≡ some t) × (vol_of t' ≡ vol_of t) × (t'.task_id ≡ t.task_id)

  pub descends-Sound :
      Descends
      → ((p : Place) (t' : MigrateTask) → at' p ≡ some t' → IsLocked l' (vol_of t'))
      → Sound at' l'
  descends-Sound from still = record {
    named = λ p t' h. let (t, h', v, i) = from p t' h in i ∙ s.named p t h';
    locked = still;
    single = λ p q t' u' h k e.
        let (t, h', v, i) = from p t' h in
        let (u, k', w, j) = from q u' k in s.single p q t u h' k' (sym v ∙ (e ∙ w));
  }

  -- A task is added whose volume was not locked.
  pub adds-Sound :
      (p₀ : Place) (t₀ : MigrateTask)
      → lookup (vol_of t₀) l.task_map ≡ none
      → at' p₀ ≡ some t₀
      → t₀.task_id ≡ id_of p₀
      → ((p : Place) → p₀ ≢ p → at' p ≡ at p)
      → IsLocked l' (vol_of t₀)
      → ((v : ℕ) → IsLocked l v → IsLocked l' v)
      → Sound at' l'
  adds-Sound p₀ t₀ free new name others now_locked keeps = record {
    named = λ p t h. elim (Place-cases p₀ p) [
      | inl e ↦ sym (ap (λ (x : MigrateTask). x.task_id) (is_new p t h e)) ∙ (name ∙ ap id_of e)
      | inr ne ↦ s.named p t (sym (others p ne) ∙ h)
    ];
    locked = λ p t h. elim (Place-cases p₀ p) [
      | inl e ↦ subst (λ (x : MigrateTask). IsLocked l' (vol_of x)) (is_new p t h e) now_locked
      | inr ne ↦ keeps (vol_of t) (s.locked p t (sym (others p ne) ∙ h))
    ];
    single = λ p q t u h k v. elim (Place-cases p₀ p) [
      | inl e ↦ elim (Place-cases p₀ q) [
        | inl e' ↦ sym e ∙ e'
        | inr ne ↦ absurd (clash q u ne k (ap vol_of (is_new p t h e) ∙ v))
      ]
      | inr ne ↦ elim (Place-cases p₀ q) [
        | inl e' ↦ absurd (clash p t ne h (ap vol_of (is_new q u k e') ∙ sym v))
        | inr ne' ↦ s.single p q t u (sym (others p ne) ∙ h) (sym (others q ne') ∙ k) v
      ]
    ];
  }
    where
      is_new : (p : Place) (t : MigrateTask) → at' p ≡ some t → p₀ ≡ p → t₀ ≡ t
      is_new p t h e = some_inj t₀ t (sym new ∙ (ap at' e ∙ h))

      clash : (q : Place) (u : MigrateTask) → p₀ ≢ q → at' q ≡ some u → vol_of t₀ ≡ vol_of u → ⊥
      clash q u ne k v =
          s.locked q u (sym (others q ne) ∙ k)
            (subst (λ (x : ℕ). lookup x l.task_map ≡ none) v free)

  -- A task moves to another place.
  pub moves-Sound :
      (p₀ p₁ : Place) (t₀ t₁ : MigrateTask)
      → at p₀ ≡ some t₀
      → at' p₀ ≡ none
      → at' p₁ ≡ some t₁
      → vol_of t₁ ≡ vol_of t₀
      → t₁.task_id ≡ id_of p₁
      → ((p : Place) → p₀ ≢ p → p₁ ≢ p → at' p ≡ at p)
      → ((v : ℕ) → IsLocked l v → IsLocked l' v)
      → Sound at' l'
  moves-Sound p₀ p₁ t₀ t₁ before left new vol name others keeps = record {
    named = λ p t h. elim (Place-cases p₁ p) [
      | inl e ↦ sym (ap (λ (x : MigrateTask). x.task_id) (is_new p t h e)) ∙ (name ∙ ap id_of e)
      | inr ne ↦ s.named p t (old p t ne h)
    ];
    locked = λ p t h. elim (Place-cases p₁ p) [
      | inl e ↦
          keeps (vol_of t)
            (subst (IsLocked l) (sym vol ∙ ap vol_of (is_new p t h e)) (s.locked p₀ t₀ before))
      | inr ne ↦ keeps (vol_of t) (s.locked p t (old p t ne h))
    ];
    single = λ p q t u h k v. elim (Place-cases p₁ p) [
      | inl e ↦ elim (Place-cases p₁ q) [
        | inl e' ↦ sym e ∙ e'
        | inr ne ↦ absurd (clash q u ne k (ap vol_of (is_new p t h e) ∙ v))
      ]
      | inr ne ↦ elim (Place-cases p₁ q) [
        | inl e' ↦ absurd (clash p t ne h (ap vol_of (is_new q u k e') ∙ sym v))
        | inr ne' ↦ s.single p q t u (old p t ne h) (old q u ne' k) v
      ]
    ];
  }
    where
      is_new : (p : Place) (t : MigrateTask) → at' p ≡ some t → p₁ ≡ p → t₁ ≡ t
      is_new p t h e = some_inj t₁ t (sym new ∙ (ap at' e ∙ h))

      not_left : (p : Place) (t : MigrateTask) → at' p ≡ some t → p₀ ≢ p
      not_left p t h e = let gone : none ≡ some t = sym left ∙ (ap at' e ∙ h) in cc

      old : (p : Place) (t : MigrateTask) → p₁ ≢ p → at' p ≡ some t → at p ≡ some t
      old p t ne h = sym (others p (not_left p t h) ne) ∙ h

      clash : (q : Place) (u : MigrateTask) → p₁ ≢ q → at' q ≡ some u → vol_of t₁ ≡ vol_of u → ⊥
      clash q u ne k v = not_left q u k (s.single p₀ q t₀ u before (old q u ne k) (sym vol ∙ v))
