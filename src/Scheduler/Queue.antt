-- ===== src/Scheduler/Queue.antt =====
-- scheduler/base/queue.go, type Queue: messages wait in `todo` and are leased from `doing`.
-- A list element is a reference; `cell` is what it points to, and `msgs` is the index from the message
-- id to its element. Times and durations are nanoseconds; the lock makes each method one step. A
-- reference with no cell would be a nil dereference: WellFormed excludes it, and the model passes over it.
pub mod Invariant
pub mod Moves
pub mod View
pub mod Refinement
pub mod Updates
pub mod Traces
pub mod Order
pub mod Held
mod Tests
use Prim.Native.String.{String}
use cubefs_blobstore.Base.{
  ℕ, suc, ◌+◌, ◌*◌, Bool, true, false, Option, none, some, List, [], ◌∷◌, ◌++◌, ltb, ◌==◌,
  if◌then◌else◌, length,
}
use cubefs_blobstore.Base.Int.{ℤ, pos_part}
use cubefs_blobstore.Base.Dict.{Dict, lookup, insert, delete, string_eq}
use cubefs_blobstore.Base.Refs.{update, unlink}

pub data Error : Type 0 where
  no_such_message_id unmatched_vuids no_such_idc_queue existing_message_id : Error

pub data MsgState : Type 0 where
  todo doing : MsgState

pub record MsgEx (A : Type 0) : Type 0 where
  pub id : String
  pub state : MsgState
  pub deadline : ℕ
  pub msg : A

pub record Queue (A : Type 0) : Type 0 where
  pub todo_list : List ℕ
  pub doing_list : List ℕ
  pub cell : ℕ → Option (MsgEx A)
  pub msgs : Dict String ℕ
  pub fresh : ℕ
  pub msg_timeout : ℕ

-- 100 years.
abbrev pub never_timeout : ℕ
never_timeout = 100 * 365 * 24 * 3600 * 1000000000

module _ {A : Type 0} where
  unfoldable pub new_queue : ℕ → Queue A
  new_queue timeout = record {
    todo_list = [];
    doing_list = [];
    cell = λ e. none;
    msgs = [];
    fresh = 0;
    msg_timeout = if timeout == 0 then never_timeout else timeout;
  }

  -- A new message has the zero time for a deadline.
  unfoldable pub push : Queue A → String → A → Queue A × Option Error
  push q id msg = elim (lookup id q.msgs) [
    | some e ↦ (q, some existing_message_id)
    | none ↦ (
      record q {
        todo_list = q.todo_list ++ q.fresh ∷ [];
        cell =
            update q.cell q.fresh
              (some (record { id = id; state = todo; deadline = 0; msg = msg }));
        msgs = insert id q.fresh q.msgs;
        fresh = q.fresh + 1;
      },
      none,
    )
  ]

  -- m.deadline.Before(now)
  abbrev pub has_expired : ℕ → Option (MsgEx A) → Bool
  has_expired now none = false
  has_expired now (some m) = ltb m.deadline now

  -- The loop over `doing`: the first element whose lease has run out.
  unfoldable pub find_expired : (ℕ → Option (MsgEx A)) → ℕ → List ℕ → Option ℕ
  find_expired cell now [] = none
  find_expired cell now (e ∷ es) =
      if has_expired now (cell e) then some e else find_expired cell now es

  -- m.deadline = now.Add(q.msgTimeout), for a message that stays in `doing`.
  unfoldable pub renew_at : Queue A → ℕ → ℕ → MsgEx A → Queue A
  renew_at q now e m = record q {
    cell = update q.cell e (some (record m { deadline = now + q.msg_timeout }));
  }

  -- The front of `todo` moves to the front of `doing`, in a new list element.
  unfoldable pub lease_at : Queue A → ℕ → List ℕ → MsgEx A → Queue A
  lease_at q now rest m = record q {
    todo_list = rest;
    doing_list = q.fresh ∷ q.doing_list;
    cell =
        update q.cell q.fresh (some (record m { state = doing; deadline = now + q.msg_timeout }));
    msgs = insert m.id q.fresh q.msgs;
    fresh = q.fresh + 1;
  }

  pop_expired : Queue A → ℕ → ℕ → Option (MsgEx A) → Queue A × Option (String × A)
  pop_expired q now e none = (q, none)
  pop_expired q now e (some m) = (renew_at q now e m, some (m.id, m.msg))

  pop_front : Queue A → ℕ → List ℕ → Option (MsgEx A) → Queue A × Option (String × A)
  pop_front q now rest none = (q, none)
  pop_front q now rest (some m) = (lease_at q now rest m, some (m.id, m.msg))

  pop_todo : Queue A → ℕ → List ℕ → Queue A × Option (String × A)
  unfolding pop_front
  pop_todo q now [] = (q, none)
  pop_todo q now (e ∷ rest) = pop_front q now rest (q.cell e)

  unfoldable pub pop : Queue A → ℕ → Queue A × Option (String × A)
  unfolding pop_expired pop_todo
  pop q now = elim (find_expired q.cell now q.doing_list) [
    | some e ↦ pop_expired q now e (q.cell e)
    | none ↦ pop_todo q now q.todo_list
  ]

  -- The message behind an id, through the index.
  unfoldable pub deref : Queue A → Option ℕ → Option (MsgEx A)
  deref q none = none
  deref q (some e) = q.cell e

  -- `none` is ErrNoSuchMessageID.
  unfoldable pub get : Queue A → String → Option A
  unfolding deref
  get q id = elim (deref q (lookup id q.msgs)) [ none ↦ none | some m ↦ some m.msg ]

  -- A message in `todo` is left alone; one in `doing` becomes available after the delay.
  requeue_msg : Queue A → ℕ → ℕ → MsgState → MsgEx A → Queue A
  requeue_msg q deadline e todo m = q
  requeue_msg q deadline e doing m = record q {
    cell = update q.cell e (some (record m { deadline = deadline }));
  }

  requeue_elem : Queue A → ℕ → ℕ → Option (MsgEx A) → Queue A × Option Error
  unfolding requeue_msg
  requeue_elem q deadline e none = (q, some no_such_message_id)
  requeue_elem q deadline e (some m) = (requeue_msg q deadline e m.state m, none)

  -- A negative delay counts as 0.
  unfoldable pub requeue : Queue A → String → ℤ → ℕ → Queue A × Option Error
  unfolding requeue_elem
  requeue q id delay now = elim (lookup id q.msgs) [
    | none ↦ (q, some no_such_message_id)
    | some e ↦ requeue_elem q (now + pos_part delay) e (q.cell e)
  ]

  unlink_msg : Queue A → String → ℕ → MsgState → Queue A
  unlink_msg q id e todo = record q { todo_list = unlink e q.todo_list; msgs = delete id q.msgs }
  unlink_msg q id e doing = record q { doing_list = unlink e q.doing_list; msgs = delete id q.msgs }

  remove_elem : Queue A → String → ℕ → Option (MsgEx A) → Queue A × Option Error
  unfolding unlink_msg
  remove_elem q id e none = (q, some no_such_message_id)
  remove_elem q id e (some m) = (unlink_msg q id e m.state, none)

  unfoldable pub remove : Queue A → String → Queue A × Option Error
  unfolding remove_elem
  remove q id = elim (lookup id q.msgs) [
    | none ↦ (q, some no_such_message_id)
    | some e ↦ remove_elem q id e (q.cell e)
  ]

  unfoldable pub stats : Queue A → ℕ × ℕ
  stats q = (length q.todo_list, length q.doing_list)
