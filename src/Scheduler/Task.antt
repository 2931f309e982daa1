-- ===== src/Scheduler/Task.antt =====
-- What the queues of scheduler/base/queue.go read and write of a task, its test against a worker's
-- report, and VunitLocation of common/proto/scheduler_types.go.
pub mod Laws
use Prim.Native.String.{String}
use text.Mathlib.Text.{◌==◌ as str_eq}
use cubefs_blobstore.Base.{
  ℕ, zero, suc, ◌+◌, ◌*◌, Bool, true, false, ◌&&◌, ◌||◌, not, Option, none, some, List, [], ◌∷◌,
  ◌==◌, ◌≡◌, if◌then◌else◌, length,
}
use cubefs_blobstore.Base.Int.{ℤ, pos}
use cubefs_blobstore.Base.Dict.{Dict, lookup, insert, string_eq}
use cubefs_blobstore.Base.Refs.{update}
use cubefs_blobstore.Scheduler.Queue.{
  Queue, MsgEx, Error, unmatched_vuids, no_such_idc_queue, no_such_message_id, new_queue, push, pop,
  get, requeue, remove, stats,
}

pub record VunitLocation : Type 0 where
  pub vuid : ℕ
  pub host : String
  pub disk_id : ℕ

-- The interface WorkerTask, with what the queues rely on of SetDest.
pub record WorkerTask (A : Type 0) : Type 0 where
  pub get_src : A → List VunitLocation
  pub get_dest : A → VunitLocation
  pub set_dest : A → VunitLocation → A
  pub get_dest-set_dest : (task : A) (dest : VunitLocation) → get_dest (set_dest task dest) ≡ dest

-- `==` on VunitLocation compares every field.
unfoldable pub location_eq : VunitLocation → VunitLocation → Bool
location_eq a b = a.vuid == b.vuid && (str_eq a.host b.host && a.disk_id == b.disk_id)

-- The loop of vunitSliceEqual, whose test on the lengths comes first. The disk is not compared.
unfoldable pub units_match : List VunitLocation → List VunitLocation → Bool
units_match (a ∷ as') (b ∷ bs) =
    if not (a.vuid == b.vuid) || not (str_eq a.host b.host) then false else units_match as' bs
units_match _ _ = true

unfoldable pub vunit_slice_equal : List VunitLocation → List VunitLocation → Bool
unfolding units_match
vunit_slice_equal a b = if not (length a == length b) then false else units_match a b

unfoldable pub check_valid :
    {A : Type 0} ⦃W : WorkerTask A⦄ → A → List VunitLocation → VunitLocation → Option Error
unfolding vunit_slice_equal location_eq
check_valid ⦃W⦄ task src dst =
    if not (vunit_slice_equal (W.get_src task) src) || not (location_eq (W.get_dest task) dst)
    then some unmatched_vuids
    else none
