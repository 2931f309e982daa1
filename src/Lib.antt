-- ===== src/Lib.antt =====
-- CubeFS blobstore: a verification library of its core logic.
--
-- The blobstore keeps blobs as erasure-coded shards. A volume is a set of chunks, one per shard of its
-- code mode, on the disks of blobnodes. The cluster manager keeps the volumes, hands them out to
-- allocators under tokens that expire, and moves their units from disk to disk. The scheduler keeps
-- the tasks that repair and move units, and hands them to workers under leases. What is modelled:
--
-- common/codemode/codemode.go (Codemode.antt, Codemode/): the table of modes, `Tactic`, the names and
--   the layout of the shards over AZs. `Codemode.Layout` has `get_ec_layout_by_az` (GetECLayoutByAZ),
--   `local_stripe` (LocalStripe) and the other stripes.
-- common/proto/vuid.go (Proto/Vuid.antt): the id of a volume unit, packed into a uint64. Wrap-around is
--   written out by `%`.
-- scheduler/base/queue.go (Scheduler/): `Scheduler.Queue` is the type Queue with its index and its two
--   lists of elements, which are pointers into a store `cell`; `push`, `pop`, `requeue` and `remove` are
--   the methods. `Scheduler.TaskQueue` and `Scheduler.WorkerQueue` are the types TaskQueue and
--   WorkerTaskQueue over it, `Scheduler.Task` what they read of a task.
-- common/proto/scheduler_types.go (Scheduler/MigrateTask.antt): the task that moves a unit to another disk.
-- scheduler/migrate.go (Scheduler/Migrate.antt, Scheduler/Migrate/): `MigrateMgr` is the manager with its
--   three queues, the lock of all managers and the table. `Prepare` has `add_task` (AddTask) and
--   `prepare_task` (prepareTask), `Finish` has `finish_task` (finishTask), `Workers` what the workers call
--   (AcquireTask, CancelTask, ReclaimTask, CompleteTask, RenewalTask) and `load` (Load). `Table` is
--   scheduler/db/migrate_task_tbl.go. The answers of the cluster manager and of the tinkers are the record
--   `Answers`, an argument; `Run` says whether a function returns, panics, or writes to the table for ever.
-- scheduler/vol_task_locker.go (Scheduler/Locker.antt): the lock that a task holds on its volume.
-- clustermgr/volumemgr (Clustermgr/): `Volume` and `Token` are proto.go, `Sharded` its shardedVolumes,
--   `Idle` and `Allocator` are alloc.go, `VolumeMgr` is volumemgr.go with volume_stat.go, `Units` is
--   volumeunit.go. `set_status` runs the allocator's callbacks as setStatus does; `apply_alloc_volume`,
--   `apply_expire_volume`, `apply_retain_volume` and the operations of `Units` are the handlers of the
--   raft entries, whole, with the database's answer and the disk manager's as arguments.
-- clustermgr/scopemgr/scopemgr.go (Clustermgr/ScopeMgr.antt): ranges of numbers by name; `alloc_scope` is
--   Alloc, `apply_commit` applyCommit.
-- api/access/proto.go (Access/Location.antt, Access/Codec.antt): a location, which says where the bytes of a
--   file are; its blobs one by one (`spread`), its bytes (`encode`) and `decode_location`.
-- access/server_location.go (Access/Sign.antt): the checksum under a secret key; the key is an argument.
-- access/stream_get.go (Access/Ranges.antt): `gen_location_blobs`, which blobs a read takes. In both, a slice
--   that is made with a length from outside may be too large to make: `make` of Access/Outcome.antt panics
--   above 2^48 bytes, what Go allocates at most on linux/amd64.
-- common/crc32block (Crc32Block.antt, Crc32Block/): `Encoder` is limitEncoderReader of encode.go, `Decoder`
--   blockReader of decode.go, `Range` its Decoder.Reader, `Stream` a description of the stream between them,
--   `Sizes` about EncodeSize and DecodeSize. The reader below is the list of the bytes that it still gives: ReadFull gives the same
--   whatever pieces they come in.
-- allocator/bidmgr.go (BidMgr.antt): the two ranges of blob ids that an allocator holds; `alloc` is Alloc
--   and `alloc_bid` allocBid.
-- Base.antt and its children hold what the parts share: tests and lists over the native numbers, bytes
--   with the numbers of encoding/binary and the sums of hash/crc32 (`Base.Bytes`), maps as
--   association lists, references, signed integers and chains of steps that may fail.
--
-- How the code is written down. A method that changes its object is a function to the new object; an error
-- is a value of an error type in an Option, with `none` for no error; a panic, and the exit after a failed
-- callback, is the outer `none`. Times are nanoseconds; `now` is an argument. A method that holds its lock
-- from start to end is one step, and histories are lists of such steps. A pointer to a volume is the
-- volume's id, and the one object of that id is read and written in `Sharded`.
--
-- Fuel. The retries of PreAlloc, `passes`, have fuel, since the loop of the code need not end; the results
-- below say how much is enough and when none is. The loops of a read count down the bytes that they are
-- asked for, of which each pass takes one at least (`read_loop`, `copy_n`); a stream has no more blocks than
-- bytes (`blocks`), and a uvarint has ten groups at most. `digits_before` counts down from the number itself,
-- which has no more digits than that. Every other recursion is on a list, a text or a count that the code
-- has.
--
-- Not modelled: locks inside a method, channels, metrics and logs; the raft log, the databases and the
-- RPCs, which stand for themselves as arguments; the volume tasks, the creation of volumes and the rest of
-- access, the allocator's volumes, the other managers of the scheduler, blobnode, worker, tinker and mqproxy.
mod Base
pub mod Proto
pub mod Codemode
pub mod Scheduler
pub mod Clustermgr
pub mod BidMgr
pub mod Access
pub mod Crc32Block
