-- ===== src/Blk/Make.antt =====
-- `__make_request` of ucsb-io/ucsb-io-2.5.67/drivers/block/ll_rw_blk.c: a bio joins a request of the
-- elevator, or gets one of its own.
pub mod Alone
pub mod Exact
pub mod Grow
pub mod Joins
pub mod Keeps
pub mod Merged
pub mod Pass
pub mod Wait
pub mod Waited
pub mod Well
use ucsb_disk_profiling.Prelude.{
  ℕ, zero, suc, ◌+◌, ◌-◌, ◌*◌, ◌/◌, ◌%◌, ◌^◌, Option, none, some, Bool, true, false, not, List, [],
  ◌∷◌, ◌++◌, ltb, ◌==◌, if◌then◌else◌, ◌>>=◌,
}
use ucsb_disk_profiling.Block.{Dir, read, write, update, UcsbIo, Bio, uint_mod, ulong_mod}
use ucsb_disk_profiling.Deadline.Insert.{is_best_effort}
use ucsb_disk_profiling.Deadline.Ucsb.{ucsb_io_type}
use ucsb_disk_profiling.Blk.Queue.{RequestQueue, QueueSizes}
use ucsb_disk_profiling.Segments.{StructBio, PhysMap, recount_if_stale}
use ucsb_disk_profiling.Blk.Merge.{
  StructRequest, MergeResult, sectors_of, ll_back_merge_fn, ll_front_merge_fn, attempt_merge,
}
use ucsb_disk_profiling.Blk.Complete.{EndIo, bio_endio, vec_at}
use ucsb_disk_profiling.Blk.Free.{FreeLists, get_request, blk_put_request}
use ucsb_disk_profiling.Blk.Stats.{DiskStats, drive_stat_acct, account_join}
use ucsb_disk_profiling.Blk.Plug.{Plugs, Strategy, plugged, blk_plug_device, generic_unplug_device}

-- `insert_here`: NULL, the entry of a request, the one before it, or what elv_merge left there.
pub data Place : Type 0 where
  nowhere : Place
  behind : ℕ → Place
  before : ℕ → Place
  hinted : ℕ → Place

-- The answer of elv_merge: ELEVATOR_NO_MERGE, perhaps with a place, or a request to merge with.
pub data Verdict : Type 0 where
  no_merge : Place → Verdict
  back_merge : ℕ → Verdict
  front_merge : ℕ → Verdict

-- The fields of a request that merging does not use: the low bits that come from the bio, REQ_CMD,
-- the barriers, REQ_STARTED and the start time.
pub record CommandFlags : Type 0 where
  pub rw_bits : ℕ
  pub cmd : Bool
  pub hardbarrier : Bool
  pub softbarrier : Bool
  pub started : Bool
  pub start_time : ℕ

-- An elevator as its queue sees it, with the queue's hint `last_merge` in its state. `elv_merge` may
-- fault; `clear_last_merge` is what a merge function does that refuses.
pub record Elevator (E : Type 0) : Type 0 where
  pub elv_queue_empty : E → Bool
  pub elv_merge : E → (ℕ → StructRequest) → (ℕ → CommandFlags) → StructBio → Option (Verdict × E)
  pub clear_last_merge : E → E
  pub elv_merged_request : E → ℕ → E
  pub elv_merge_requests : E → ℕ → ℕ → E
  pub elv_latter_request : E → ℕ → Option ℕ
  pub elv_former_request : E → ℕ → Option ℕ
  pub elv_add_request_pos : E → (ℕ → CommandFlags) → ℕ → Place → E

-- The queue's elevator, the requests by their pointers, the free lists and the disks.
pub record Inner (E : Type 0) : Type 0 where
  pub elv : E
  pub requests : ℕ → StructRequest
  pub commands : ℕ → CommandFlags
  pub lists : FreeLists
  pub disks : ℕ → DiskStats
  pub ended : List EndIo

-- What stands outside: the elevator, the driver's `request_fn`, the architecture's page addresses and
-- bounce buffers, `rq_mergeable`, the disk of a device, and the memory of QoS parameters. `asleep` is
-- what other tasks and interrupts do while a task waits for a request, for the n-th time.
pub record Env (E : Type 0) : Type 0 where
  pub elevator : Elevator E
  pub phys : PhysMap
  pub queue : RequestQueue
  pub sizes : QueueSizes
  pub self : ℕ
  pub jiffies : ℕ
  pub rq_mergeable : StructRequest → Bool
  pub disk_of : ℕ → ℕ
  pub bounce : StructBio → StructBio
  pub qos : ℕ → Option UcsbIo
  pub strategy : Strategy (Inner E)
  pub asleep : ℕ → Plugs (Inner E) → Plugs (Inner E)

abbrev pub State : Type 0 → Type 0
State E = Plugs (Inner E)

-- bio_data_dir
abbrev pub dir_of_bio : StructBio → Dir
dir_of_bio bio = if bio.bi_rw % 2 == 1 then write else read

-- BIO_RW_BARRIER in `bi_rw`
abbrev pub barrier_of : StructBio → Bool
barrier_of bio = bio.bi_rw / 4 % 2 == 1

-- Where a bio is when `out` is reached.
pub data Outcome : Type 0 where
  joined_back : ℕ → Outcome
  joined_front : ℕ → Outcome
  fresh : ℕ → Place → Outcome

-- A pass from `again`: to `out`, with the request that is left in `freereq`, or with no free request.
pub data PassEnd (E : Type 0) : Type 0 where
  out : State E → Outcome → Option ℕ → PassEnd E
  none_free : State E → StructBio → PassEnd E

-- The list entry of a request goes onto a list, or off it.
abbrev pub set_queued : FreeLists → ℕ → Bool → FreeLists
set_queued lists r queued = record lists {
  slots = update lists.slots r (record (lists.slots r) { queued = queued });
}

abbrev pub set_inner : {E : Type 0} → State E → Inner E → State E
set_inner s i = record s { driver = i }

-- A bio as the scheduler reads it.
abbrev pub sched_bio : StructBio → ℕ → Bio
sched_bio bio disk = record {
  bi_sector = bio.bi_sector;
  bi_size = bio.bi_size;
  bi_dir = dir_of_bio bio;
  bd_disk = disk;
  bi_qos = bio.bi_qos;
}
