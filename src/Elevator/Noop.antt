-- ===== src/Elevator/Noop.antt =====
-- The noop elevator of ucsb-io/ucsb-io-2.5.67/drivers/block/elevator.c, with what the elv_ functions do
-- for the calls that it leaves out, as the elevator of `__make_request`.
pub mod Contract
pub mod Dangling
use ucsb_disk_profiling.Prelude.{
  ℕ, suc, ◌+◌, Option, none, some, Bool, true, false, not, ◌||◌, List, [], ◌∷◌, ◌++◌, if◌then◌else◌,
  ◌>>=◌, after, rejoin, remove,
}
use ucsb_disk_profiling.Block.{list_empty, Bio, Request, points_to}
use ucsb_disk_profiling.Kernel.{Kernel}
use ucsb_disk_profiling.Segments.{StructBio, first}
use ucsb_disk_profiling.Blk.Merge.{StructRequest}
use ucsb_disk_profiling.Elevator.Merge.{Merge, elv_try_merge, elv_try_last_merge}
use ucsb_disk_profiling.Elevator.Merge
use ucsb_disk_profiling.Blk.Make.{
  Place, nowhere, Verdict, no_merge, back_merge, front_merge, Elevator, CommandFlags, sched_bio,
}

-- `queue_head` and `last_merge` of a queue.
pub record NoopQueue : Type 0 where
  pub queue_head : List ℕ
  pub last_merge : Option ℕ

-- A disk as the merge tests compare it: 0 for NULL.
abbrev pub disk_pointer : Option ℕ → ℕ
disk_pointer none = 0
disk_pointer (some disk) = suc disk

abbrev pub as_bio : ℕ → StructBio → Bio
as_bio disk bio = sched_bio bio (disk_pointer (some disk))

abbrev pub first_bio : Option ℕ → Option StructBio → Option Bio
first_bio disk none = none
first_bio disk (some b) = some (sched_bio b (disk_pointer disk))

-- A request as the merge tests read it.
abbrev pub as_request : StructRequest → CommandFlags → Request
as_request req flags = record {
  sector = req.sector;
  nr_sectors = req.nr_sectors;
  dir = req.dir;
  cmd = flags.cmd;
  started = flags.started;
  nomerge = req.nomerge;
  hardbarrier = flags.hardbarrier;
  softbarrier = flags.softbarrier;
  waiting = req.waiting;
  special = req.special;
  rq_disk = disk_pointer req.rq_disk;
  bio = first_bio req.rq_disk (first req.bios);
}

-- The result of a merge test for the request `r`; `missed` where there is no merge.
abbrev pub named : Merge → ℕ → Verdict × Option ℕ → Verdict × Option ℕ
named Merge.no_merge r missed = missed
named Merge.back_merge r missed = (back_merge r, some r)
named Merge.front_merge r missed = (front_merge r, some r)

module _ (k : Kernel) where
  -- The loop from the last request back, with the hint to leave.
  unfoldable pub scan : (ℕ → Request) → Bio → Option ℕ → List ℕ → Verdict × Option ℕ
  scan rqs bio hint [] = (no_merge nowhere, hint)
  scan rqs bio hint (r ∷ rs) =
      let rest = scan rqs bio hint rs in
      if (rqs r).softbarrier || (rqs r).hardbarrier
      then (no_merge nowhere, hint)
      else if (rqs r).started
      then (no_merge nowhere, hint)
      else if not (rqs r).cmd
      then rest
      else named (elv_try_merge k (rqs r) bio) r rest

  -- The request that the hint names, if it merges.
  abbrev pub try_hint : Merge × Option ℕ → Verdict × Option ℕ → Verdict × Option ℕ
  try_hint (ret, none) scanned = scanned
  try_hint (ret, some r) scanned = named ret r scanned

  unfoldable pub elevator_noop_merge : NoopQueue → (ℕ → Request) → Bio → Verdict × NoopQueue
  unfolding scan
  elevator_noop_merge e rqs bio =
      let last = elv_try_last_merge k rqs e.last_merge bio in
      let (verdict, hint) = try_hint last (scan rqs bio last.1 (rejoin e.queue_head [])) in
      (verdict, record e { last_merge = hint })

-- A hint that there is stays.
abbrev pub or_this : Option ℕ → ℕ → Option ℕ
or_this none r = some r
or_this (some hint) r = some hint

unfoldable pub elevator_noop_add_request : NoopQueue → CommandFlags → ℕ → NoopQueue
elevator_noop_add_request e flags r = record {
  queue_head = e.queue_head ++ (r ∷ []);
  last_merge = if flags.hardbarrier then none else or_this e.last_merge r;
}

unfoldable pub elevator_noop_merge_requests : NoopQueue → ℕ → ℕ → NoopQueue
elevator_noop_merge_requests e r next = record e { queue_head = remove next e.queue_head }

unfoldable pub elevator_noop_next_request : NoopQueue → Option ℕ
elevator_noop_next_request e = first e.queue_head

unfoldable pub elv_remove_request : NoopQueue → ℕ → NoopQueue
elv_remove_request e r = record e {
  last_merge = if points_to e.last_merge r then none else e.last_merge;
}

-- `elevator_noop` behind the elv_ functions, on the disks of the devices.
abbrev pub elevator_noop : Kernel → (ℕ → ℕ) → Elevator NoopQueue
elevator_noop k disk_of = record {
  elv_queue_empty = λ e. list_empty e.queue_head;
  elv_merge = λ e requests commands bio. (do
    dev ← bio.bi_bdev
    some (
        elevator_noop_merge k e (λ r. as_request (requests r) (commands r))
          (as_bio (disk_of dev) bio)));
  clear_last_merge = λ e. record e { last_merge = none };
  elv_merged_request = λ e r. e;
  elv_merge_requests = elevator_noop_merge_requests;
  elv_latter_request = λ e r. after r e.queue_head;
  elv_former_request = λ e r. after r (rejoin e.queue_head []);
  elv_add_request_pos = λ e commands r place. elevator_noop_add_request e (commands r) r;
}
