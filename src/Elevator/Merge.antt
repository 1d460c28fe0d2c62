-- ===== src/Elevator/Merge.antt =====
-- The merge tests of ucsb-io/ucsb-io-2.5.67/drivers/block/elevator.c.
use ucsb_disk_profiling.Prelude.{
  ℕ, ◌+◌, ◌-◌, ◌%◌, Option, none, some, Bool, true, false, not, ◌&&◌, ltb, ◌==◌, if◌then◌else◌,
}
use ucsb_disk_profiling.Block.{Dir, read, write, Bio, Request, bio_sectors, ulong_mod}
use ucsb_disk_profiling.Kernel.{Kernel}

-- ELEVATOR_NO_MERGE, ELEVATOR_BACK_MERGE, ELEVATOR_FRONT_MERGE
pub data Merge : Type 0 where
  no_merge back_merge front_merge : Merge

abbrev pub same_dir : Dir → Dir → Bool
same_dir read read = true
same_dir read write = false
same_dir write read = false
same_dir write write = true

-- `next_rq` is the request behind `rq`, or `none` at the head of the list.
unfoldable pub bio_rq_in_between : Bio → Request → Option Request → Bool
bio_rq_in_between bio rq none = false
bio_rq_in_between bio rq (some next_rq) =
    if not next_rq.cmd
    then false
    else if not (next_rq.rq_disk == rq.rq_disk)
    then ltb rq.sector bio.bi_sector
    else if ltb bio.bi_sector next_rq.sector && ltb rq.sector bio.bi_sector
    then true
    else if ltb rq.sector next_rq.sector
    then false
    else if ltb rq.sector bio.bi_sector
    then true
    else ltb bio.bi_sector next_rq.sector

unfoldable pub elv_rq_merge_ok : Kernel → Request → Bio → Bool
elv_rq_merge_ok k rq bio =
    if not (k.rq_mergeable rq)
    then false
    else if not (same_dir bio.bi_dir rq.dir)
    then false
    else (rq.rq_disk == bio.bd_disk && not rq.waiting) && not rq.special

unfoldable pub elv_try_merge : Kernel → Request → Bio → Merge
elv_try_merge k rq bio =
    if elv_rq_merge_ok k rq bio
    then (if (rq.sector + rq.nr_sectors) % ulong_mod == bio.bi_sector
        then back_merge
        else if (rq.sector + ulong_mod - bio_sectors bio) % ulong_mod == bio.bi_sector
        then front_merge
        else no_merge)
    else no_merge

-- The result, and the queue's `last_merge` afterwards.
unfoldable pub elv_try_last_merge : Kernel → (ℕ → Request) → Option ℕ → Bio → Merge × Option ℕ
elv_try_last_merge k rqs none bio = (no_merge, none)
elv_try_last_merge k rqs (some n) bio =
    if not (k.rq_mergeable (rqs n)) then (no_merge, none) else (elv_try_merge k (rqs n) bio, some n)
