-- ===== src/Blk/Stats.antt =====
-- The statistics of a disk in ucsb-io/ucsb-io-2.5.67/drivers/block/ll_rw_blk.c: what drive_stat_acct,
-- disk_round_stats, end_that_request_last and attempt_merge do with them.
pub mod Timeline
use ucsb_disk_profiling.Prelude.{
  ℕ, ◌+◌, ◌-◌, ◌*◌, ◌%◌, Option, none, some, Bool, true, false, ltb, if◌then◌else◌, ◌>>=◌,
}
use ucsb_disk_profiling.Block.{Dir, read, write, Both, at, put, update, uint_mod, ulong_mod}
use ucsb_disk_profiling.Blk.Queue.{QueueSizes}
use ucsb_disk_profiling.Blk.Free.{FreeLists, blk_put_request}
use ucsb_disk_profiling.Blk.Merge.{StructRequest}

-- The counters that `disk_stat_add` and its kin reach, each of 32 bits, and the two time stamps.
pub record DiskStats : Type 0 where
  pub ios : Both ℕ
  pub sectors : Both ℕ
  pub merges : Both ℕ
  pub ticks : Both ℕ
  pub in_flight : ℕ
  pub time_in_queue : ℕ
  pub io_ticks : ℕ
  pub stamp : ℕ
  pub stamp_idle : ℕ

-- disk_stat_add for a counter of one direction
abbrev pub add_to : Both ℕ → Dir → ℕ → Both ℕ
add_to counters rw n = put counters rw ((at counters rw + n) % uint_mod)

-- The difference of two times in jiffies.
abbrev pub elapsed : ℕ → ℕ → ℕ
elapsed now then_ = (now + ulong_mod - then_) % ulong_mod

unfoldable pub disk_round_stats : ℕ → DiskStats → DiskStats
disk_round_stats now d = record d {
  time_in_queue = (d.time_in_queue + d.in_flight * elapsed now d.stamp) % uint_mod;
  stamp = now;
  io_ticks =
      if ltb 0 d.in_flight then (d.io_ticks + elapsed now d.stamp_idle) % uint_mod else d.io_ticks;
  stamp_idle = now;
}

-- disk_stat_inc and disk_stat_dec of `in_flight`, behind a round-off
unfoldable pub one_more : ℕ → DiskStats → DiskStats
unfolding disk_round_stats
one_more now d =
    let rounded = disk_round_stats now d in
    record rounded { in_flight = (d.in_flight + 1) % uint_mod }

unfoldable pub one_less : ℕ → DiskStats → DiskStats
unfolding disk_round_stats
one_less now d =
    let rounded = disk_round_stats now d in
    record rounded { in_flight = (d.in_flight + uint_mod - 1) % uint_mod }

-- `drive_stat_acct` for a request that has a disk
unfoldable pub account : ℕ → DiskStats → Dir → ℕ → Bool → DiskStats
unfolding one_more
account now d rw nr_sectors new_io =
    let counted = record d { sectors = add_to d.sectors rw nr_sectors } in
    if new_io then one_more now counted else record counted { merges = add_to d.merges rw 1 }

unfoldable pub drive_stat_acct : ℕ → (ℕ → DiskStats) → StructRequest → ℕ → Bool → ℕ → DiskStats
unfolding account
drive_stat_acct now disks rq nr_sectors new_io = elim rq.rq_disk [
  | none ↦ disks
  | some disk ↦ update disks disk (account now (disks disk) rq.dir nr_sectors new_io)
]

-- The counters of a completed request.
unfoldable pub account_end : ℕ → DiskStats → Dir → ℕ → DiskStats
unfolding one_less
account_end now d rw start_time =
    one_less now
      (record d { ios = add_to d.ios rw 1; ticks = add_to d.ticks rw (elapsed now start_time) })

-- What `end_that_request_last` leaves: whether it completed a waiter, the disks, and the free lists.
pub record Last : Type 0 where
  pub completed : Bool
  pub disks : ℕ → DiskStats
  pub lists : FreeLists

unfoldable pub end_that_request_last :
    QueueSizes → ℕ → (ℕ → DiskStats) → FreeLists → Bool → ℕ → StructRequest → ℕ → Option Last
unfolding account_end
end_that_request_last sizes now disks lists has_queue rq req start_time = do
  lists' ← blk_put_request sizes lists has_queue rq
  some (record {
    completed = req.waiting;
    disks = elim req.rq_disk as (λ _. ℕ → DiskStats) [
      | none ↦ disks
      | some disk ↦ update disks disk (account_end now (disks disk) req.dir start_time)
    ];
    lists = lists';
  })

-- The part of `attempt_merge` behind the merge of two requests.
unfoldable pub account_join : ℕ → (ℕ → DiskStats) → StructRequest → ℕ → DiskStats
unfolding one_less
account_join now disks req = elim req.rq_disk [
  | none ↦ disks
  | some disk ↦ update disks disk (one_less now (disks disk))
]
