-- ===== src/Blk/Free/Init.antt =====
-- The set-up of the free lists in ucsb-io/ucsb-io-2.5.67/drivers/block/ll_rw_blk.c.
use ucsb_disk_profiling.Prelude.{ℕ, ◌+◌, ◌≤◌, ◌<◌, ◌≡◌, ◌⊎◌, Option, none, true, false, length}
use ucsb_disk_profiling.Block.{Dir}
use ucsb_disk_profiling.Blk.Queue.{QueueSizes}
use ucsb_disk_profiling.Blk.Free.{FreeLists, fill_lists}

-- `q'` is `q` with `a` more requests to read and `b` more to write, all of them counted.
record Grown (q q' : FreeLists) (a b : ℕ) : Type 0 where
  reads : length q'.free.reads ≡ length q.free.reads + a
  writes : length q'.free.writes ≡ length q.free.writes + b
  read_count : q'.count.reads ≡ q.count.reads + a
  write_count : q'.count.writes ≡ q.count.writes + b
  congestion : q'.congested ≡ q.congested

-- `q'` is `q` with the requests of the rounds from `i` up to `j`, all of them counted.
record Stopped (q q' : FreeLists) (i j : ℕ) : Type 0 where
  later : i ≤ j
  held :
      length q'.free.reads + length q'.free.writes + i
      ≡ length q.free.reads + length q.free.writes + j
  reads : q'.count.reads + length q.free.reads ≡ q.count.reads + length q'.free.reads
  writes : q'.count.writes + length q.free.writes ≡ q.count.writes + length q'.free.writes

module _ (sizes : QueueSizes) (alloc : ℕ → Option ℕ) where
  -- The loop gives up at an allocation that fails, or adds `a` and `b` requests.
  Fills : ℕ → ℕ → Dir → FreeLists → ℕ → ℕ → Type 0
  Fills rounds i rl q a b =
      ((q' : FreeLists) × (j : ℕ) × (fill_lists sizes alloc rounds i rl q ≡ (false, q'))
        × (j < i + rounds)
        × (alloc j ≡ none)
        × Stopped q q' i j)
      ⊎ ((q' : FreeLists) × (fill_lists sizes alloc rounds i rl q ≡ (true, q')) × Grown q q' a b)
