-- ===== src/Blk/Queue/Sizes.antt =====
-- The sizes that blk_dev_init of ucsb-io/ucsb-io-2.5.67/drivers/block/ll_rw_blk.c computes.
use ucsb_disk_profiling.Prelude.{ℕ, ◌%◌, ◌≤◌, ◌<◌, ◌≡◌, arith}
use ucsb_disk_profiling.Blk.Queue.{
  blk_dev_init, queue_congestion_on_threshold, queue_congestion_off_threshold,
}

-- Whatever the memory of the machine: each free list has 16 to 128 requests, a multiple of 8; a batch
-- is 2 to 8 of them; and congestion starts at a positive count strictly below the one where it ends,
-- which the list can reach.
pub sizes_bounds :
    (total_ram : ℕ)
    → let sizes = blk_dev_init total_ram in
      let requests = sizes.queue_nr_requests in
      (16 ≤ requests)
      × (requests ≤ 128)
      × (requests % 8 ≡ 0)
      × (2 ≤ sizes.batch_requests)
      × (sizes.batch_requests ≤ 8)
      × (1 ≤ queue_congestion_on_threshold requests)
      × (queue_congestion_on_threshold requests < queue_congestion_off_threshold requests)
      × (queue_congestion_off_threshold requests ≤ requests)
unfolding blk_dev_init queue_congestion_on_threshold queue_congestion_off_threshold
sizes_bounds total_ram = ground arith
