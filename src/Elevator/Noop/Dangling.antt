-- ===== src/Elevator/Noop/Dangling.antt =====
-- A request that is merged away stays the hint of the noop elevator of
-- ucsb-io/ucsb-io-2.5.67/drivers/block/elevator.c.
use ucsb_disk_profiling.Prelude.{ℕ, ◌≡◌, refl, some, true, count, count-remove, arith}
use ucsb_disk_profiling.Kernel.{Kernel}
use ucsb_disk_profiling.Segments.{StructBio}
use ucsb_disk_profiling.Blk.Merge.{StructRequest}
use ucsb_disk_profiling.Elevator.Merge
use ucsb_disk_profiling.Elevator.Merge.{elv_try_merge, elv_try_last_merge}
use ucsb_disk_profiling.Elevator.Noop.{
  NoopQueue, as_bio, as_request, elevator_noop_merge, elevator_noop_merge_requests, elevator_noop,
}
use ucsb_disk_profiling.Blk.Make.{CommandFlags, back_merge}

-- The noop elevator, where `last_merge` is the request `r` of the queue when the block layer merges it
-- into `p`, as after a front merge into `r`: `r` leaves the queue, but stays `last_merge`, so that
-- elv_merge sends the next bio that begins where `r` ends into `r`, which no driver will see.
pub join-dangles :
    (kernel : Kernel) (disk_of : ℕ → ℕ) (e : NoopQueue) (p r : ℕ) (requests : ℕ → StructRequest)
    (commands : ℕ → CommandFlags) (bio : StructBio) (dev : ℕ)
    → e.last_merge ≡ some r
    → count r e.queue_head ≡ 1
    → kernel.rq_mergeable (as_request (requests r) (commands r)) ≡ true
    → bio.bi_bdev ≡ some dev
    → elv_try_merge kernel (as_request (requests r) (commands r)) (as_bio (disk_of dev) bio)
      ≡ Merge.back_merge
    → let noop = elevator_noop kernel disk_of in
      let left = noop.elv_merge_requests e p r in
      (count r left.queue_head ≡ 0)
      × (noop.elv_merge left requests commands bio ≡ some (back_merge r, left))
unfolding elevator_noop_merge elevator_noop_merge_requests elv_try_last_merge
join-dangles kernel disk_of e p r requests commands bio dev hint once mergeable at_dev back =
    (ground (arith, count-remove r r e.queue_head, once), rw (at_dev, hint, mergeable, back) refl)
