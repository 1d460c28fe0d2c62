-- ===== src/Deadline/Dispatch/Starvation.antt =====
-- What the moves of requests do to the counter of reads that overtake writes in
-- ucsb-io/ucsb-io-2.5.67/drivers/block/deadline-iosched.c.
use ucsb_disk_profiling.Prelude.{ℕ, ◌≡◌, inl, inr, some, arith, Option-cases}
use ucsb_disk_profiling.Block.{Dir, write, at}
use ucsb_disk_profiling.Kernel.{Kernel}
use ucsb_disk_profiling.Deadline.State.{DeadlineData}
use ucsb_disk_profiling.Deadline.Hash.{deadline_del_drq_hash, unhash_drq}
use ucsb_disk_profiling.Deadline.Sort.{
  deadline_remove_request, remove_drq, deadline_del_drq_rb, del_fifo, deadline_move_request,
  deadline_move_to_dispatch, deadline_find_first_drq,
}
use ucsb_disk_profiling.Deadline.Dispatch.{
  head_entry, deadline_check_fifo, dispatch_request, dispatch_find_request, dispatch_writes,
  end_batch,
}

-- The counters of the scheduler that a move does not touch.
pub record SameCounters (dd dd' : DeadlineData) : Type 0 where
  pub starved : dd'.starved ≡ dd.starved
  pub writes_starved : dd'.writes_starved ≡ dd.writes_starved

module _ (k : Kernel) where
  unhash-SameCounters : (dd : DeadlineData) (a : ℕ) → SameCounters dd (deadline_del_drq_hash dd a)
  unfolding deadline_del_drq_hash unhash_drq
  unhash-SameCounters dd a = record { starved = ground arith; writes_starved = ground arith }

  del_rb-SameCounters : (dd : DeadlineData) (a : ℕ) → SameCounters dd (deadline_del_drq_rb k dd a)
  unfolding deadline_del_drq_rb
  del_rb-SameCounters dd a = record { starved = ground arith; writes_starved = ground arith }

  remove_drq-SameCounters : (dd : DeadlineData) (a : ℕ) → SameCounters dd (remove_drq k dd a)
  unfolding remove_drq
  remove_drq-SameCounters dd a =
      let unhashed = unhash-SameCounters (del_fifo dd a) a in
      let erased = del_rb-SameCounters (deadline_del_drq_hash (del_fifo dd a) a) a in
      record {
        starved = ground (arith, unhashed.starved, erased.starved);
        writes_starved = ground (arith, unhashed.writes_starved, erased.writes_starved);
      }

  remove-SameCounters :
      (dd : DeadlineData) (a : ℕ) → SameCounters dd (deadline_remove_request k dd a)
  unfolding deadline_remove_request
  remove-SameCounters dd a =
      let removed = remove_drq-SameCounters dd a in
      record {
        starved = ground (arith, removed.starved);
        writes_starved = ground (arith, removed.writes_starved);
      }

  move-SameCounters : (dd : DeadlineData) (a : ℕ) → SameCounters dd (deadline_move_request k dd a)
  unfolding deadline_move_request deadline_move_to_dispatch
  move-SameCounters dd a =
      let removed = remove-SameCounters _ a in
      record { starved = removed.starved; writes_starved = removed.writes_starved }

  pub dispatch-SameCounters :
      (dd : DeadlineData) (a : ℕ) → SameCounters dd (dispatch_request k dd a)
  unfolding dispatch_request
  dispatch-SameCounters dd a =
      let moved = move-SameCounters _ a in
      record { starved = moved.starved; writes_starved = moved.writes_starved }

  pub find-starved :
      (dd dd' : DeadlineData) (d : Dir)
      → dispatch_find_request k dd d ≡ some dd'
      → dd'.starved ≡ dd.starved
  unfolding dispatch_find_request deadline_check_fifo
  find-starved dd dd' d e = elim (Option-cases (head_entry (at dd.fifo_list d))) [
    | inl f ↦ ground (arith, e, f)
    | inr (a, f) ↦
        let expired = (dispatch-SameCounters (end_batch dd) a).starved in
        elim (Option-cases (at dd.next_drq d)) [
          | inr (n, g) ↦ ground (arith, e, f, g, expired, (dispatch-SameCounters dd n).starved)
          | inl g ↦ elim (Option-cases (deadline_find_first_drq dd d)) [
            | inl c ↦ ground (arith, e, f, g, c, expired)
            | inr (b, c) ↦
                ground
                  (arith, e, f, g, c, expired, (dispatch-SameCounters (end_batch dd) b).starved)
          ]
        ]
  ]

  pub writes-starved : (dd dd' : DeadlineData) → dispatch_writes k dd ≡ some dd' → dd'.starved ≡ 0
  unfolding dispatch_writes
  writes-starved dd dd' e = ground (arith, e, find-starved (record dd { starved = 0 }) dd' write)
