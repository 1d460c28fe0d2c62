-- ===== src/Deadline/Init/Starts.antt =====
-- What deadline_init of ucsb-io/ucsb-io-2.5.67/drivers/block/deadline-iosched.c leaves, with enough
-- memory and without.
use ucsb_disk_profiling.Prelude.{
  ℕ, ◌+◌, ◌<◌, ◌≡◌, ◌⊎◌, none, some, Bool, true, false, not, ◌||◌, List, [], count,
}
use ucsb_disk_profiling.Block.{Both}
use ucsb_disk_profiling.Kernel.{leaf}
use ucsb_disk_profiling.Deadline.State.{DeadlineData}
use ucsb_disk_profiling.Deadline.Invariant.{IsValid}
use ucsb_disk_profiling.Deadline.Init.{Memory, Started, fresh_data, give_drqs}

-- The lists, the trees and the queues of the scheduler are empty, and its counters are 0.
pub record IsEmpty (dd : DeadlineData) : Type 0 where
  pub sort_list : dd.sort_list ≡ record { reads = leaf; writes = leaf }
  pub fifo_list : dd.fifo_list ≡ record { reads = []; writes = [] }
  pub next_drq : dd.next_drq ≡ record { reads = none; writes = none }
  pub ucsb_queue : dd.ucsb_queue ≡ []
  pub dispatch : dd.dispatch ≡ []
  pub last_merge : dd.last_merge ≡ none
  pub ucsb_cnt : dd.ucsb_cnt ≡ 0
  pub starved : dd.starved ≡ 0

-- A scheduler that starts with its lists in order and an entry for each free request, or does not, for
-- lack of memory, and leaves no entry behind.
pub data StartsWell (m : Memory) (free : Both (List ℕ)) (s : Started) : Type 0 where
  up :
      (dd : DeadlineData)
      → s.ok ≡ true
      → s.elevator_data ≡ some dd
      → IsValid dd
      → IsEmpty dd
      → ((r : ℕ) → 0 < count r free.reads + count r free.writes → dd.has_drq r ≡ true)
      → StartsWell m free s
  down :
      s.ok ≡ false
      → s.elevator_data ≡ none
      → ((r : ℕ) → 0 < count r free.reads + count r free.writes → s.has_drq r ≡ false)
      → (not m.drq_pool || (not m.block || not m.hash) ≡ true)
        ⊎ ((r : ℕ) × (0 < count r free.reads + count r free.writes) × (m.entry r ≡ false))
      → StartsWell m free s

module _ (hz : ℕ) (m : Memory) (free : Both (List ℕ)) (memory : DeadlineData) where
  -- The data behind the loop over the reads, and behind both.
  one_given : Bool × DeadlineData
  one_given = give_drqs m.entry free.reads (fresh_data hz memory)

  both_given : Bool × DeadlineData
  unfolding one_given
  both_given = give_drqs m.entry free.writes one_given.1
