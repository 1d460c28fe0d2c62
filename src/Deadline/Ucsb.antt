-- ===== src/Deadline/Ucsb.antt =====
-- The queue of UCSB requests of ucsb-io/ucsb-io-2.5.67/drivers/block/deadline-iosched.c:
-- `ucsb_io_type`, `ucsb_io_add_request` and `ucsb_io_dispatch_request`.
pub mod Insertion
pub mod Order
pub mod Dispatch
use ucsb_disk_profiling.Prelude.{
  ℕ, ◌+◌, ◌-◌, ◌%◌, Option, none, some, Bool, true, false, List, [], ◌∷◌, ◌++◌, ℤ, ltb_ℤ, ltb,
  if◌then◌else◌, ◌>>=◌, rejoin,
}
use ucsb_disk_profiling.Block.{Qos, best_effort, UcsbIo, Bio, uint_mod}
use ucsb_disk_profiling.Deadline.State.{DeadlineData, rq_priority, rq_bio_sector}

-- The type of the file's QoS parameters, if the bio has any. A freed `bi_qos` is a fault.
unfoldable pub ucsb_io_type : (ℕ → Option UcsbIo) → Bio → Option Qos
ucsb_io_type qos bio = elim bio.bi_qos [
  | some p ↦ do q ← qos p; some q.type
  | none ↦ some best_effort
]

-- The `do` loop. The cursor is the nodes up to `entry` in reverse, and those behind it.
unfoldable pub find_lower : DeadlineData → ℕ → List ℕ → List ℕ → Option (List ℕ × List ℕ)
find_lower dd rq before [] = none
find_lower dd rq before (x ∷ xs) =
    let next = find_lower dd rq (x ∷ before) xs in
    do
      c ← rq_priority dd x
      p ← rq_priority dd rq
      if ltb_ℤ c p
          then some (x ∷ before, xs)
          else (elim xs [ [] ↦ some (x ∷ before, []) | _ ∷ _ ↦ next ])

-- The `while` loop. It stops at the list's head, which is the empty cursor.
unfoldable pub skip_higher_sectors : DeadlineData → ℕ → List ℕ → List ℕ → Option (List ℕ × List ℕ)
skip_higher_sectors dd rq [] behind = some ([], behind)
skip_higher_sectors dd rq (x ∷ before) behind =
    let previous = skip_higher_sectors dd rq before (x ∷ behind) in
    do
      c ← rq_bio_sector dd x
      s ← rq_bio_sector dd rq
      if ltb s c then previous else some (x ∷ before, behind)

-- The request goes behind the entry where the loops stop; an empty queue just takes it.
unfoldable pub insert_into_queue : DeadlineData → ℕ → List ℕ → Option (List ℕ)
insert_into_queue dd rq [] = some (rq ∷ [])
insert_into_queue dd rq (x ∷ xs) = do
  (before, behind) ← find_lower dd rq [] (x ∷ xs)
  (before', behind') ← skip_higher_sectors dd rq before behind
  some (rejoin before' (rq ∷ behind'))

unfoldable pub ucsb_io_add_request : DeadlineData → ℕ → Option DeadlineData
ucsb_io_add_request dd rq = do
  queue ← insert_into_queue dd rq dd.ucsb_queue
  some (record dd { ucsb_queue = queue; ucsb_cnt = (dd.ucsb_cnt + 1) % uint_mod })

-- The head of the queue goes to the end of the dispatch queue, if its priority is high enough.
unfoldable pub dispatch_head : DeadlineData → ℤ → List ℕ → Option (Bool × DeadlineData)
dispatch_head dd priority [] = some (false, dd)
dispatch_head dd priority (x ∷ xs) = do
  p ← rq_priority dd x
  if ltb_ℤ p priority
      then some (false, dd)
      else some (
        true,
        record dd {
          ucsb_queue = xs;
          ucsb_cnt = (dd.ucsb_cnt + uint_mod - 1) % uint_mod;
          dispatch = dd.dispatch ++ (x ∷ []);
        },
      )

unfoldable pub ucsb_io_dispatch_request : DeadlineData → ℤ → Option (Bool × DeadlineData)
unfolding dispatch_head
ucsb_io_dispatch_request dd priority = dispatch_head dd priority dd.ucsb_queue
