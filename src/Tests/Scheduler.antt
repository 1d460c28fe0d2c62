-- ===== src/Tests/Scheduler.antt =====
-- The theorems about the deadline scheduler, each at a concrete state.
use ucsb_disk_profiling.Prelude.{
  ℕ, ◌≡◌, ◌==◌, not, List, refl, some, true, false, [], ◌∷◌, arith, ◌⊎◌,
}
use ucsb_disk_profiling.Block.{ucsb_def_priority, read, Both}
use ucsb_disk_profiling.Deadline.State.{DeadlineData, rq_priority, rq_bio_sector}
use ucsb_disk_profiling.Deadline.Invariant.{IsValid}
use ucsb_disk_profiling.Deadline.Ucsb.{ucsb_io_add_request, ucsb_io_dispatch_request}
use ucsb_disk_profiling.Deadline.Ucsb.Insertion.{priority, bio_sector, IsQueued}
use ucsb_disk_profiling.Deadline.Ucsb.Order.{IsInserted, add-IsInserted, add-behind_lower}
use ucsb_disk_profiling.Deadline.Ucsb.Dispatch.{gives, IsDispatched, dispatch-IsDispatched}
use ucsb_disk_profiling.Deadline.Sort.{deadline_add_request, deadline_move_request}
use ucsb_disk_profiling.Deadline.Sort.Valid.{move-IsValid}
use ucsb_disk_profiling.Deadline.Sort.Enter.{IsFresh}
use ucsb_disk_profiling.Deadline.Sort.Request.{IsAdded, add_request-IsAdded}
use ucsb_disk_profiling.Deadline.Dispatch.{deadline_dispatch_requests, deadline_next_request, drain}
use ucsb_disk_profiling.Deadline.Dispatch.Total.{IsSent, dispatch_requests_total}
use ucsb_disk_profiling.Deadline.Dispatch.Drain.{IsDrained, drain_total}
use ucsb_disk_profiling.Deadline.Dispatch.Turns.{Turn, dispatch_requests-Turn}
use ucsb_disk_profiling.Deadline.Dispatch.Policy.{Policy, next_request-Policy}
use ucsb_disk_profiling.Deadline.Init.{Memory}
use ucsb_disk_profiling.Tests.Sample.{kernel, idle_queue, busy_queue, busy_queue-IsValid}

-- In the samples every request has a bio and live QoS parameters.
busy-IsQueued : (n : ℕ) → IsQueued busy_queue n
unfolding priority bio_sector rq_priority rq_bio_sector
busy-IsQueued n = record { has_priority = refl; has_sector = refl }

IsFresh-read : IsFresh busy_queue 4
IsFresh-read = record {
  has_drq = refl;
  no_flag = refl;
  not_read = refl;
  not_written = refl;
  not_dispatched = refl;
  not_ucsb = refl;
}

add_request-IsAdded_example :
    (dd' : DeadlineData) × (deadline_add_request kernel busy_queue 4 ≡ some dd')
    × IsAdded 4 busy_queue dd'
add_request-IsAdded_example =
    add_request-IsAdded kernel busy_queue 4 busy_queue-IsValid IsFresh-read

dispatch_requests_total_example :
    ((busy_queue.fifo_list.reads ≡ [])
      × (busy_queue.fifo_list.writes ≡ [])
      × (deadline_dispatch_requests kernel busy_queue ≡ some (false, busy_queue)))
    ⊎ ((dd' : DeadlineData) × (deadline_dispatch_requests kernel busy_queue ≡ some (true, dd'))
        × IsSent kernel busy_queue dd')
dispatch_requests_total_example = dispatch_requests_total kernel busy_queue busy_queue-IsValid

next_request-Policy_example : Policy kernel busy_queue (deadline_next_request kernel busy_queue)
next_request-Policy_example =
    next_request-Policy kernel busy_queue busy_queue-IsValid
      (busy-IsQueued 10, (busy-IsQueued 11, tt)) refl

drain_total_example :
    (dd' : DeadlineData) × (drain kernel 4 busy_queue ≡ some dd') × IsDrained busy_queue dd'
drain_total_example = drain_total kernel 4 busy_queue busy_queue-IsValid (omega arith)

move-IsValid_example : IsValid (deadline_move_request kernel busy_queue 1)
move-IsValid_example = move-IsValid kernel busy_queue 1 read busy_queue-IsValid (omega arith)

add-IsInserted_example :
    (dd' : DeadlineData) × (ucsb_io_add_request busy_queue 12 ≡ some dd')
    × IsInserted 12 busy_queue dd'
add-IsInserted_example =
    add-IsInserted busy_queue 12 (busy-IsQueued 12) (busy-IsQueued 10, (busy-IsQueued 11, tt))

-- Request 12 has the highest priority, and goes behind request 10.
add-behind_lower_example :
    (dd' : DeadlineData) × (ucsb_io_add_request busy_queue 12 ≡ some dd')
    × (dd'.ucsb_queue ≡ 10 ∷ 12 ∷ 11 ∷ [])
unfolding priority bio_sector rq_priority rq_bio_sector
add-behind_lower_example =
    add-behind_lower busy_queue 12 (busy-IsQueued 12) [] 10 (11 ∷ []) refl tt (busy-IsQueued 10) tt
      refl (omega arith)

dispatch-IsDispatched_example :
    (dd' : DeadlineData) × (ucsb_io_dispatch_request busy_queue ucsb_def_priority
      ≡ some (gives busy_queue ucsb_def_priority busy_queue.ucsb_queue, dd'))
    × IsDispatched busy_queue (gives busy_queue ucsb_def_priority busy_queue.ucsb_queue) dd'
dispatch-IsDispatched_example =
    dispatch-IsDispatched busy_queue ucsb_def_priority (busy-IsQueued 10, (busy-IsQueued 11, tt))

dispatch_requests-Turn_example :
    ((busy_queue.fifo_list.reads ≡ [])
      × (busy_queue.fifo_list.writes ≡ [])
      × (deadline_dispatch_requests kernel busy_queue ≡ some (false, busy_queue)))
    ⊎ ((dd' : DeadlineData) × (deadline_dispatch_requests kernel busy_queue ≡ some (true, dd'))
        × Turn kernel busy_queue dd')
dispatch_requests-Turn_example =
    dispatch_requests-Turn kernel busy_queue busy_queue-IsValid (omega arith)

-- The entry of request 5 is not to be had.
abbrev short_memory : Memory
short_memory = record { drq_pool = true; block = true; hash = true; entry = λ r. not (r == 5) }

abbrev free_requests : Both (List ℕ)
free_requests = record { reads = 4 ∷ 5 ∷ []; writes = 6 ∷ [] }

abbrev no_entries : DeadlineData
no_entries = record idle_queue { has_drq = λ n. false }
