-- ===== src/Tests/Noops.antt =====
-- The theorems about the noop elevator, each at a concrete queue.
use ucsb_disk_profiling.Prelude.{◌≡◌, refl, none, some, true, not, ◌&&◌, [], ◌∷◌, count, arith}
use ucsb_disk_profiling.Block.{best_effort}
use ucsb_disk_profiling.Kernel.{Kernel}
use ucsb_disk_profiling.Blk.Merge.{StructRequest}
use ucsb_disk_profiling.Blk.Make.{CommandFlags, back_merge, Env, State, PassEnd}
use ucsb_disk_profiling.Blk.Make.Pass.{pass}
use ucsb_disk_profiling.Blk.Make.Keeps.{EndsWell}
use ucsb_disk_profiling.Elevator.Merge.{elv_try_merge, elv_rq_merge_ok}
use ucsb_disk_profiling.Elevator.Noop.{NoopQueue, as_request, elevator_noop}
use ucsb_disk_profiling.Elevator.Noop.Contract.{noop_pass-EndsWell}
use ucsb_disk_profiling.Elevator.Noop.Dangling.{join-dangles}
use ucsb_disk_profiling.Tests.Sample.{kernel}
use ucsb_disk_profiling.Tests.Makes.{
  env_with, queue_with, page_at, requests_at, page-IsReady, requests_at-AllWell, best_effort_page,
}

abbrev macros : Kernel
macros = record kernel { rq_mergeable = λ rq. rq.cmd && not rq.nomerge }

abbrev noop_env : Env NoopQueue
noop_env = env_with (elevator_noop macros (λ dev. 0))

-- Two requests are queued; the last one was the last to merge.
abbrev two_queued : NoopQueue
two_queued = record { queue_head = 6 ∷ 7 ∷ []; last_merge = some 7 }

abbrev noop_queue : State NoopQueue
noop_queue = queue_with two_queued

macros-covers :
    (req : StructRequest) (flags : CommandFlags)
    → macros.rq_mergeable (as_request req flags) ≡ true
    → noop_env.rq_mergeable req ≡ true
macros-covers req flags e = ground (arith, e)

noop_pass-EndsWell_example :
    (p : PassEnd NoopQueue) × (pass noop_env noop_queue (page_at 2 none) 8 (page_at 2 none) none
      ≡ some p)
    × EndsWell noop_env (page_at 2 none) p
noop_pass-EndsWell_example =
    noop_pass-EndsWell macros noop_env refl macros-covers noop_queue (page_at 2 none)
      (page_at 2 none) 8 none best_effort (page-IsReady noop_env.elevator 2 (omega arith))
      (best_effort_page noop_env.elevator) (requests_at-AllWell noop_env.elevator)

join-dangles_example :
    let noop = elevator_noop macros (λ dev. 0) in
    let left = noop.elv_merge_requests two_queued 6 7 in
    (count 7 left.queue_head ≡ 0)
    × (noop.elv_merge left requests_at noop_queue.driver.commands (page_at 2 none)
        ≡ some (back_merge 7, left))
unfolding elv_try_merge elv_rq_merge_ok
join-dangles_example =
    join-dangles macros (λ dev. 0) two_queued 6 7 requests_at noop_queue.driver.commands
      (page_at 2 none) 0 refl refl refl refl refl
