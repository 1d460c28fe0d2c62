-- ===== src/Deadline/Dispatch/Policy.antt =====
-- `deadline_next_request` of drivers/block/deadline-iosched.c: who is served first.
use ucsb_disk_profiling.Prelude.{
  ℕ, ◌+◌, ◌-◌, ◌<◌, ◌%◌, ◌≡◌, refl, sym, ap, ◌∙◌, Option, none, some, true, false, not, List, [],
  ◌∷◌, ◌++◌, ℤ, pos, negsuc, ltb_ℤ, count, arith, inl, inr, Bool-cases, All,
}
use mathlib.Core.Path.{subst}
use ucsb_disk_profiling.Block.{Dir, read, write, at, uint_mod, ucsb_def_priority}
use ucsb_disk_profiling.Kernel.{Kernel}
use ucsb_disk_profiling.Deadline.State.{DeadlineData}
use ucsb_disk_profiling.Deadline.Invariant.{IsValid}
use ucsb_disk_profiling.Deadline.Ucsb.Insertion.{priority, IsQueued}
use ucsb_disk_profiling.Deadline.Ucsb.Dispatch.{gives, dispatch_refused, dispatch_granted}
use ucsb_disk_profiling.Deadline.Dispatch.{
  deadline_dispatch_requests, deadline_next_request, deadline_queue_empty,
}
use ucsb_disk_profiling.Deadline.Dispatch.Total.{dispatch_requests_total}
use ucsb_disk_profiling.Deadline.Dispatch.Drain.{IsServed, IsSent-IsServed}

-- The head of the UCSB queue goes out.
abbrev pub granted : DeadlineData → ℕ → List ℕ → DeadlineData
granted dd x xs = record dd {
  ucsb_queue = xs;
  ucsb_cnt = (dd.ucsb_cnt + uint_mod - 1) % uint_mod;
  dispatch = dd.dispatch ++ (x ∷ []);
}

-- The order of the head of the UCSB queue and the scheduler's own requests, where the dispatch queue is
-- empty.
pub data Policy (k : Kernel) (dd : DeadlineData) (r : Option (Option ℕ × DeadlineData))
    : Type 0 where
  high :
      (x : ℕ) (xs : List ℕ)
      → dd.ucsb_queue ≡ x ∷ xs
      → ltb_ℤ (priority dd x) ucsb_def_priority ≡ false
      → r ≡ some (some x, granted dd x xs)
      → Policy k dd r
  linux :
      (n : ℕ) (dd' : DeadlineData)
      → gives dd ucsb_def_priority dd.ucsb_queue ≡ false
      → 0 < count n dd.fifo_list.reads + count n dd.fifo_list.writes
      → IsServed n dd dd'
      → r ≡ some (some n, dd')
      → Policy k dd r
  low :
      (x : ℕ) (xs : List ℕ)
      → dd.ucsb_queue ≡ x ∷ xs
      → gives dd ucsb_def_priority dd.ucsb_queue ≡ false
      → dd.fifo_list ≡ record { reads = []; writes = [] }
      → ltb_ℤ (priority dd x) (pos 0) ≡ false
      → r ≡ some (some x, granted dd x xs)
      → Policy k dd r
  idle :
      gives dd ucsb_def_priority dd.ucsb_queue ≡ false
      → dd.fifo_list ≡ record { reads = []; writes = [] }
      → gives dd (pos 0) dd.ucsb_queue ≡ false
      → r ≡ some (none, dd)
      → Policy k dd r

module _ (k : Kernel) (dd : DeadlineData) (v : IsValid dd) (h : All (IsQueued dd) dd.ucsb_queue)
    (empty : dd.dispatch ≡ []) where
  member_backlog :
      (n : ℕ) (d : Dir)
      → 0 < count n (at dd.fifo_list d)
      → 0 < count n dd.fifo_list.reads + count n dd.fifo_list.writes
  member_backlog n read m = omega (arith, m)
  member_backlog n write m = omega (arith, m)

  both_empty :
      dd.fifo_list.reads ≡ []
      → dd.fifo_list.writes ≡ []
      → dd.fifo_list ≡ record { reads = []; writes = [] }
  both_empty r w = λ i. record { reads = r i; writes = w i }

  -- Neither a high priority nor a request of the scheduler's own.
  after_linux :
      (xs : List ℕ)
      → dd.ucsb_queue ≡ xs
      → gives dd ucsb_def_priority dd.ucsb_queue ≡ false
      → dd.fifo_list ≡ record { reads = []; writes = [] }
      → deadline_dispatch_requests k dd ≡ some (false, dd)
      → Policy k dd (deadline_next_request k dd)
  unfolding deadline_next_request
  after_linux [] q g f e =
      let none_low : gives dd (pos 0) dd.ucsb_queue ≡ false = ap (gives dd (pos 0)) q in
      idle g f none_low (
        ground (
          arith,
          empty,
          dispatch_refused dd ucsb_def_priority h g,
          e,
          dispatch_refused dd (pos 0) h none_low,
        ))
  after_linux (x ∷ xs) q g f e =
      let hx : IsQueued dd x = (subst (All (IsQueued dd)) q h).0 in
      elim (Bool-cases (ltb_ℤ (priority dd x) (pos 0))) [
        | inl negative ↦
            let none_low : gives dd (pos 0) dd.ucsb_queue ≡ false =
              ap (gives dd (pos 0)) q ∙ ap not negative in
            idle g f none_low (
              ground (
                arith,
                empty,
                dispatch_refused dd ucsb_def_priority h g,
                e,
                dispatch_refused dd (pos 0) h none_low,
              ))
        | inr fits ↦ low x xs q g f fits (
            ground (
              arith,
              empty,
              dispatch_refused dd ucsb_def_priority h g,
              e,
              dispatch_granted dd (pos 0) x xs q hx fits,
            ))
      ]

  after_high :
      gives dd ucsb_def_priority dd.ucsb_queue ≡ false → Policy k dd (deadline_next_request k dd)
  unfolding deadline_next_request
  after_high g = elim (dispatch_requests_total k dd v) [
    | inr (dd', e, s) ↦
        let served = IsSent-IsServed k dd dd' v s in
        linux s.request dd' g (member_backlog s.request s.dir s.member) served
          (ground (arith, empty, dispatch_refused dd ucsb_def_priority h g, e, served.dispatch))
    | inl (r, w, e) ↦ after_linux dd.ucsb_queue refl g (both_empty r w) e
  ]

  -- Where the dispatch queue is empty, the lists are in order and the UCSB requests have live QoS
  -- parameters, `deadline_next_request` does not fault. It serves the head
  -- of the UCSB queue if its priority is at least UCSB_DEF_PRIORITY; else a request of the scheduler's
  -- own if there is one; else the head of the UCSB queue if its priority is not negative; and else
  -- it returns NULL and changes nothing.
  pub next_request-Policy : Policy k dd (deadline_next_request k dd)
  unfolding deadline_next_request
  next_request-Policy = go dd.ucsb_queue refl
    where
      go : (xs : List ℕ) → dd.ucsb_queue ≡ xs → Policy k dd (deadline_next_request k dd)
      go [] q = after_high (ap (gives dd ucsb_def_priority) q)
      go (x ∷ xs) q =
          let hx : IsQueued dd x = (subst (All (IsQueued dd)) q h).0 in
          elim (Bool-cases (ltb_ℤ (priority dd x) ucsb_def_priority)) [
            | inl lower ↦ after_high (ap (gives dd ucsb_def_priority) q ∙ ap not lower)
            | inr fits ↦
                high x xs q fits
                  (ground (arith, empty, dispatch_granted dd ucsb_def_priority x xs q hx fits))
          ]

below_default : (p : ℤ) → ltb_ℤ p (pos 0) ≡ true → ltb_ℤ p ucsb_def_priority ≡ true
below_default (pos n) h = ground arith
below_default (negsuc n) h = ground arith

-- A UCSB request whose priority is negative, at the head of the UCSB queue, is never served: with
-- nothing else queued `deadline_next_request` returns NULL although `deadline_queue_empty` says that
-- the queue is not empty. The UCSB requests behind the head wait too.
pub next_request_stuck :
    (k : Kernel) (dd : DeadlineData) (x : ℕ) (xs : List ℕ)
    → IsValid dd
    → All (IsQueued dd) (x ∷ xs)
    → dd.ucsb_queue ≡ x ∷ xs
    → dd.dispatch ≡ []
    → dd.fifo_list ≡ record { reads = []; writes = [] }
    → ltb_ℤ (priority dd x) (pos 0) ≡ true
    → (deadline_next_request k dd ≡ some (none, dd)) × (deadline_queue_empty dd ≡ false)
unfolding deadline_queue_empty
next_request_stuck k dd x xs v h q empty f negative = (
  elim (next_request-Policy k dd v (subst (All (IsQueued dd)) (sym q) h) empty) [
    | high y ys p fits e ↦ absurd (ground (arith, p, q, fits, below_default (priority dd x)))
    | linux n dd' g m s e ↦ absurd (ground (arith, f, m))
    | low y ys p g f' fits e ↦ absurd (ground (arith, p, q, fits, negative))
    | idle g f' g' e ↦ e
  ],
  ground (arith, q, empty, f),
)
