-- ===== src/Deadline/Ucsb/Dispatch.antt =====
-- `ucsb_io_dispatch_request` of drivers/block/deadline-iosched.c: what leaves the UCSB queue.
use ucsb_disk_profiling.Prelude.{
  ℕ, ◌+◌, ◌-◌, ◌%◌, ◌≡◌, refl, some, Bool, true, false, List, [], ◌∷◌, ◌++◌, ℤ, ltb_ℤ,
  if◌then◌else◌, All, arith, Bool-cases, inl, inr, length, not, ap, sym, ◌∙◌,
}
use mathlib.Core.List.{append_assoc}
use ucsb_disk_profiling.Block.{uint_mod}
use ucsb_disk_profiling.Deadline.State.{DeadlineData}
use ucsb_disk_profiling.Deadline.Ucsb.{dispatch_head, ucsb_io_dispatch_request}
use ucsb_disk_profiling.Deadline.Ucsb.Insertion.{priority, IsQueued}

-- The head's priority decides whether the queue gives a request.
abbrev pub gives : DeadlineData → ℤ → List ℕ → Bool
gives dd threshold [] = false
gives dd threshold (x ∷ xs) = not (ltb_ℤ (priority dd x) threshold)

-- What a call does: the dispatch queue followed by the UCSB queue is the same sequence, the counter
-- still is the length of the UCSB queue, and as many requests as the flag says are sent.
pub record IsDispatched (dd : DeadlineData) (sent : Bool) (dd' : DeadlineData) : Type 0 where
  pub moved : dd'.dispatch ++ dd'.ucsb_queue ≡ dd.dispatch ++ dd.ucsb_queue
  pub counts :
      dd.ucsb_cnt ≡ length dd.ucsb_queue % uint_mod
      → dd'.ucsb_cnt ≡ length dd'.ucsb_queue % uint_mod
  pub sends : length dd.ucsb_queue ≡ length dd'.ucsb_queue + (if sent then 1 else 0)
  pub keeps :
      dd'
      ≡ record dd { ucsb_queue = dd'.ucsb_queue; ucsb_cnt = dd'.ucsb_cnt; dispatch = dd'.dispatch }

-- If the head of the UCSB queue has live QoS parameters, `ucsb_io_dispatch_request` does not fault.
-- It sends the head to the end of the dispatch queue exactly when its priority is not below the
-- given one, and returns whether it did.
pub dispatch-IsDispatched :
    (dd : DeadlineData) (threshold : ℤ)
    → All (IsQueued dd) dd.ucsb_queue
    → (dd' : DeadlineData) × (ucsb_io_dispatch_request dd threshold
        ≡ some (gives dd threshold dd.ucsb_queue, dd'))
      × IsDispatched dd (gives dd threshold dd.ucsb_queue) dd'
unfolding ucsb_io_dispatch_request
dispatch-IsDispatched dd threshold = go dd.ucsb_queue refl
  where
    go :
        (xs : List ℕ)
        → dd.ucsb_queue ≡ xs
        → All (IsQueued dd) xs
        → (dd' : DeadlineData) × (dispatch_head dd threshold xs ≡ some (gives dd threshold xs, dd'))
          × IsDispatched dd (gives dd threshold xs) dd'
    go [] e h =
        (dd, refl, record { moved = refl; counts = λ c. c; sends = omega arith; keeps = refl })
    go (x ∷ xs) e h = elim (Bool-cases (ltb_ℤ (priority dd x) threshold)) [
      | inl low ↦ (
        dd,
        rw (h.0.has_priority, low),
        rw low (record { moved = refl; counts = λ c. c; sends = omega arith; keeps = refl }),
      )
      | inr high ↦ (
        record dd {
          ucsb_queue = xs;
          ucsb_cnt = (dd.ucsb_cnt + uint_mod - 1) % uint_mod;
          dispatch = dd.dispatch ++ (x ∷ []);
        },
        rw (h.0.has_priority, high),
        rw high (record {
          moved = append_assoc dd.dispatch (x ∷ []) xs ∙ ap (λ q. dd.dispatch ++ q) (sym e);
          counts = λ c. omega (arith, ap length e, c);
          sends = omega (arith, ap length e);
          keeps = refl;
        }),
      )
    ]

-- A refusal changes nothing.
pub dispatch_refused :
    (dd : DeadlineData) (threshold : ℤ)
    → All (IsQueued dd) dd.ucsb_queue
    → gives dd threshold dd.ucsb_queue ≡ false
    → ucsb_io_dispatch_request dd threshold ≡ some (false, dd)
unfolding ucsb_io_dispatch_request
dispatch_refused dd threshold = go dd.ucsb_queue
  where
    go :
        (xs : List ℕ)
        → All (IsQueued dd) xs
        → gives dd threshold xs ≡ false
        → dispatch_head dd threshold xs ≡ some (false, dd)
    go [] h g = refl
    go (x ∷ xs) h g = elim (Bool-cases (ltb_ℤ (priority dd x) threshold)) [
      | inl low ↦ rw (h.0.has_priority, low)
      | inr high ↦ absurd (cc (ap not high))
    ]

-- What a grant leaves.
pub dispatch_granted :
    (dd : DeadlineData) (threshold : ℤ) (x : ℕ) (xs : List ℕ)
    → dd.ucsb_queue ≡ x ∷ xs
    → IsQueued dd x
    → ltb_ℤ (priority dd x) threshold ≡ false
    → ucsb_io_dispatch_request dd threshold
      ≡ some (
        true,
        record dd {
          ucsb_queue = xs;
          ucsb_cnt = (dd.ucsb_cnt + uint_mod - 1) % uint_mod;
          dispatch = dd.dispatch ++ (x ∷ []);
        },
      )
unfolding ucsb_io_dispatch_request
dispatch_granted dd threshold x xs e h high =
    ap (dispatch_head dd threshold) e ∙ rw (h.has_priority, high)
