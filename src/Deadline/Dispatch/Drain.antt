-- ===== src/Deadline/Dispatch/Drain.antt =====
-- The barrier's loop in `deadline_insert_request` of drivers/block/deadline-iosched.c: it ends, and
-- everything sorted is then in the dispatch queue.
use ucsb_disk_profiling.Prelude.{
  ℕ, zero, suc, ◌+◌, ◌<◌, ◌≡◌, refl, sym, ap, ◌∙◌, some, List, [], ◌∷◌, ◌++◌, ◌==◌, if◌then◌else◌,
  count, count-remove, arith, length, length-remove, inl, inr,
}
use mathlib.Core.List.{append-nil, append_assoc}
use mathlib.Core.Path.{subst}
use ucsb_disk_profiling.Block.{Dir, read, write, at}
use ucsb_disk_profiling.Kernel.{Kernel}
use ucsb_disk_profiling.Deadline.State.{DeadlineData}
use ucsb_disk_profiling.Deadline.Invariant.{IsValid, tuned-IsValid}
use ucsb_disk_profiling.Deadline.Sort.{deadline_move_request}
use ucsb_disk_profiling.Deadline.Sort.Move.{IsMoved, move-IsMoved}
use ucsb_disk_profiling.Deadline.Sort.Valid.{IsMoved-IsValid}
use ucsb_disk_profiling.Deadline.Dispatch.{drain}
use ucsb_disk_profiling.Deadline.Dispatch.Total.{IsSent, dispatch_requests_total}

-- How often a request is on the fifo lists, and how many there are.
abbrev pub queued : DeadlineData → ℕ → ℕ
queued dd a = count a dd.fifo_list.reads + count a dd.fifo_list.writes

abbrev pub backlog : DeadlineData → ℕ
backlog dd = length dd.fifo_list.reads + length dd.fifo_list.writes

-- The move of `n` to the end of the dispatch queue, seen from outside.
pub record IsServed (n : ℕ) (dd dd' : DeadlineData) : Type 0 where
  pub valid : IsValid dd'
  pub dispatch : dd'.dispatch ≡ dd.dispatch ++ (n ∷ [])
  pub items : (a : ℕ) → queued dd' a + (if a == n then 1 else 0) ≡ queued dd a
  pub size : backlog dd' + 1 ≡ backlog dd
  pub ucsb : dd'.ucsb_queue ≡ dd.ucsb_queue
  pub rqs : dd'.rqs ≡ dd.rqs
  pub qos : dd'.qos ≡ dd.qos

IsMoved-IsServed :
    (n : ℕ) (d : Dir) (dd dd' : DeadlineData)
    → IsValid dd
    → 0 < count n (at dd.fifo_list d)
    → IsMoved n d dd dd'
    → IsServed n dd dd'
IsMoved-IsServed n read dd dd' v h m = record {
  valid = IsMoved-IsValid n read dd dd' v h m;
  dispatch = m.dispatch;
  items = λ a. ground (
    arith,
    ap (count a) m.fifo,
    ap (count a) m.other_fifo,
    count-remove a n dd.fifo_list.reads,
    h,
  );
  size =
      omega (arith, ap length m.fifo, ap length m.other_fifo, length-remove n dd.fifo_list.reads h);
  ucsb = ap (λ t. t.ucsb_queue) m.keeps;
  rqs = ap (λ t. t.rqs) m.keeps;
  qos = ap (λ t. t.qos) m.keeps;
}
IsMoved-IsServed n write dd dd' v h m = record {
  valid = IsMoved-IsValid n write dd dd' v h m;
  dispatch = m.dispatch;
  items = λ a. ground (
    arith,
    ap (count a) m.fifo,
    ap (count a) m.other_fifo,
    count-remove a n dd.fifo_list.writes,
    h,
  );
  size =
      omega
        (arith, ap length m.fifo, ap length m.other_fifo, length-remove n dd.fifo_list.writes h);
  ucsb = ap (λ t. t.ucsb_queue) m.keeps;
  rqs = ap (λ t. t.rqs) m.keeps;
  qos = ap (λ t. t.qos) m.keeps;
}

pub IsSent-IsServed :
    (k : Kernel) (dd dd' : DeadlineData)
    → IsValid dd
    → (s : IsSent k dd dd') → IsServed s.request dd dd'
IsSent-IsServed k dd dd' v s =
    let tuned = record dd { batching = s.before.batching; starved = s.before.starved } in
    let valid = tuned-IsValid s.before.batching s.before.starved v in
    let moved = move-IsMoved k tuned s.request s.dir valid s.member in
    let served = IsMoved-IsServed s.request s.dir tuned _ valid s.member moved in
    let there : IsServed s.request tuned dd' =
      subst (IsServed s.request tuned)
        (sym (s.moved ∙ ap (λ b. deadline_move_request k b s.request) s.retuned)) served in
    record {
      valid = there.valid;
      dispatch = there.dispatch;
      items = there.items;
      size = there.size;
      ucsb = there.ucsb;
      rqs = there.rqs;
      qos = there.qos;
    }

-- What the loop leaves behind.
pub record IsDrained (dd dd' : DeadlineData) : Type 0 where
  pub valid : IsValid dd'
  pub no_reads : dd'.fifo_list.reads ≡ []
  pub no_writes : dd'.fifo_list.writes ≡ []
  pub sent : List ℕ
  pub dispatch : dd'.dispatch ≡ dd.dispatch ++ sent
  pub items : (a : ℕ) → count a sent ≡ queued dd a
  pub ucsb : dd'.ucsb_queue ≡ dd.ucsb_queue

-- If the scheduler's lists are in order, the barrier's loop ends within one round more than there
-- are requests on the fifo lists. The lists are then empty, exactly their requests are at the end of
-- the dispatch queue, and the UCSB queue is as it was.
pub drain_total :
    (k : Kernel) (fuel : ℕ) (dd : DeadlineData)
    → IsValid dd
    → backlog dd < fuel
    → (dd' : DeadlineData) × (drain k fuel dd ≡ some dd') × IsDrained dd dd'
unfolding drain
drain_total k zero dd v h = absurd (omega arith)
drain_total k (suc fuel) dd v h = elim (dispatch_requests_total k dd v) [
  | inl (r, w, e) ↦ (
    dd,
    rw e,
    record {
      valid = v;
      no_reads = r;
      no_writes = w;
      sent = [];
      dispatch = sym (append-nil dd.dispatch);
      items = λ a. omega (arith, ap (count a) r, ap (count a) w);
      ucsb = refl;
    },
  )
  | inr (mid, e, s) ↦
      let served = IsSent-IsServed k dd mid v s in
      let (dd', e', d) = drain_total k fuel mid served.valid (omega (arith, served.size)) in
      (
        dd',
        rw e e',
        record {
          valid = d.valid;
          no_reads = d.no_reads;
          no_writes = d.no_writes;
          sent = s.request ∷ d.sent;
          dispatch =
              d.dispatch
              ∙ ap (λ q. q ++ d.sent) served.dispatch
              ∙ append_assoc dd.dispatch (s.request ∷ []) d.sent;
          items = λ a. omega (arith, d.items a, served.items a);
          ucsb = d.ucsb ∙ served.ucsb;
        },
      )
]
