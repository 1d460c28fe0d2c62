-- ===== src/Deadline/Dispatch/Total.antt =====
-- `deadline_dispatch_requests` of drivers/block/deadline-iosched.c neither faults nor stalls.
use ucsb_disk_profiling.Prelude.{
  ℕ, ◌+◌, ◌<◌, ◌%◌, ◌≡◌, refl, sym, ap, ◌∙◌, none, some, true, false, List, [], ◌∷◌, ◌++◌, ◌==◌,
  leb, ltb, if◌then◌else◌, count, arith, Bool-cases, Option-cases, ◌⊎◌, inl, inr,
}
use ucsb_disk_profiling.Block.{Dir, read, write, at, uint_mod}
use ucsb_disk_profiling.Kernel.{Kernel, Tree, leaf, node, inorder}
use ucsb_disk_profiling.Deadline.State.{DeadlineData}
use ucsb_disk_profiling.Deadline.Invariant.{IsValid, IsLinked-at, tuned-IsValid}
use ucsb_disk_profiling.Deadline.Sort.{find_first, deadline_find_first_drq, deadline_move_request}
use ucsb_disk_profiling.Deadline.Dispatch.{
  head_entry, rb_empty, deadline_check_fifo, dispatch_request, dispatch_find_request,
  dispatch_writes, select_direction, batch_request, deadline_dispatch_requests,
}

-- One request of the lists was moved, after changes to the two scheduling counters only.
pub record IsSent (k : Kernel) (dd dd' : DeadlineData) : Type 0 where
  pub request : ℕ
  pub dir : Dir
  pub before : DeadlineData
  pub retuned : before ≡ record dd { batching = before.batching; starved = before.starved }
  pub member : 0 < count request (at dd.fifo_list dir)
  pub moved : dd' ≡ deadline_move_request k before request

head_entry-append :
    (xs ys zs : List ℕ) (c : ℕ) → head_entry ((xs ++ (c ∷ ys)) ++ zs) ≡ head_entry (xs ++ (c ∷ ys))
head_entry-append [] ys zs c = refl
head_entry-append (x ∷ xs) ys zs c = refl

-- The leftmost node is the first in order.
find_first-inorder : (t : Tree) → find_first t ≡ head_entry (inorder t)
unfolding find_first
find_first-inorder leaf = refl
find_first-inorder (node leaf d r) = refl
find_first-inorder (node (node l c m) d r) =
    find_first-inorder (node l c m)
    ∙ sym (head_entry-append (inorder l) (inorder m) (d ∷ inorder r) c)

-- A list that holds something has a first element.
has_head : (n : ℕ) (xs : List ℕ) → 0 < count n xs → (y : ℕ) × (ys : List ℕ) × (xs ≡ y ∷ ys)
has_head n [] h = absurd (omega arith)
has_head n (y ∷ ys) h = (y, ys, refl)

module _ (k : Kernel) (dd : DeadlineData) (v : IsValid dd) where
  first_in_tree :
      (d : Dir) (x : ℕ)
      → 0 < count x (at dd.fifo_list d)
      → (y : ℕ) × (deadline_find_first_drq dd d ≡ some y) × (0 < count y (at dd.fifo_list d))
  unfolding deadline_find_first_drq
  first_in_tree d x h =
      let (y, ys, e) =
        has_head x (inorder (at dd.sort_list d)) (omega (arith, (IsLinked-at v d).same x)) in
      (
        y,
        find_first-inorder (at dd.sort_list d) ∙ ap head_entry e,
        ground (arith, ap (count y) e, (IsLinked-at v d).same y),
      )

  -- Where a direction has requests, one of them is found and moved.
  pub find_total :
      (d : Dir) (x : ℕ) (xs : List ℕ)
      → at dd.fifo_list d ≡ x ∷ xs
      → (dd' : DeadlineData) × (dispatch_find_request k dd d ≡ some dd')
        × (s : IsSent k dd dd') × (s.dir ≡ d)
  unfolding dispatch_find_request deadline_check_fifo dispatch_request
  find_total d x xs e = elim (Bool-cases (k.time_after dd.jiffies (dd.drqs x).expires)) [
    | inl late ↦ (
      deadline_move_request k (record dd { batching = (0 + 1) % uint_mod }) x,
      rw (e, dispatch_find_request, late),
      record {
        request = x;
        dir = d;
        before = record dd { batching = (0 + 1) % uint_mod };
        retuned = refl;
        member = ground (arith, ap (count x) e);
        moved = refl;
      },
      refl,
    )
    | inr fine ↦ (elim (Option-cases (at dd.next_drq d)) [
      | inl last ↦
          let (y, first, m) = first_in_tree d x (ground (arith, ap (count x) e)) in
          (
            deadline_move_request k (record dd { batching = (0 + 1) % uint_mod }) y,
            rw (e, dispatch_find_request, fine, last, first),
            record {
              request = y;
              dir = d;
              before = record dd { batching = (0 + 1) % uint_mod };
              retuned = refl;
              member = m;
              moved = refl;
            },
            refl,
          )
      | inr (y, going) ↦ (
        deadline_move_request k (record dd { batching = (dd.batching + 1) % uint_mod }) y,
        rw (e, dispatch_find_request, fine, going),
        record {
          request = y;
          dir = d;
          before = record dd { batching = (dd.batching + 1) % uint_mod };
          retuned = refl;
          member = (IsLinked-at v d).next y going;
          moved = refl;
        },
        refl,
      )
    ])
  ]

pub rb_empty-inorder : (t : Tree) (x : ℕ) → 0 < count x (inorder t) → rb_empty t ≡ false
rb_empty-inorder leaf x h = absurd (omega arith)
rb_empty-inorder (node l d r) x h = refl

IsSent-tuned :
    (k : Kernel) (dd dd' : DeadlineData) (b s : ℕ)
    → IsSent k (record dd { batching = b; starved = s }) dd'
    → IsSent k dd dd'
IsSent-tuned k dd dd' b s p = record {
  request = p.request;
  dir = p.dir;
  before = p.before;
  retuned = p.retuned;
  member = p.member;
  moved = p.moved;
}

module _ (k : Kernel) where
  writes_total :
      (dd : DeadlineData) (x : ℕ) (xs : List ℕ)
      → IsValid dd
      → dd.fifo_list.writes ≡ x ∷ xs
      → (dd' : DeadlineData) × (dispatch_writes k dd ≡ some dd') × IsSent k dd dd'
  unfolding dispatch_writes
  writes_total dd x xs v e =
      let (dd', found, sent, from) =
        find_total k (record dd { starved = 0 }) (tuned-IsValid dd.batching 0 v) write x xs e in
      let there : 0 < count x (inorder dd.sort_list.writes) =
        ground (arith, ap (count x) e, v.writes.same x) in
      (
        dd',
        rw (rb_empty-inorder dd.sort_list.writes x there) found,
        IsSent-tuned k dd dd' dd.batching 0 sent,
      )

  select_total :
      (dd : DeadlineData) (xs ys : List ℕ)
      → IsValid dd
      → dd.fifo_list.reads ≡ xs
      → dd.fifo_list.writes ≡ ys
      → ((xs ≡ []) × (ys ≡ []) × (select_direction k dd ≡ some (false, dd)))
        ⊎ ((dd' : DeadlineData) × (select_direction k dd ≡ some (true, dd')) × IsSent k dd dd')
  unfolding select_direction
  select_total dd [] [] v r w = inl (refl, refl, rw (r, w, select_direction))
  select_total dd [] (y ∷ ys) v r w =
      let (dd', e, s) = writes_total dd y ys v w in inr (dd', ground (arith, r, w, e), s)
  select_total dd (x ∷ xs) [] v r w =
      let (dd', e, s, from) = find_total k dd v read x xs r in
      let there : 0 < count x (inorder dd.sort_list.reads) =
        ground (arith, ap (count x) r, v.reads.same x) in
      inr (dd', ground (arith, r, w, rb_empty-inorder dd.sort_list.reads x there, e), s)
  select_total dd (x ∷ xs) (y ∷ ys) v r w =
      let tried = record dd { starved = (dd.starved + 1) % uint_mod } in
      let tried_v = tuned-IsValid dd.batching ((dd.starved + 1) % uint_mod) v in
      let there : 0 < count x (inorder dd.sort_list.reads) =
        ground (arith, ap (count x) r, v.reads.same x) in
      let full = rb_empty-inorder dd.sort_list.reads x there in
      elim (Bool-cases (leb dd.writes_starved dd.starved)) [
        | inl starving ↦
            let (dd', e, s) = writes_total tried y ys tried_v w in
            inr (
              dd',
              ground (arith, r, w, full, starving, e),
              IsSent-tuned k dd dd' dd.batching ((dd.starved + 1) % uint_mod) s,
            )
        | inr patient ↦
            let (dd', e, s, from) = find_total k tried tried_v read x xs r in
            inr (
              dd',
              ground (arith, r, w, full, patient, e),
              IsSent-tuned k dd dd' dd.batching ((dd.starved + 1) % uint_mod) s,
            )
      ]

  -- A request that continues a batch is on a list.
  batch_member :
      (dd : DeadlineData) (a : ℕ)
      → IsValid dd
      → batch_request dd ≡ some a
      → (d : Dir) × (0 < count a (at dd.fifo_list d))
  batch_member dd a v e = elim (Option-cases dd.next_drq.writes) [
    | inl w ↦ (read, v.reads.next a (ground (arith, w)))
    | inr (b, w) ↦ (write, v.writes.next a (ground (arith, w)))
  ]

  -- The batch goes on with `a`, or a direction is chosen anew.
  continue_total :
      (dd : DeadlineData) (b a : ℕ) (d : Dir)
      → IsValid dd
      → 0 < count a (at dd.fifo_list d)
      → let charged = record dd { batching = b; starved = dd.starved } in
        (dd' : DeadlineData) × ((if ltb b dd.fifo_batch
            then some (true, dispatch_request k charged a)
            else select_direction k charged)
          ≡ some (true, dd'))
        × IsSent k dd dd'
  unfolding dispatch_request
  continue_total dd b a d v m =
      let charged = record dd { batching = b; starved = dd.starved } in
      elim (Bool-cases (ltb b dd.fifo_batch)) [
        | inl more ↦ (
          deadline_move_request k (record charged { batching = (b + 1) % uint_mod }) a,
          rw more,
          record {
            request = a;
            dir = d;
            before = record charged { batching = (b + 1) % uint_mod };
            retuned = refl;
            member = m;
            moved = refl;
          },
        )
        | inr over ↦
            (elim (select_total charged dd.fifo_list.reads dd.fifo_list.writes
              (tuned-IsValid b dd.starved v) refl refl) [
                | inl (r, w, _) ↦ absurd (none_left d r w m)
                | inr (dd', e, s) ↦ (dd', rw over e, IsSent-tuned k dd dd' b dd.starved s)
              ])
      ]
    where
      none_left :
          (d : Dir)
          → dd.fifo_list.reads ≡ []
          → dd.fifo_list.writes ≡ []
          → 0 < count a (at dd.fifo_list d)
          → ⊥
      none_left read r w m = omega (arith, m, ap (count a) r)
      none_left write r w m = omega (arith, m, ap (count a) w)

  -- If the scheduler's lists are in order, `deadline_dispatch_requests` does not fault. It returns 0
  -- and changes nothing if both fifo lists are empty. Otherwise it returns 1 and moves one request
  -- of the lists to the dispatch queue, after changes to `batching` and `starved` only.
  pub dispatch_requests_total :
      (dd : DeadlineData)
      → IsValid dd
      → ((dd.fifo_list.reads ≡ [])
          × (dd.fifo_list.writes ≡ [])
          × (deadline_dispatch_requests k dd ≡ some (false, dd)))
        ⊎ ((dd' : DeadlineData) × (deadline_dispatch_requests k dd ≡ some (true, dd'))
            × IsSent k dd dd')
  unfolding deadline_dispatch_requests
  dispatch_requests_total dd v = elim (Option-cases (batch_request dd)) [
    | inl idle ↦ (elim (select_total dd dd.fifo_list.reads dd.fifo_list.writes v refl refl) [
      | inl (r, w, e) ↦ inl (r, w, unbatched idle ∙ e)
      | inr (dd', e, s) ↦ inr (dd', unbatched idle ∙ e, s)
    ])
    | inr (a, going) ↦
        let (d, m) = batch_member dd a v going in
        (elim (Bool-cases (dd.last_sector == (dd.rqs a).sector)) [
          | inl near ↦
              let (dd', e, s) = continue_total dd dd.batching a d v m in
              inr (dd', ground (arith, going, near, e), s)
          | inr far ↦
              let (dd', e, s) =
                continue_total dd ((dd.batching + dd.fifo_batch) % uint_mod) a d v m in
              inr (dd', ground (arith, going, far, e), s)
        ])
  ]
    where
      unbatched : batch_request dd ≡ none → deadline_dispatch_requests k dd ≡ select_direction k dd
      unbatched idle = ground (arith, idle)
