-- ===== src/Deadline/Sort/Valid.antt =====
-- A move to the dispatch queue keeps the scheduler's lists in order.
use ucsb_disk_profiling.Prelude.{
  ℕ, ◌<◌, ◌≤◌, ◌≡◌, ◌≢◌, sym, ap, ◌∙◌, [], ◌∷◌, count, count-append, count-remove, count-le_one,
  after-greater, Ascending-cong, remove-Ascending, arith,
}
use ucsb_disk_profiling.Block.{Dir, at}
use ucsb_disk_profiling.Kernel.{Kernel, inorder}
use ucsb_disk_profiling.Deadline.State.{DeadlineData, rb_key_of}
use ucsb_disk_profiling.Deadline.Invariant.{IsSorted, IsLinked, IsValid, IsLinked-at, IsValid-of}
use ucsb_disk_profiling.Deadline.Sort.{deadline_move_request}
use ucsb_disk_profiling.Deadline.Sort.Move.{other, other-cases, IsMoved, move-IsMoved, absent_other}

-- The conditions on one request carry over to a state that agrees on it.
pub IsSorted-carry :
    (dd dd' : DeadlineData) (d : Dir) (a : ℕ)
    → dd'.rqs a ≡ dd.rqs a
    → dd'.drqs a ≡ dd.drqs a
    → dd'.has_drq a ≡ dd.has_drq a
    → count a dd'.dispatch ≡ 0
    → count a dd'.ucsb_queue ≡ 0
    → IsSorted dd d a
    → IsSorted dd' d a
IsSorted-carry dd dd' d a r q p x y s = record {
  dir = ap (λ t. t.dir) r ∙ s.dir;
  on_rb = ap (λ t. t.on_rb) q ∙ s.on_rb;
  no_flag = ap (λ t. t.ucsb_flag) q ∙ s.no_flag;
  has_drq = p ∙ s.has_drq;
  key = ap (λ t. t.rb_key) q ∙ s.key ∙ sym (ap (λ t. t.sector) r);
  not_dispatched = x;
  not_ucsb = y;
}

module _ (n : ℕ) (d : Dir) (dd dd' : DeadlineData) (v : IsValid dd)
    (h : 0 < count n (at dd.fifo_list d)) (m : IsMoved n d dd dd') where
  once : (a : ℕ) → count a (at dd.fifo_list d) ≤ 1
  once a = omega (
    arith,
    (IsLinked-at v d).same a,
    count-le_one (rb_key_of dd) 0 a (inorder (at dd.sort_list d)) (IsLinked-at v d).sorted,
  )

  carry : (e : Dir) (a : ℕ) → a ≢ n → IsSorted dd e a → IsSorted dd' e a
  carry e a ne s =
      IsSorted-carry dd dd' e a (ap (λ t. t.rqs a) m.keeps) (m.drqs a ne)
        (ap (λ t. t.has_drq a) m.keeps)
        (rw m.dispatch (ground (arith, count-append a dd.dispatch (n ∷ []), s.not_dispatched)))
        (ap (λ t. count a t.ucsb_queue) m.keeps ∙ s.not_ucsb) s

  left_in : (a : ℕ) → 0 < count a (at dd'.fifo_list d) → (a ≢ n) × (0 < count a (at dd.fifo_list d))
  left_in a p = grind (arith, ap (count a) m.fifo, count-remove a n (at dd.fifo_list d), once a)

  moved-IsLinked : IsLinked dd' d
  moved-IsLinked = record {
    sorted = rw m.tree (
        Ascending-cong (rb_key_of dd) (rb_key_of dd') 0 _ (λ a _. sym (m.keys a))
          (remove-Ascending (rb_key_of dd) 0 n _ (IsLinked-at v d).sorted));
    same = λ a. ground (
      arith,
      ap (count a) m.tree,
      ap (count a) m.fifo,
      count-remove a n (inorder (at dd.sort_list d)),
      count-remove a n (at dd.fifo_list d),
      (IsLinked-at v d).same a,
    );
    owned = λ a p. carry d a (left_in a p).0 ((IsLinked-at v d).owned a (left_in a p).1);
    next = λ a e. ground (
      arith,
      m.next,
      e,
      after-greater (rb_key_of dd) 0 n a (inorder (at dd.sort_list d)) (IsLinked-at v d).sorted,
      ap (count a) m.fifo,
      count-remove a n (at dd.fifo_list d),
      (IsLinked-at v d).same a,
    );
  }

  other-IsLinked : IsLinked dd' (other d)
  other-IsLinked = record {
    sorted = rw m.other_tree (
        Ascending-cong (rb_key_of dd) (rb_key_of dd') 0 _ (λ a _. sym (m.keys a))
          (IsLinked-at v (other d)).sorted);
    same = λ a. rw (m.other_tree, m.other_fifo) ((IsLinked-at v (other d)).same a);
    owned = λ a p.
        let old : 0 < count a (at dd.fifo_list (other d)) =
          omega (arith, p, ap (count a) m.other_fifo) in
        carry (other d) a
          (λ e.
            omega (
              arith,
              old,
              absent_other dd n d v h,
              ap (λ b. count b (at dd.fifo_list (other d))) e,
            ))
          ((IsLinked-at v (other d)).owned a old);
    next = λ a e. absurd (cc (m.other_next));
  }

  pub IsMoved-IsValid : IsValid dd'
  IsMoved-IsValid = IsValid-of (other-cases (IsLinked dd') d moved-IsLinked other-IsLinked)

-- If the scheduler's lists are in order, `deadline_move_request` of a request on them leaves them
-- in order.
pub move-IsValid :
    (k : Kernel) (dd : DeadlineData) (n : ℕ) (d : Dir)
    → IsValid dd
    → 0 < count n (at dd.fifo_list d)
    → IsValid (deadline_move_request k dd n)
move-IsValid k dd n d v h =
    IsMoved-IsValid n d dd (deadline_move_request k dd n) v h (move-IsMoved k dd n d v h)
