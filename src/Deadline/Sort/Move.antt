-- ===== src/Deadline/Sort/Move.antt =====
-- `deadline_move_request` of drivers/block/deadline-iosched.c takes one request off the scheduler's
-- lists, and puts it at the end of the dispatch queue.
use ucsb_disk_profiling.Prelude.{
  ℕ, ◌+◌, ◌<◌, ◌%◌, ◌≡◌, ◌≢◌, refl, none, [], ◌∷◌, ◌++◌, count, remove, remove-absent, after, arith,
}
use ucsb_disk_profiling.Block.{Dir, read, write, Both, at, put, ulong_mod}
use ucsb_disk_profiling.Kernel.{Kernel, inorder}
use ucsb_disk_profiling.Deadline.State.{DeadlineData, rb_key_of}
use ucsb_disk_profiling.Deadline.Hash.{deadline_del_drq_hash, unhash_drq}
use ucsb_disk_profiling.Deadline.Invariant.{IsSorted, IsValid}
use ucsb_disk_profiling.Deadline.Sort.{
  deadline_del_drq_rb, deadline_remove_request, deadline_move_to_dispatch, deadline_move_request,
}

abbrev pub other : Dir → Dir
other read = write
other write = read

-- A direction is one of two.
pub other-cases {ℓ} : (P : Dir → Type ℓ) (d : Dir) → P d → P (other d) → (e : Dir) → P e
other-cases P read p q read = p
other-cases P read p q write = q
other-cases P write p q read = q
other-cases P write p q write = p

pub at-put-other {ℓ} :
    {A : Type ℓ} (b : Both A) (d : Dir) (a : A) → at (put b d a) (other d) ≡ at b (other d)
at-put-other b read a = refl
at-put-other b write a = refl

-- What a move of `n`, of direction `d`, changes.
pub record IsMoved (n : ℕ) (d : Dir) (dd dd' : DeadlineData) : Type 0 where
  pub tree : inorder (at dd'.sort_list d) ≡ remove n (inorder (at dd.sort_list d))
  pub other_tree : at dd'.sort_list (other d) ≡ at dd.sort_list (other d)
  pub fifo : at dd'.fifo_list d ≡ remove n (at dd.fifo_list d)
  pub other_fifo : at dd'.fifo_list (other d) ≡ at dd.fifo_list (other d)
  pub next : at dd'.next_drq d ≡ after n (inorder (at dd.sort_list d))
  pub other_next : at dd'.next_drq (other d) ≡ none
  pub dispatch : dd'.dispatch ≡ dd.dispatch ++ (n ∷ [])
  pub last_sector : dd'.last_sector ≡ ((dd.rqs n).sector + (dd.rqs n).nr_sectors) % ulong_mod
  pub drqs : (a : ℕ) → a ≢ n → dd'.drqs a ≡ dd.drqs a
  pub keys : (a : ℕ) → rb_key_of dd' a ≡ rb_key_of dd a
  pub keeps : dd' ≡ record dd {
    sort_list = dd'.sort_list;
    fifo_list = dd'.fifo_list;
    next_drq = dd'.next_drq;
    dispatch = dd'.dispatch;
    hash = dd'.hash;
    last_sector = dd'.last_sector;
    last_merge = dd'.last_merge;
    drqs = dd'.drqs;
  }

-- A request of one direction is not on the other's list.
pub absent_other :
    (dd : DeadlineData) (n : ℕ) (d : Dir)
    → IsValid dd
    → 0 < count n (at dd.fifo_list d)
    → count n (at dd.fifo_list (other d)) ≡ 0
absent_other dd n read v h = grind (arith, v.reads.owned n h, v.writes.owned n)
absent_other dd n write v h = grind (arith, v.writes.owned n h, v.reads.owned n)

module _ (k : Kernel) (dd : DeadlineData) (n : ℕ) where
  pub move-IsMoved :
      (d : Dir)
      → IsValid dd
      → 0 < count n (at dd.fifo_list d)
      → IsMoved n d dd (deadline_move_request k dd n)
  unfolding deadline_move_request deadline_move_to_dispatch deadline_remove_request
      deadline_del_drq_rb deadline_del_drq_hash unhash_drq
  move-IsMoved read v h =
      let s : IsSorted dd read n = v.reads.owned n h in
      let here : 0 < count n (inorder dd.sort_list.reads) = omega (arith, v.reads.same n) in
      let absent : count n dd.fifo_list.writes ≡ 0 = absent_other dd n read v h in
      record {
        tree = ground (arith, s, k.inorder-rb_erase n dd.sort_list.reads here);
        other_tree = ground (arith, s);
        fifo = ground (arith, s);
        other_fifo = ground (arith, s, remove-absent n dd.fifo_list.writes absent);
        next = ground (arith, s, k.rb_next-after n dd.sort_list.reads here);
        other_next = ground (arith, s);
        dispatch = ground (arith, s, remove-absent n dd.dispatch s.not_dispatched);
        last_sector = ground (arith, s);
        drqs = λ a ne. ground (arith, s);
        keys = λ a. ground (arith, s);
        keeps = ground (arith, s, remove-absent n dd.ucsb_queue s.not_ucsb);
      }
  move-IsMoved write v h =
      let s : IsSorted dd write n = v.writes.owned n h in
      let here : 0 < count n (inorder dd.sort_list.writes) = omega (arith, v.writes.same n) in
      let absent : count n dd.fifo_list.reads ≡ 0 = absent_other dd n write v h in
      record {
        tree = ground (arith, s, k.inorder-rb_erase n dd.sort_list.writes here);
        other_tree = ground (arith, s);
        fifo = ground (arith, s);
        other_fifo = ground (arith, s, remove-absent n dd.fifo_list.reads absent);
        next = ground (arith, s, k.rb_next-after n dd.sort_list.writes here);
        other_next = ground (arith, s);
        dispatch = ground (arith, s, remove-absent n dd.dispatch s.not_dispatched);
        last_sector = ground (arith, s);
        drqs = λ a ne. ground (arith, s);
        keys = λ a. ground (arith, s);
        keeps = ground (arith, s, remove-absent n dd.ucsb_queue s.not_ucsb);
      }
