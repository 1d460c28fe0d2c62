-- ===== src/Deadline/Sort/Request.antt =====
-- `deadline_add_request` of drivers/block/deadline-iosched.c as a whole.
use mathlib.Core.Path.{subst}
use ucsb_disk_profiling.Prelude.{
  ℕ, ◌+◌, ◌<◌, ◌≡◌, ◌≢◌, refl, sym, ap, ◌∙◌, some, true, [], ◌∷◌, ◌++◌, ◌==◌, ==_refl,
  if◌then◌else◌, ◌%◌, count, count-append, count-remove, arith, ◌⊎◌, inl, inr,
}
use ucsb_disk_profiling.Block.{Dir, read, write, at, put, at-put_self, ulong_mod}
use ucsb_disk_profiling.Kernel.{Kernel}
use ucsb_disk_profiling.Deadline.State.{DeadlineData, dir_of, set_drq, set_tree}
use ucsb_disk_profiling.Deadline.Invariant.{IsLinked, IsValid, IsLinked-at, IsValid-of}
use ucsb_disk_profiling.Deadline.Sort.{
  deadline_add_drq_rb, deadline_add_request, deadline_move_request,
}
use ucsb_disk_profiling.Deadline.Sort.Move.{IsMoved, move-IsMoved}
use ucsb_disk_profiling.Deadline.Sort.Valid.{IsSorted-carry}
use ucsb_disk_profiling.Deadline.Sort.Enter.{
  IsFresh, IsEntering, IsLinked-carry, not_queued, to_fifo, entered, entered-IsValid, retry_total,
}

-- How often a request is on the fifo lists or the dispatch queue.
abbrev pub held : DeadlineData → ℕ → ℕ
held dd a = count a dd.fifo_list.reads + count a dd.fifo_list.writes + count a dd.dispatch

-- What the addition of `n` does.
pub record IsAdded (n : ℕ) (dd dd' : DeadlineData) : Type 0 where
  pub valid : IsValid dd'
  pub items : (a : ℕ) → held dd' a ≡ held dd a + (if a == n then 1 else 0)
  pub enters : 0 < count n (at dd'.fifo_list (dir_of dd n))
  pub dispatch :
      (dd'.dispatch ≡ dd.dispatch)
      ⊎ ((a : ℕ) × ((dd.rqs a).sector ≡ (dd.rqs n).sector)
          × (dd'.dispatch ≡ dd.dispatch ++ (a ∷ [])))

-- `drq->rb_key = rq_rb_key(drq->request)`
abbrev keyed : DeadlineData → ℕ → DeadlineData
keyed dd n = set_drq dd n (record (dd.drqs n) { rb_key = (dd.rqs n).sector })

module _ (dd : DeadlineData) (n : ℕ) (v : IsValid dd) (f : IsFresh dd n) where
  not_n : (d : Dir) (a : ℕ) → 0 < count a (at dd.fifo_list d) → a ≢ n
  not_n d a m e = omega (arith, m, not_queued f d, ap (λ b. count b (at dd.fifo_list d)) e)

  keyed-IsLinked : (d : Dir) → IsLinked (keyed dd n) d
  keyed-IsLinked d =
      IsLinked-carry dd (keyed dd n) d refl refl refl
        (λ a m.
          let s = (IsLinked-at v d).owned a m in
          (
            IsSorted-carry dd (keyed dd n) d a refl (ground (arith, not_n d a m)) refl
                s.not_dispatched s.not_ucsb s,
            ground (arith, not_n d a m),
          ))
        (IsLinked-at v d)

  keyed-IsFresh : IsFresh (keyed dd n) n
  keyed-IsFresh = record {
    has_drq = f.has_drq;
    no_flag = ground (arith, f.no_flag);
    not_read = f.not_read;
    not_written = f.not_written;
    not_dispatched = f.not_dispatched;
    not_ucsb = f.not_ucsb;
  }

moved-held :
    (a n : ℕ) (d : Dir) (dd dd' : DeadlineData)
    → 0 < count n (at dd.fifo_list d)
    → IsMoved n d dd dd'
    → held dd' a ≡ held dd a
moved-held a n read dd dd' h m = ground (
  arith,
  h,
  ap (count a) m.fifo,
  ap (count a) m.other_fifo,
  ap (count a) m.dispatch,
  count-append a dd.dispatch (n ∷ []),
  count-remove a n dd.fifo_list.reads,
)
moved-held a n write dd dd' h m = ground (
  arith,
  h,
  ap (count a) m.fifo,
  ap (count a) m.other_fifo,
  ap (count a) m.dispatch,
  count-append a dd.dispatch (n ∷ []),
  count-remove a n dd.fifo_list.writes,
)

put-held :
    (dd : DeadlineData) (d : Dir) (n a : ℕ)
    → let fifo = put dd.fifo_list d (at dd.fifo_list d ++ (n ∷ [])) in
      count a fifo.reads + count a fifo.writes + count a dd.dispatch
      ≡ held dd a + (if a == n then 1 else 0)
put-held dd read n a = omega (arith, count-append a dd.fifo_list.reads (n ∷ []))
put-held dd write n a = omega (arith, count-append a dd.fifo_list.writes (n ∷ []))

-- The state that `deadline_add_request` leaves, from the one in which the descent ends.
result_state :
    (k : Kernel) (dd : DeadlineData) (n : ℕ)
    → (e : IsEntering k n (keyed dd n) (deadline_add_drq_rb k dd n))
    → deadline_add_request k dd n
      ≡ some (
          entered e.mid n
            (dir_of e.mid n)
            (k.rb_insert_color n e.tree)
            ((dd.jiffies + at dd.fifo_expire (dir_of dd n)) % ulong_mod))
unfolding deadline_add_request
result_state k dd n e =
    let mid = e.mid in
    let link =
      set_drq (set_tree mid (dir_of mid n) (k.rb_insert_color n e.tree)) n
        (record (mid.drqs n) { on_rb = true }) in
    rw (e.result) (
      ap (λ d. some (to_fifo link n d ((dd.jiffies + at dd.fifo_expire (dir_of dd n)) % ulong_mod)))
        (sym (ap (λ u. (u n).dir) e.rqs)))

entering_held :
    (k : Kernel) (dd mid : DeadlineData) (n a : ℕ)
    → IsValid dd
    → (mid ≡ dd)
      ⊎ ((b : ℕ) × (0 < count b (at dd.fifo_list (dir_of dd n)))
          × ((dd.rqs b).sector ≡ (dd.rqs n).sector)
          × (mid ≡ deadline_move_request k dd b))
    → held mid a ≡ held dd a
entering_held k dd mid n a v (inl e) = ap (λ u. held u a) e
entering_held k dd mid n a v (inr (b, h, s, e)) =
    ap (λ u. held u a) e
    ∙ moved-held a b (dir_of dd n) dd (deadline_move_request k dd b) h
        (move-IsMoved k dd b (dir_of dd n) v h)

entering_dispatch :
    (k : Kernel) (dd mid : DeadlineData) (n : ℕ)
    → IsValid dd
    → (mid ≡ dd)
      ⊎ ((b : ℕ) × (0 < count b (at dd.fifo_list (dir_of dd n)))
          × ((dd.rqs b).sector ≡ (dd.rqs n).sector)
          × (mid ≡ deadline_move_request k dd b))
    → (mid.dispatch ≡ dd.dispatch)
      ⊎ ((b : ℕ) × ((dd.rqs b).sector ≡ (dd.rqs n).sector)
          × (mid.dispatch ≡ dd.dispatch ++ (b ∷ [])))
entering_dispatch k dd mid n v (inl e) = inl (ap (λ u. u.dispatch) e)
entering_dispatch k dd mid n v (inr (b, h, s, e)) =
    inr (b, s, ap (λ u. u.dispatch) e ∙ (move-IsMoved k dd b (dir_of dd n) v h).dispatch)

module _ (k : Kernel) (dd : DeadlineData) (n : ℕ) where
  -- If the scheduler's lists are in order and the request is on none of them, `deadline_add_request`
  -- ends without a fault. The lists are in order again and hold the request, no request is lost, and
  -- at most one other, of the same start sector, has gone to the end of the dispatch queue.
  pub add_request-IsAdded :
      IsValid dd
      → IsFresh dd n
      → (dd' : DeadlineData) × (deadline_add_request k dd n ≡ some dd') × IsAdded n dd dd'
  unfolding deadline_add_drq_rb
  add_request-IsAdded v f =
      let start = keyed dd n in
      let start_v : IsValid start = IsValid-of (keyed-IsLinked dd n v f) in
      let e = retry_total k n start start_v (keyed-IsFresh dd n v f) (ground arith) in
      let d = dir_of e.mid n in
      let tree = k.rb_insert_color n e.tree in
      let expires = (dd.jiffies + at dd.fifo_expire (dir_of dd n)) % ulong_mod in
      let dir : d ≡ dir_of dd n = ap (λ u. (u n).dir) e.rqs in
      let fifo = at-put_self e.mid.fifo_list d (at e.mid.fifo_list d ++ (n ∷ [])) in
      (
        entered e.mid n d tree expires,
        result_state k dd n e,
        record {
          valid =
              entered-IsValid e.mid n tree expires e.valid e.fresh e.key d refl
                (k.inorder-rb_insert_color n e.tree ∙ e.land) e.unique;
          items = λ a.
              put-held e.mid d n a
              ∙ ap (λ t. t + (if a == n then 1 else 0))
                  (entering_held k start e.mid n a start_v e.same_or_moved);
          enters =
              subst (λ u. 0 < count n (at (entered e.mid n d tree expires).fifo_list u)) dir
                (ground (
                  arith,
                  ap (count n) fifo,
                  count-append n (at e.mid.fifo_list d) (n ∷ []),
                  ==_refl n,
                ));
          dispatch = entering_dispatch k start e.mid n start_v e.same_or_moved;
        },
      )
