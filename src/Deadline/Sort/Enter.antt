-- ===== src/Deadline/Sort/Enter.antt =====
-- `deadline_add_request` of drivers/block/deadline-iosched.c ends, and keeps the lists in order.
use ucsb_disk_profiling.Prelude.{
  ℕ, suc, ◌<◌, ◌≡◌, ◌≢◌, refl, sym, ap, ◌∙◌, Option, some, true, false, [], ◌∷◌, ◌++◌, count,
  count-append, count-remove, count-le_one, key-injective, remove, Ascending-cong, arith, length,
  length-remove, ◌⊎◌, inl, inr,
}
use mathlib.Core.Path.{subst}
use native.Mathlib.Decide.{ℕ_discrete}
use ucsb_disk_profiling.Block.{Dir, read, write, at, put, at-put_self}
use ucsb_disk_profiling.Kernel.{Kernel, Tree, inorder}
use ucsb_disk_profiling.Deadline.State.{DeadlineData, dir_of, rb_key_of, set_drq, set_tree}
use ucsb_disk_profiling.Deadline.Invariant.{IsSorted, IsLinked, IsValid, IsLinked-at, IsValid-of}
use ucsb_disk_profiling.Deadline.Sort.{
  Added, alias, linked, add_drq_below, deadline_move_request, retry_add_drq_rb,
}
use ucsb_disk_profiling.Deadline.Sort.Move.{other, other-cases, at-put-other, IsMoved, move-IsMoved}
use ucsb_disk_profiling.Deadline.Sort.Valid.{IsSorted-carry, move-IsValid}
use ucsb_disk_profiling.Deadline.Sort.Add.{
  insert_by, insert_by-Ascending, count-insert_by, Lands, add_drq_below-Lands,
}

-- A request that is on no list of the scheduler, and has a deadline_rq for them.
pub record IsFresh (dd : DeadlineData) (n : ℕ) : Type 0 where
  pub has_drq : dd.has_drq n ≡ true
  pub no_flag : (dd.drqs n).ucsb_flag ≡ false
  pub not_read : count n dd.fifo_list.reads ≡ 0
  pub not_written : count n dd.fifo_list.writes ≡ 0
  pub not_dispatched : count n dd.dispatch ≡ 0
  pub not_ucsb : count n dd.ucsb_queue ≡ 0

pub not_queued :
    {dd : DeadlineData} {n : ℕ} → IsFresh dd n → (d : Dir) → count n (at dd.fifo_list d) ≡ 0
not_queued f read = f.not_read
not_queued f write = f.not_written

-- A direction whose lists are untouched.
pub IsLinked-carry :
    (dd dd' : DeadlineData) (d : Dir)
    → at dd'.sort_list d ≡ at dd.sort_list d
    → at dd'.fifo_list d ≡ at dd.fifo_list d
    → at dd'.next_drq d ≡ at dd.next_drq d
    → ((a : ℕ)
        → 0 < count a (at dd.fifo_list d)
        → IsSorted dd' d a × (rb_key_of dd a ≡ rb_key_of dd' a))
    → IsLinked dd d
    → IsLinked dd' d
IsLinked-carry dd dd' d t f x h l = record {
  sorted = rw t (
      Ascending-cong (rb_key_of dd) (rb_key_of dd') 0 _
        (λ a m. (h a (omega (arith, m, l.same a))).1) l.sorted);
  same = λ a. rw (t, f) (l.same a);
  owned = λ a p. (h a (omega (arith, p, ap (count a) f))).0;
  next = λ a e. omega (arith, l.next a (sym x ∙ e), ap (count a) f);
}

-- The state behind the descent: the leaf is in the tree, and the request at the fifo's end.
abbrev pub to_fifo : DeadlineData → ℕ → Dir → ℕ → DeadlineData
to_fifo link n d expires = record (set_drq link n (record (link.drqs n) { expires = expires })) {
  fifo_list = put link.fifo_list d (at link.fifo_list d ++ (n ∷ []));
}

abbrev pub entered : DeadlineData → ℕ → Dir → Tree → ℕ → DeadlineData
entered dd n d t expires =
    to_fifo (set_drq (set_tree dd d t) n (record (dd.drqs n) { on_rb = true })) n d expires

module _ (dd : DeadlineData) (n : ℕ) (t : Tree) (expires : ℕ) (v : IsValid dd) (f : IsFresh dd n)
    (key : rb_key_of dd n ≡ (dd.rqs n).sector) where
  entered-IsSorted :
      (d e : Dir) (a : ℕ) → a ≢ n → IsSorted dd e a → IsSorted (entered dd n d t expires) e a
  entered-IsSorted d e a ne s =
      IsSorted-carry dd (entered dd n d t expires) e a refl (ground (arith, ne)) refl
        s.not_dispatched s.not_ucsb s

  entered-new : (d : Dir) → dir_of dd n ≡ d → IsSorted (entered dd n d t expires) d n
  entered-new d e = record {
    dir = e;
    on_rb = ground arith;
    no_flag = ground (arith, f.no_flag);
    has_drq = f.has_drq;
    key = ground (arith, key);
    not_dispatched = f.not_dispatched;
    not_ucsb = f.not_ucsb;
  }

  entered-key : (d : Dir) (a : ℕ) → rb_key_of dd a ≡ rb_key_of (entered dd n d t expires) a
  entered-key d a = ground arith

  not_new : (d : Dir) (a : ℕ) → 0 < count a (at dd.fifo_list d) → a ≢ n
  not_new d a m e = omega (arith, m, not_queued f d, ap (λ b. count b (at dd.fifo_list d)) e)

  grown :
      (d : Dir)
      → dir_of dd n ≡ d
      → inorder t ≡ insert_by (rb_key_of dd) n (inorder (at dd.sort_list d))
      → ((a : ℕ) → 0 < count a (inorder (at dd.sort_list d)) → rb_key_of dd a ≢ rb_key_of dd n)
      → IsLinked (entered dd n d t expires) d
  grown d e land unique = record {
    sorted =
        rw (at-put_self dd.sort_list d t, land)
          (Ascending-cong (rb_key_of dd) (rb_key_of (entered dd n d t expires)) 0 _
            (λ a _. entered-key d a)
            (insert_by-Ascending (rb_key_of dd) n 0 (inorder (at dd.sort_list d))
              (IsLinked-at v d).sorted (omega arith) unique));
    same = λ a. omega (
      arith,
      ap (λ u. count a (inorder u)) (at-put_self dd.sort_list d t),
      ap (count a) land,
      count-insert_by (rb_key_of dd) n a (inorder (at dd.sort_list d)),
      ap (count a) (at-put_self dd.fifo_list d (at dd.fifo_list d ++ (n ∷ []))),
      count-append a (at dd.fifo_list d) (n ∷ []),
      (IsLinked-at v d).same a,
    );
    owned = λ a p. elim (ℕ_discrete a n) [
      | yes same ↦ subst (IsSorted (entered dd n d t expires) d) (sym same) (entered-new d e)
      | no ne ↦ entered-IsSorted d d a ne (
          (IsLinked-at v d).owned a (
            grind (
              arith,
              p,
              ne,
              ap (count a) (at-put_self dd.fifo_list d (at dd.fifo_list d ++ (n ∷ []))),
              count-append a (at dd.fifo_list d) (n ∷ []),
            )))
    ];
    next = λ a x. omega (
      arith,
      (IsLinked-at v d).next a x,
      ap (count a) (at-put_self dd.fifo_list d (at dd.fifo_list d ++ (n ∷ []))),
      count-append a (at dd.fifo_list d) (n ∷ []),
    );
  }

  pub entered-IsValid :
      (d : Dir)
      → dir_of dd n ≡ d
      → inorder t ≡ insert_by (rb_key_of dd) n (inorder (at dd.sort_list d))
      → ((a : ℕ) → 0 < count a (inorder (at dd.sort_list d)) → rb_key_of dd a ≢ rb_key_of dd n)
      → IsValid (entered dd n d t expires)
  entered-IsValid d e land unique =
      let dd' = entered dd n d t expires in
      IsValid-of (
        other-cases (IsLinked dd') d (grown d e land unique) (
          IsLinked-carry dd dd' (other d) (at-put-other dd.sort_list d t)
            (at-put-other dd.fifo_list d (at dd.fifo_list d ++ (n ∷ []))) refl
            (λ a m. (
              entered-IsSorted d (other d) a (not_new (other d) a m)
                  ((IsLinked-at v (other d)).owned a m),
              entered-key d a,
            ))
            (IsLinked-at v (other d))))

-- A move of another request leaves a fresh one fresh.
moved-IsFresh :
    (dd dd' : DeadlineData) (n a : ℕ) (d : Dir)
    → IsFresh dd n
    → a ≢ n
    → IsMoved a d dd dd'
    → IsFresh dd' n
moved-IsFresh dd dd' n a d f ne m = record {
  has_drq = ap (λ t. t.has_drq n) m.keeps ∙ f.has_drq;
  no_flag = ap (λ t. t.ucsb_flag) (m.drqs n (λ e. ne (sym e))) ∙ f.no_flag;
  not_read = gone read;
  not_written = gone write;
  not_dispatched =
      ground
        (arith, ap (count n) m.dispatch, count-append n dd.dispatch (a ∷ []), f.not_dispatched, ne);
  not_ucsb = ap (λ t. count n t.ucsb_queue) m.keeps ∙ f.not_ucsb;
}
  where
    gone : (e : Dir) → count n (at dd'.fifo_list e) ≡ 0
    gone =
        other-cases (λ e. count n (at dd'.fifo_list e) ≡ 0) d
          (ground
            (arith, ap (count n) m.fifo, count-remove n a (at dd.fifo_list d), not_queued f d))
          (ap (count n) m.other_fifo ∙ not_queued f (other d))

-- The state in which the descent ends with a new leaf, and the tree that has it.
pub record IsEntering (k : Kernel) (n : ℕ) (dd : DeadlineData) (r : Option DeadlineData)
    : Type 0 where
  pub mid : DeadlineData
  pub tree : Tree
  pub valid : IsValid mid
  pub fresh : IsFresh mid n
  pub rqs : mid.rqs ≡ dd.rqs
  pub key : rb_key_of mid n ≡ (mid.rqs n).sector
  pub land : inorder tree ≡ insert_by (rb_key_of mid) n (inorder (at mid.sort_list (dir_of mid n)))
  pub unique :
      (a : ℕ)
      → 0 < count a (inorder (at mid.sort_list (dir_of mid n)))
      → rb_key_of mid a ≢ rb_key_of mid n
  pub same_or_moved :
      (mid ≡ dd)
      ⊎ ((a : ℕ) × (0 < count a (at dd.fifo_list (dir_of dd n)))
          × ((dd.rqs a).sector ≡ (dd.rqs n).sector)
          × (mid ≡ deadline_move_request k dd a))
  pub result :
      r
      ≡ some (
          set_drq
            (set_tree mid (dir_of mid n) (k.rb_insert_color n tree))
            n
            (record (mid.drqs n) { on_rb = true }))

Added-cases : (x : Added) → ((a : ℕ) × (x ≡ alias a)) ⊎ ((t : Tree) × (x ≡ linked t))
Added-cases (alias a) = inl (a, refl)
Added-cases (linked t) = inr (t, refl)

-- Behind a move no request is left with the key of the one that moved.
no_second :
    (dd dd' : DeadlineData) (n a c : ℕ)
    → IsValid dd
    → 0 < count a (at dd.fifo_list (dir_of dd n))
    → rb_key_of dd a ≡ rb_key_of dd n
    → IsMoved a (dir_of dd n) dd dd'
    → 0 < count c (inorder (at dd'.sort_list (dir_of dd' n)))
    → rb_key_of dd' c ≢ rb_key_of dd' n
no_second dd dd' n a c v h same m there e =
    let d = dir_of dd n in
    let xs = inorder (at dd.sort_list d) in
    let sorted = (IsLinked-at v d).sorted in
    let dir : dir_of dd' n ≡ d = ap (λ t. dir_of t n) m.keeps in
    let left : 0 < count c (remove a xs) =
      subst (λ q. 0 < count c q) m.tree
        (subst (λ u. 0 < count c (inorder (at dd'.sort_list u))) dir there) in
    let old : 0 < count c xs = ground (arith, left, count-remove c a xs) in
    let moved : 0 < count a xs = omega (arith, h, (IsLinked-at v d).same a) in
    let key : rb_key_of dd c ≡ rb_key_of dd a = sym (m.keys c) ∙ e ∙ m.keys n ∙ sym same in
    let one : c ≡ a = key-injective (rb_key_of dd) 0 c a xs sorted old moved key in
    ground (arith, one, left, count-remove c a xs, count-le_one (rb_key_of dd) 0 c xs sorted)

module _ (k : Kernel) (n : ℕ) where
  -- The descent of one round.
  abbrev descent : DeadlineData → Added
  descent dd = add_drq_below (rb_key_of dd) n (at dd.sort_list (dir_of dd n))

  retry-linked :
      (fuel : ℕ) (dd : DeadlineData) (t : Tree)
      → descent dd ≡ linked t
      → retry_add_drq_rb k (suc fuel) dd n
        ≡ some (
            set_drq
              (set_tree dd (dir_of dd n) (k.rb_insert_color n t))
              n
              (record (dd.drqs n) { on_rb = true }))
  unfolding retry_add_drq_rb
  retry-linked fuel dd t e = rw (e, retry_add_drq_rb)

  retry-alias :
      (fuel : ℕ) (dd : DeadlineData) (a : ℕ)
      → descent dd ≡ alias a
      → retry_add_drq_rb k (suc fuel) dd n
        ≡ retry_add_drq_rb k fuel (deadline_move_request k dd a) n
  unfolding retry_add_drq_rb
  retry-alias fuel dd a e = rw (e, retry_add_drq_rb)

  descent-Lands :
      (dd : DeadlineData)
      → IsValid dd
      → Lands (rb_key_of dd) n (at dd.sort_list (dir_of dd n)) (descent dd)
  descent-Lands dd v =
      add_drq_below-Lands (rb_key_of dd) n 0 (at dd.sort_list (dir_of dd n))
        (IsLinked-at v (dir_of dd n)).sorted

  -- Behind the move of the request with the same key, no other has that key.
  second_round :
      (dd : DeadlineData) (a : ℕ)
      → IsValid dd
      → 0 < count a (at dd.fifo_list (dir_of dd n))
      → rb_key_of dd a ≡ rb_key_of dd n
      → (t : Tree) × (descent (deadline_move_request k dd a) ≡ linked t)
  second_round dd a v h same =
      let dd' = deadline_move_request k dd a in
      elim (Added-cases (descent dd')) [
        | inr found ↦ found
        | inl (c, e) ↦
            let lands =
              subst (Lands (rb_key_of dd') n (at dd'.sort_list (dir_of dd' n))) e
                (descent-Lands dd' (move-IsValid k dd a (dir_of dd n) v h)) in
            absurd (
              no_second dd dd' n a c v h same (move-IsMoved k dd a (dir_of dd n) v h) lands.0
                lands.1)
      ]

  pub retry_total :
      (dd : DeadlineData)
      → IsValid dd
      → IsFresh dd n
      → rb_key_of dd n ≡ (dd.rqs n).sector
      → IsEntering k n dd
          (retry_add_drq_rb k (suc (length (inorder (at dd.sort_list (dir_of dd n))))) dd n)
  retry_total dd v f key = elim (Added-cases (descent dd)) [
    | inr (t, e) ↦
        let lands =
          subst (Lands (rb_key_of dd) n (at dd.sort_list (dir_of dd n))) e (descent-Lands dd v) in
        record {
          mid = dd;
          tree = t;
          valid = v;
          fresh = f;
          rqs = refl;
          key = key;
          land = lands.0;
          unique = lands.1;
          same_or_moved = inl refl;
          result = retry-linked _ dd t e;
        }
    | inl (a, e) ↦
        let d = dir_of dd n in
        let mid = deadline_move_request k dd a in
        let lands = subst (Lands (rb_key_of dd) n (at dd.sort_list d)) e (descent-Lands dd v) in
        let h : 0 < count a (at dd.fifo_list d) =
          omega (arith, lands.0, (IsLinked-at v d).same a) in
        let m = move-IsMoved k dd a d v h in
        let valid = move-IsValid k dd a d v h in
        let (t, e') = second_round dd a v h lands.1 in
        let lands' =
          subst (Lands (rb_key_of mid) n (at mid.sort_list (dir_of mid n))) e'
            (descent-Lands mid valid) in
        let rqs : mid.rqs ≡ dd.rqs = ap (λ u. u.rqs) m.keeps in
        record {
          mid = mid;
          tree = t;
          valid = valid;
          fresh =
              moved-IsFresh dd mid n a d f
                (λ same.
                  omega (arith, h, not_queued f d, ap (λ b. count b (at dd.fifo_list d)) same))
                m;
          rqs = rqs;
          key = m.keys n ∙ key ∙ sym (ap (λ u. (u n).sector) rqs);
          land = lands'.0;
          unique = lands'.1;
          same_or_moved = inr (a, h, sym ((IsLinked-at v d).owned a h).key ∙ lands.1 ∙ key, refl);
          result =
              retry-alias _ dd a e
              ∙ ap (λ fuel. retry_add_drq_rb k fuel mid n)
                  (sym (length-remove a (inorder (at dd.sort_list d)) lands.0))
              ∙ retry-linked _ mid t e';
        }
  ]
