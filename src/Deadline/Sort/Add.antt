-- ===== src/Deadline/Sort/Add.antt =====
-- `deadline_add_drq_rb` and `deadline_add_request` of drivers/block/deadline-iosched.c: a request
-- enters the lists, and one of the same start sector leaves them first.
use ucsb_disk_profiling.Prelude.{
  ℕ, suc, ◌+◌, ◌<◌, ◌≤◌, ◌≡◌, ◌≢◌, refl, sym, ap, ◌∙◌, List, [], ◌∷◌, ◌++◌, ◌==◌, ltb, ltb→lt,
  if◌then◌else◌, count, count-append, Ascending, key-ge, key-lt, arith, inl, inr, Bool-cases,
}
use ucsb_disk_profiling.Kernel.{Tree, leaf, node, inorder}
use ucsb_disk_profiling.Deadline.Sort.{Added, alias, linked, in_left, in_right, add_drq_below}

module _ (key : ℕ → ℕ) (n : ℕ) where
  -- The place of `n` in a list ordered by keys.
  abbrev pub insert_by : List ℕ → List ℕ
  insert_by [] = n ∷ []
  insert_by (x ∷ xs) = if ltb (key n) (key x) then n ∷ x ∷ xs else x ∷ insert_by xs

  insert_by-left :
      (xs ys : List ℕ) (d : ℕ)
      → key n < key d
      → insert_by (xs ++ (d ∷ ys)) ≡ insert_by xs ++ (d ∷ ys)
  insert_by-left [] ys d h = ground arith
  insert_by-left (x ∷ xs) ys d h = ground (arith, insert_by-left xs ys d h)

  insert_by-right :
      (b : ℕ) (xs ys : List ℕ) (d : ℕ)
      → Ascending key b (xs ++ (d ∷ ys))
      → key d < key n
      → insert_by (xs ++ (d ∷ ys)) ≡ xs ++ (d ∷ insert_by ys)
  insert_by-right b [] ys d r h = ground arith
  insert_by-right b (x ∷ xs) ys d r h = ground (
    arith,
    insert_by-right (suc (key x)) xs ys d r.1 h,
    key-ge key (suc (key x)) d (xs ++ (d ∷ ys)) r.1,
    count-append d xs (d ∷ ys),
  )

  pub insert_by-Ascending :
      (b : ℕ) (xs : List ℕ)
      → Ascending key b xs
      → b ≤ key n
      → ((a : ℕ) → 0 < count a xs → key a ≢ key n)
      → Ascending key b (insert_by xs)
  insert_by-Ascending b [] r h ne = (h, tt)
  insert_by-Ascending b (x ∷ xs) r h ne = elim (Bool-cases (ltb (key n) (key x))) [
    | inl less ↦ rw less (h, (ground arith, r.1))
    | inr more ↦ rw more (
      r.0,
      insert_by-Ascending (suc (key x)) xs r.1 (ground (arith, ne x)) (λ a m. ne a (ground arith)),
    )
  ]

  pub count-insert_by :
      (a : ℕ) (xs : List ℕ) → count a (insert_by xs) ≡ (if a == n then 1 else 0) + count a xs
  count-insert_by a [] = refl
  count-insert_by a (x ∷ xs) = ground (arith, count-insert_by a xs)

  left_of : (b : ℕ) (xs ys : List ℕ) → Ascending key b (xs ++ ys) → Ascending key b xs
  left_of b [] ys r = tt
  left_of b (x ∷ xs) ys r = (r.0, left_of (suc (key x)) xs ys r.1)

  right_of :
      (b : ℕ) (xs ys : List ℕ) (d : ℕ)
      → Ascending key b (xs ++ (d ∷ ys))
      → Ascending key (suc (key d)) ys
  right_of b [] ys d r = r.1
  right_of b (x ∷ xs) ys d r = right_of (suc (key x)) xs ys d r.1

  -- What the descent finds, for a tree in order: the request with the same key, or none and the place.
  abbrev pub Lands : Tree → Added → Type 0
  Lands t (alias a) = (0 < count a (inorder t)) × (key a ≡ key n)
  Lands t (linked t') =
      (inorder t' ≡ insert_by (inorder t)) × ((a : ℕ) → 0 < count a (inorder t) → key a ≢ key n)

  Lands-left :
      (b : ℕ) (l t : Tree) (d : ℕ) (x : Added)
      → Ascending key b (inorder (node l d t))
      → key n < key d
      → Lands l x
      → Lands (node l d t) (in_left x d t)
  Lands-left b l t d (alias a) r h e =
      (omega (arith, e.0, count-append a (inorder l) (d ∷ inorder t)), e.1)
  Lands-left b l t d (linked l') r h e = (
    ap (λ q. q ++ (d ∷ inorder t)) e.0 ∙ sym (insert_by-left (inorder l) (inorder t) d h),
    λ a m. ground (
      arith,
      m,
      e.1 a,
      count-append a (inorder l) (d ∷ inorder t),
      key-ge key (suc (key d)) a (inorder t) (right_of b (inorder l) (inorder t) d r),
    ),
  )

  Lands-right :
      (b : ℕ) (l t : Tree) (d : ℕ) (x : Added)
      → Ascending key b (inorder (node l d t))
      → key d < key n
      → Lands t x
      → Lands (node l d t) (in_right l d x)
  Lands-right b l t d (alias a) r h e =
      (grind (arith, e.0, count-append a (inorder l) (d ∷ inorder t)), e.1)
  Lands-right b l t d (linked t') r h e = (
    ap (λ q. inorder l ++ (d ∷ q)) e.0 ∙ sym (insert_by-right b (inorder l) (inorder t) d r h),
    λ a m. ground (
      arith,
      m,
      e.1 a,
      count-append a (inorder l) (d ∷ inorder t),
      key-lt key b a d (inorder l) (inorder t) r,
    ),
  )

  Lands-here : (l t : Tree) (d : ℕ) → key d ≡ key n → Lands (node l d t) (alias d)
  Lands-here l t d e = (ground (arith, count-append d (inorder l) (d ∷ inorder t)), e)

  pub add_drq_below-Lands :
      (b : ℕ) (t : Tree) → Ascending key b (inorder t) → Lands t (add_drq_below key n t)
  unfolding add_drq_below
  add_drq_below-Lands b leaf r = (refl, λ a m. absurd (omega (arith, m)))
  add_drq_below-Lands b (node l d t) r =
      let in_l = add_drq_below-Lands b l (left_of b (inorder l) (d ∷ inorder t) r) in
      let in_r = add_drq_below-Lands (suc (key d)) t (right_of b (inorder l) (inorder t) d r) in
      elim (Bool-cases (ltb (key n) (key d))) [
        | inl less ↦ rw less (Lands-left b l t d (add_drq_below key n l) r (ltb→lt _ _ less) in_l)
        | inr more ↦ (elim (Bool-cases (ltb (key d) (key n))) [
          | inl less ↦
              rw (more, less) (Lands-right b l t d (add_drq_below key n t) r (ltb→lt _ _ less) in_r)
          | inr over ↦ rw (more, over) (Lands-here l t d (ground arith))
        ])
      ]
