-- ===== src/Deadline/Ucsb/Order.antt =====
-- The order of the UCSB queue of drivers/block/deadline-iosched.c, and what it holds.
use ucsb_disk_profiling.Prelude.{
  ap, suc, length-append, length-rejoin, ℕ, ◌+◌, ◌≤◌, ◌%◌, ◌≡◌, refl, ◌∙◌, some, List, [], ◌∷◌,
  ◌++◌, ltb_ℤ, ◌==◌, if◌then◌else◌, rejoin, rejoin-snoc, rejoin-rejoin, le→ltb, count, count-rejoin,
  count-append, All, arith, Bool-cases, inl, inr, length,
}
use ucsb_disk_profiling.Block.{uint_mod}
use ucsb_disk_profiling.Deadline.State.{DeadlineData}
use ucsb_disk_profiling.Deadline.Ucsb.{insert_into_queue, ucsb_io_add_request}
use ucsb_disk_profiling.Deadline.Ucsb.Insertion.{
  priority, bio_sector, IsQueued, IsLower, NotLower, insert_back, insert_back-count, inserted,
  insert-lowest, insert-lower,
}

module _ (f : ℕ → ℕ) where
  -- Rising along the list, from `b` on.
  abbrev pub Rising : ℕ → List ℕ → Type 0
  Rising b [] = Unit
  Rising b (x ∷ xs) = (b ≤ f x) × Rising (f x) xs

  -- Falling along the list, from `t` on.
  abbrev pub Falling : ℕ → List ℕ → Type 0
  Falling t [] = Unit
  Falling t (x ∷ xs) = (f x ≤ t) × Falling (f x) xs

  -- The value of the last element.
  abbrev top : ℕ → List ℕ → ℕ
  top b [] = b
  top b (x ∷ xs) = top (f x) xs

module _ (dd : DeadlineData) (rq : ℕ) where
  count-inserted :
      (xs rest : List ℕ) (a : ℕ)
      → count a (inserted dd rq xs rest) ≡ (if a == rq then 1 else 0) + count a (xs ++ rest)
  count-inserted xs rest a = omega (
    arith,
    count-rejoin a (insert_back dd rq (rejoin xs [])) rest,
    insert_back-count dd rq a (rejoin xs []),
    count-rejoin a xs [],
    count-append a xs rest,
  )

length-insert_back :
    (dd : DeadlineData) (rq : ℕ) (xs : List ℕ) → length (insert_back dd rq xs) ≡ suc (length xs)
unfolding insert_back
length-insert_back dd rq [] = refl
length-insert_back dd rq (x ∷ xs) = ground (arith, length-insert_back dd rq xs)

length-inserted :
    (dd : DeadlineData) (rq : ℕ) (xs rest : List ℕ)
    → length (inserted dd rq xs rest) ≡ suc (length (xs ++ rest))
length-inserted dd rq xs rest = omega (
  arith,
  length-rejoin (insert_back dd rq (rejoin xs [])) rest,
  length-insert_back dd rq (rejoin xs []),
  length-rejoin xs [],
  length-append xs rest,
)

-- Either no entry has a lower priority, or there is a first one.
data Split (dd : DeadlineData) (rq : ℕ) (xs : List ℕ) : Type 0 where
  lowest : All (NotLower dd rq) xs → Split dd rq xs
  lower :
      (first : List ℕ) (l : ℕ) (rest : List ℕ)
      → xs ≡ first ++ (l ∷ rest)
      → All (IsQueued dd) first
      → IsQueued dd l
      → All (NotLower dd rq) first
      → IsLower dd rq l
      → Split dd rq xs

split : (dd : DeadlineData) (rq : ℕ) (xs : List ℕ) → All (IsQueued dd) xs → Split dd rq xs
split dd rq [] h = lowest tt
split dd rq (x ∷ xs) h = elim (Bool-cases (ltb_ℤ (priority dd x) (priority dd rq))) [
  | inl low ↦ lower [] x xs refl tt h.0 tt low
  | inr high ↦ (elim (split dd rq xs h.1) [
    | lowest n ↦ lowest (high, n)
    | lower first l rest e hf hl n low ↦
        lower (x ∷ first) l rest (ap (λ r. x ∷ r) e) (h.0, hf) hl (high, n) low
  ])
]

-- What an insertion changes: the queue gains the request, and the counter goes up.
pub record IsInserted (rq : ℕ) (dd dd' : DeadlineData) : Type 0 where
  pub adds : (a : ℕ) → count a dd'.ucsb_queue ≡ (if a == rq then 1 else 0) + count a dd.ucsb_queue
  pub size : length dd'.ucsb_queue ≡ suc (length dd.ucsb_queue)
  pub counts : dd'.ucsb_cnt ≡ (dd.ucsb_cnt + 1) % uint_mod
  pub keeps : dd' ≡ record dd { ucsb_queue = dd'.ucsb_queue; ucsb_cnt = dd'.ucsb_cnt }

module _ (dd : DeadlineData) (rq : ℕ) (q : IsQueued dd rq) where
  insert_total :
      (xs : List ℕ)
      → All (IsQueued dd) xs
      → (ys : List ℕ) × (insert_into_queue dd rq xs ≡ some ys)
        × ((a : ℕ) → count a ys ≡ (if a == rq then 1 else 0) + count a xs)
        × (length ys ≡ suc (length xs))
  insert_total xs h = elim (split dd rq xs h) [
    | lowest n ↦ (
      inserted dd rq xs [],
      insert-lowest dd rq q xs h n,
      λ a. omega (arith, count-inserted dd rq xs [] a, count-append a xs []),
      omega (arith, length-inserted dd rq xs [], length-append xs []),
    )
    | lower first l rest e hf hl n low ↦ (
      inserted dd rq (first ++ (l ∷ [])) rest,
      rw e (insert-lower dd rq q first l rest hf hl n low),
      λ a. omega (
        arith,
        count-inserted dd rq (first ++ (l ∷ [])) rest a,
        count-append a (first ++ (l ∷ [])) rest,
        count-append a first (l ∷ []),
        count-append a first (l ∷ rest),
        ap (count a) e,
      ),
      omega (
        arith,
        length-inserted dd rq (first ++ (l ∷ [])) rest,
        length-append (first ++ (l ∷ [])) rest,
        length-append first (l ∷ []),
        length-append first (l ∷ rest),
        ap length e,
      ),
    )
  ]

  -- If every request of the UCSB queue, and the new one, has a bio with live QoS parameters, then
  -- `ucsb_io_add_request` does not fault; it adds exactly the new request to the queue and one to
  -- the counter, and changes nothing else.
  pub add-IsInserted :
      All (IsQueued dd) dd.ucsb_queue
      → (dd' : DeadlineData) × (ucsb_io_add_request dd rq ≡ some dd') × IsInserted rq dd dd'
  unfolding ucsb_io_add_request
  add-IsInserted h =
      let (ys, e, c, n) = insert_total dd.ucsb_queue h in
      (
        record dd { ucsb_queue = ys; ucsb_cnt = (dd.ucsb_cnt + 1) % uint_mod },
        rw e,
        record { adds = c; size = n; counts = refl; keeps = refl },
      )

  -- A request of a higher priority whose sector is not below that of the first request `l` of a
  -- lower priority goes behind `l`.
  pub add-behind_lower :
      (first : List ℕ) (l : ℕ) (rest : List ℕ)
      → dd.ucsb_queue ≡ first ++ (l ∷ rest)
      → All (IsQueued dd) first
      → IsQueued dd l
      → All (NotLower dd rq) first
      → IsLower dd rq l
      → bio_sector dd l ≤ bio_sector dd rq
      → (dd' : DeadlineData) × (ucsb_io_add_request dd rq ≡ some dd')
        × (dd'.ucsb_queue ≡ first ++ (l ∷ rq ∷ rest))
  unfolding ucsb_io_add_request insert_back
  add-behind_lower first l rest e h hl n low s = (
    record dd {
      ucsb_queue = inserted dd rq (first ++ (l ∷ [])) rest;
      ucsb_cnt = (dd.ucsb_cnt + 1) % uint_mod;
    },
    rw (ap (insert_into_queue dd rq) e ∙ insert-lower dd rq q first l rest h hl n low),
    rw (rejoin-snoc first [] l, le→ltb (bio_sector dd rq) (bio_sector dd l) s)
        (rejoin-rejoin first [] (l ∷ rq ∷ rest)),
  )
