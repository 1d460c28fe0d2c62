-- ===== src/Deadline/Ucsb/Insertion.antt =====
-- Where `ucsb_io_add_request` of drivers/block/deadline-iosched.c puts a request.
use ucsb_disk_profiling.Prelude.{
  ℕ, ◌+◌, ◌≡◌, refl, ◌∙◌, none, some, true, false, List, [], ◌∷◌, ◌++◌, ℤ, pos, ltb_ℤ, ltb, ◌==◌,
  if◌then◌else◌, ◌>>=◌, rejoin, rejoin-snoc, count, All, arith, Bool-cases, inl, inr,
}
use ucsb_disk_profiling.Deadline.State.{DeadlineData, rq_priority, rq_bio_sector}
use ucsb_disk_profiling.Deadline.Ucsb.{find_lower, skip_higher_sectors, insert_into_queue}

-- The values that the pointers of a queued request lead to.
unfoldable pub priority : DeadlineData → ℕ → ℤ
priority dd n = elim (rq_priority dd n) [ some p ↦ p | none ↦ pos 0 ]

unfoldable pub bio_sector : DeadlineData → ℕ → ℕ
bio_sector dd n = elim (rq_bio_sector dd n) [ some s ↦ s | none ↦ 0 ]

-- The request has a bio whose QoS parameters are live.
pub record IsQueued (dd : DeadlineData) (n : ℕ) : Type 0 where
  pub has_priority : rq_priority dd n ≡ some (priority dd n)
  pub has_sector : rq_bio_sector dd n ≡ some (bio_sector dd n)

-- Priority of `x` below that of `rq`.
abbrev pub IsLower : DeadlineData → ℕ → ℕ → Type 0
IsLower dd rq x = ltb_ℤ (priority dd x) (priority dd rq) ≡ true

abbrev pub NotLower : DeadlineData → ℕ → ℕ → Type 0
NotLower dd rq x = ltb_ℤ (priority dd x) (priority dd rq) ≡ false

All-rejoin {κ} : (P : ℕ → Type κ) (xs ys : List ℕ) → All P xs → All P ys → All P (rejoin xs ys)
All-rejoin P [] ys hx hy = hy
All-rejoin P (x ∷ xs) ys hx hy = All-rejoin P xs (x ∷ ys) hx.1 (hx.0, hy)

module _ (dd : DeadlineData) (rq : ℕ) where
  -- The place of `rq` among entries of which the nearest comes first.
  unfoldable pub insert_back : List ℕ → List ℕ
  insert_back [] = rq ∷ []
  insert_back (x ∷ xs) =
      if ltb (bio_sector dd rq) (bio_sector dd x) then x ∷ insert_back xs else rq ∷ x ∷ xs

  pub insert_back-count :
      (a : ℕ) (xs : List ℕ) → count a (insert_back xs) ≡ (if a == rq then 1 else 0) + count a xs
  unfolding insert_back
  insert_back-count a [] = refl
  insert_back-count a (x ∷ xs) = ground (arith, insert_back-count a xs)

  -- The queue with the request in place, where `xs` is the part that the first loop walks.
  abbrev pub inserted : List ℕ → List ℕ → List ℕ
  inserted xs rest = rejoin (insert_back (rejoin xs [])) rest

module _ (dd : DeadlineData) (rq : ℕ) (q : IsQueued dd rq) where
  -- One round of the first loop.
  find_lower_round :
      (before : List ℕ) (x : ℕ) (xs : List ℕ)
      → IsQueued dd x
      → let next = find_lower dd rq (x ∷ before) xs in
        find_lower dd rq before (x ∷ xs) ≡ (
          if ltb_ℤ (priority dd x) (priority dd rq)
          then some (x ∷ before, xs)
          else (elim xs [ [] ↦ some (x ∷ before, []) | _ ∷ _ ↦ next ]))
  unfolding find_lower
  find_lower_round before x xs h = rw (h.has_priority, q.has_priority)

  -- Without a lower priority the first loop walks to the last entry.
  find_lower-none :
      (before : List ℕ) (x : ℕ) (xs : List ℕ)
      → All (IsQueued dd) (x ∷ xs)
      → All (NotLower dd rq) (x ∷ xs)
      → find_lower dd rq before (x ∷ xs) ≡ some (rejoin (x ∷ xs) before, [])
  find_lower-none before x [] h n = find_lower_round before x [] h.0 ∙ rw n.0
  find_lower-none before x (y ∷ ys) h n =
      find_lower_round before x (y ∷ ys) h.0 ∙ rw n.0 (find_lower-none (x ∷ before) y ys h.1 n.1)

  -- Otherwise it stops at the first entry of a lower priority.
  find_lower-some :
      (before first : List ℕ) (l : ℕ) (rest : List ℕ)
      → All (IsQueued dd) first
      → IsQueued dd l
      → All (NotLower dd rq) first
      → IsLower dd rq l
      → find_lower dd rq before (first ++ (l ∷ rest)) ≡ some (l ∷ rejoin first before, rest)
  find_lower-some before [] l rest h hl n low = find_lower_round before l rest hl ∙ rw low
  find_lower-some before (x ∷ []) l rest h hl n low =
      find_lower_round before x (l ∷ rest) h.0
      ∙ rw n.0 (find_lower-some (x ∷ before) [] l rest tt hl tt low)
  find_lower-some before (x ∷ y ∷ ys) l rest h hl n low =
      find_lower_round before x (y ∷ ys ++ (l ∷ rest)) h.0
      ∙ rw n.0 (find_lower-some (x ∷ before) (y ∷ ys) l rest h.1 hl n.1 low)

  -- The second loop finds that place.
  skip_higher_sectors_lem :
      (before behind : List ℕ)
      → All (IsQueued dd) before
      → (b : List ℕ) × (c : List ℕ) × (skip_higher_sectors dd rq before behind ≡ some (b, c))
        × (rejoin b (rq ∷ c) ≡ rejoin (insert_back dd rq before) behind)
  unfolding skip_higher_sectors insert_back
  skip_higher_sectors_lem [] behind h = ([], behind, refl, refl)
  skip_higher_sectors_lem (x ∷ before) behind h =
      elim (Bool-cases (ltb (bio_sector dd rq) (bio_sector dd x))) [
        | inl higher ↦
            rw (h.0.has_sector, q.has_sector, higher)
              (skip_higher_sectors_lem before (x ∷ behind) h.1)
        | inr place ↦ (x ∷ before, behind, rw (h.0.has_sector, q.has_sector, place), rw place)
      ]

  -- From the cursor where the first loop stops, the second loop and `list_add`.
  finish :
      (before rest : List ℕ)
      → All (IsQueued dd) before
      → (do (b, c) ← skip_higher_sectors dd rq before rest; some (rejoin b (rq ∷ c)))
        ≡ some (rejoin (insert_back dd rq before) rest)
  finish before rest h = let (b, c, e, same) = skip_higher_sectors_lem before rest h in rw (e, same)

  -- No entry has a lower priority: the whole queue is walked.
  pub insert-lowest :
      (xs : List ℕ)
      → All (IsQueued dd) xs
      → All (NotLower dd rq) xs
      → insert_into_queue dd rq xs ≡ some (inserted dd rq xs [])
  unfolding insert_into_queue insert_back
  insert-lowest [] h n = refl
  insert-lowest (x ∷ xs) h n =
      rw (find_lower-none [] x xs h n)
        (finish (rejoin (x ∷ xs) []) [] (All-rejoin (IsQueued dd) (x ∷ xs) [] h tt))

  -- Entries up to the first one of a lower priority, that one included, are walked.
  pub insert-lower :
      (first : List ℕ) (l : ℕ) (rest : List ℕ)
      → All (IsQueued dd) first
      → IsQueued dd l
      → All (NotLower dd rq) first
      → IsLower dd rq l
      → insert_into_queue dd rq (first ++ (l ∷ rest))
        ≡ some (inserted dd rq (first ++ (l ∷ [])) rest)
  unfolding insert_into_queue
  insert-lower [] l rest h hl n low =
      rw (find_lower-some [] [] l rest tt hl tt low) (finish (l ∷ []) rest (hl, tt))
  insert-lower (x ∷ xs) l rest h hl n low =
      rw (find_lower-some [] (x ∷ xs) l rest h hl n low, rejoin-snoc xs (x ∷ []) l)
        (finish (l ∷ rejoin (x ∷ xs) []) rest (hl, All-rejoin (IsQueued dd) (x ∷ xs) [] h tt))
