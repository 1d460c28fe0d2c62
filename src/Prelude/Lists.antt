-- ===== src/Prelude/Lists.antt =====
-- Lists of request identities: intrusive lists are sequences in which a node stands at most once.
use Prim.Native.Nat.{ℕ, suc, ◌+◌, ◌-◌, ◌≤◌, ◌<◌}
use mathlib.Core.Path.{◌≡◌, refl}
use mathlib.Core.Option.{Option, none, some}
use mathlib.Core.List.{List, [], ◌∷◌, ◌++◌}
use native.Mathlib.Omega.{arith}
use ucsb_disk_profiling.Prelude.Tests.{◌==◌, if◌then◌else◌}

abbrev pub length {ℓ} : {A : Type ℓ} → List A → ℕ
length [] = 0
length (x ∷ xs) = suc (length xs)

pub length-append {ℓ} : {A : Type ℓ} (xs ys : List A) → length (xs ++ ys) ≡ length xs + length ys
length-append [] ys = omega arith
length-append (x ∷ xs) ys = omega (arith, length-append xs ys)

abbrev pub All {κ} : (ℕ → Type κ) → List ℕ → Type κ
All Q [] = Unit
All Q (y ∷ ys) = Q y × All Q ys

-- How often `a` stands in the list.
abbrev pub count : ℕ → List ℕ → ℕ
count a [] = 0
count a (x ∷ xs) = (if a == x then 1 else 0) + count a xs

pub count-append :
    (b : ℕ) (front back : List ℕ) → count b (front ++ back) ≡ count b front + count b back
count-append b [] back = ground arith
count-append b (y ∷ front) back = omega (count-append b front back, arith)

-- `list_del`: the node leaves the list.
abbrev pub remove : ℕ → List ℕ → List ℕ
remove a [] = []
remove a (x ∷ xs) = if a == x then xs else x ∷ remove a xs

pub count-remove :
    (b a : ℕ) (xs : List ℕ)
    → count b (remove a xs) ≡ (if b == a then count b xs - 1 else count b xs)
count-remove b a [] = ground arith
count-remove b a (x ∷ xs) = ground (arith, count-remove b a xs)

-- The node behind `a` in the list.
abbrev pub after : ℕ → List ℕ → Option ℕ
after a [] = none
after a (x ∷ []) = none
after a (x ∷ y ∷ ys) = if a == x then some y else after a (y ∷ ys)

-- A cursor of an intrusive list holds the nodes before it in reverse.
abbrev pub rejoin {ℓ} : {A : Type ℓ} → List A → List A → List A
rejoin [] ys = ys
rejoin (x ∷ xs) ys = rejoin xs (x ∷ ys)

pub count-rejoin : (a : ℕ) (xs ys : List ℕ) → count a (rejoin xs ys) ≡ count a xs + count a ys
count-rejoin a [] ys = omega arith
count-rejoin a (x ∷ xs) ys = omega (arith, count-rejoin a xs (x ∷ ys))

pub rejoin-snoc : (xs ys : List ℕ) (l : ℕ) → rejoin (xs ++ (l ∷ [])) ys ≡ l ∷ rejoin xs ys
rejoin-snoc [] ys l = refl
rejoin-snoc (x ∷ xs) ys l = rejoin-snoc xs (x ∷ ys) l

pub rejoin-rejoin : (xs ys zs : List ℕ) → rejoin (rejoin xs ys) zs ≡ rejoin ys (xs ++ zs)
rejoin-rejoin [] ys zs = refl
rejoin-rejoin (x ∷ xs) ys zs = rejoin-rejoin xs (x ∷ ys) zs

pub length-rejoin {ℓ} :
    {A : Type ℓ} (xs ys : List A) → length (rejoin xs ys) ≡ length xs + length ys
length-rejoin [] ys = omega arith
length-rejoin (x ∷ xs) ys = omega (arith, length-rejoin xs (x ∷ ys))

pub remove-absent : (a : ℕ) (xs : List ℕ) → count a xs ≡ 0 → remove a xs ≡ xs
remove-absent a [] h = refl
remove-absent a (x ∷ xs) h = ground (arith, remove-absent a xs)

-- Strictly rising values along a list, from `b` on.
abbrev pub Ascending : (ℕ → ℕ) → ℕ → List ℕ → Type 0
Ascending key b [] = Unit
Ascending key b (x ∷ xs) = (b ≤ key x) × Ascending key (suc (key x)) xs

pub Ascending-mono :
    (key : ℕ → ℕ) (a b : ℕ) (xs : List ℕ) → a ≤ b → Ascending key b xs → Ascending key a xs
Ascending-mono key a b [] h r = tt
Ascending-mono key a b (x ∷ xs) h r = (omega arith, r.1)

pub remove-Ascending :
    (key : ℕ → ℕ) (b n : ℕ) (xs : List ℕ) → Ascending key b xs → Ascending key b (remove n xs)
remove-Ascending key b n [] r = tt
remove-Ascending key b n (x ∷ xs) r =
    ground
      (arith, remove-Ascending key (suc (key x)) n xs r.1, Ascending-mono key b (suc (key x)) xs)

-- A key of the list is at least its bound.
pub key-ge : (key : ℕ → ℕ) (b a : ℕ) (xs : List ℕ) → Ascending key b xs → 0 < count a xs → b ≤ key a
key-ge key b a [] r h = absurd (omega arith)
key-ge key b a (x ∷ xs) r h = ground (arith, key-ge key (suc (key x)) a xs r.1)

pub count-le_one : (key : ℕ → ℕ) (b a : ℕ) (xs : List ℕ) → Ascending key b xs → count a xs ≤ 1
count-le_one key b a [] r = omega arith
count-le_one key b a (x ∷ xs) r =
    ground (arith, count-le_one key (suc (key x)) a xs r.1, key-ge key (suc (key x)) a xs r.1)

-- The successor stands in the list, with a greater key.
pub after-greater :
    (key : ℕ → ℕ) (b n a : ℕ) (xs : List ℕ)
    → Ascending key b xs
    → after n xs ≡ some a
    → (0 < count a xs) × (key n < key a)
after-greater key b n a [] r h = absurd (cc)
after-greater key b n a (x ∷ []) r h = absurd (cc)
after-greater key b n a (x ∷ y ∷ ys) r h =
    ground (arith, after-greater key (suc (key x)) n a (y ∷ ys) r.1)

pub Ascending-cong :
    (f g : ℕ → ℕ) (b : ℕ) (xs : List ℕ)
    → ((a : ℕ) → 0 < count a xs → f a ≡ g a)
    → Ascending f b xs
    → Ascending g b xs
Ascending-cong f g b [] h r = tt
Ascending-cong f g b (x ∷ xs) h r =
    let e : f x ≡ g x = h x (ground arith) in
    (omega arith, rw (← e) (Ascending-cong f g (suc (f x)) xs (λ a m. h a (ground arith)) r.1))

pub length-remove : (a : ℕ) (xs : List ℕ) → 0 < count a xs → suc (length (remove a xs)) ≡ length xs
length-remove a [] h = absurd (omega arith)
length-remove a (x ∷ xs) h = ground (arith, length-remove a xs)

-- Keys before an element of an ascending list are below its key.
pub key-lt :
    (key : ℕ → ℕ) (b a d : ℕ) (xs ys : List ℕ)
    → Ascending key b (xs ++ (d ∷ ys))
    → 0 < count a xs
    → key a < key d
key-lt key b a d [] ys r h = absurd (omega arith)
key-lt key b a d (x ∷ xs) ys r h = ground (
  arith,
  key-lt key (suc (key x)) a d xs ys r.1,
  key-ge key (suc (key x)) d (xs ++ (d ∷ ys)) r.1,
  count-append d xs (d ∷ ys),
)

-- An ascending list holds a key once.
pub key-injective :
    (key : ℕ → ℕ) (b a c : ℕ) (xs : List ℕ)
    → Ascending key b xs
    → 0 < count a xs
    → 0 < count c xs
    → key a ≡ key c
    → a ≡ c
key-injective key b a c [] r h g e = absurd (omega arith)
key-injective key b a c (x ∷ xs) r h g e = ground (
  arith,
  key-injective key (suc (key x)) a c xs r.1,
  key-ge key (suc (key x)) a xs r.1,
  key-ge key (suc (key x)) c xs r.1,
)
