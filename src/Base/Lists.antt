-- ===== src/Base/Lists.antt =====
-- Lists measured by native numbers, Boolean filters, and predicates on every element.
use Prim.Native.Nat.{ℕ, zero, suc, ◌+◌, ◌≤◌}
use mathlib.Core.Path.{◌≡◌, refl}
use mathlib.Core.Logic.{◌⊎◌, inl, inr}
use mathlib.Core.Bool.{Bool, true}
use mathlib.Core.List.{List, [], ◌∷◌, ◌++◌}
use mathlib.Core.Option.{Option, none, some}
use native.Mathlib.Omega.{arith}
use kasb_o_kar_hoshmand.Base.Tests.{if◌then◌else◌, leb, leb→le, Bool-cases}

module _ {ℓ} {A : Type ℓ} where
  abbrev pub length : List A → ℕ
  length [] = 0
  length (x ∷ xs) = suc (length xs)

  -- `.limit(n)`
  abbrev pub take : ℕ → List A → List A
  take zero xs = []
  take (suc n) [] = []
  take (suc n) (x ∷ xs) = x ∷ take n xs

  abbrev pub head_of : List A → Option A
  head_of [] = none
  head_of (x ∷ xs) = some x

  -- `WHERE p`, with a Boolean test.
  abbrev pub where_rows : (A → Bool) → List A → List A
  where_rows p [] = []
  where_rows p (x ∷ xs) = let rest = where_rows p xs in if p x then x ∷ rest else rest

  -- To split on a computed list and keep the equation.
  pub List-cases : (xs : List A) → (xs ≡ []) ⊎ ((y : A) × (ys : List A) × (xs ≡ y ∷ ys))
  List-cases [] = inl refl
  List-cases (x ∷ xs) = inr (x, xs, refl)

  pub where_rows-snoc :
      (p : A → Bool) (xs : List A) (y : A)
      → where_rows p (xs ++ y ∷ []) ≡ where_rows p xs ++ (if p y then y ∷ [] else [])
  where_rows-snoc p [] y = refl
  where_rows-snoc p (x ∷ xs) y = ground (arith, where_rows-snoc p xs y)

  -- The sum of a measure over a list.
  abbrev pub sum_of : (A → ℕ) → List A → ℕ
  sum_of f [] = 0
  sum_of f (x ∷ xs) = f x + sum_of f xs

  pub sum_of-append : (f : A → ℕ) (xs ys : List A) → sum_of f (xs ++ ys) ≡ sum_of f xs + sum_of f ys
  sum_of-append f [] ys = omega arith
  sum_of-append f (x ∷ xs) ys = omega (arith, sum_of-append f xs ys)

module _ {ℓ κ} {A : Type ℓ} where
  abbrev pub All : (A → Type κ) → List A → Type κ
  All P [] = Unit
  All P (x ∷ xs) = P x × All P xs

  pub All-append : (P : A → Type κ) (xs ys : List A) → All P xs → All P ys → All P (xs ++ ys)
  All-append P [] ys h k = k
  All-append P (x ∷ xs) ys h k = (h.0, All-append P xs ys h.1 k)

module _ {ℓ} {A : Type ℓ} where
  -- `ORDER BY f`: a stable insertion sort.
  abbrev pub insert_on : (A → ℕ) → A → List A → List A
  insert_on f x [] = x ∷ []
  insert_on f x (y ∷ ys) = if leb (f x) (f y) then x ∷ y ∷ ys else y ∷ insert_on f x ys

  abbrev pub sort_on : (A → ℕ) → List A → List A
  sort_on f [] = []
  sort_on f (x ∷ xs) = insert_on f x (sort_on f xs)

  -- Ascending, with ties allowed.
  abbrev pub IsSortedOn : (A → ℕ) → List A → Type 0
  IsSortedOn f [] = Unit
  IsSortedOn f (x ∷ xs) = All (λ y. f x ≤ f y) xs × IsSortedOn f xs

  pub sum_of-insert_on :
      (g f : A → ℕ) (x : A) (xs : List A) → sum_of g (insert_on f x xs) ≡ g x + sum_of g xs
  sum_of-insert_on g f x [] = refl
  sum_of-insert_on g f x (y ∷ ys) = ground (arith, sum_of-insert_on g f x ys)

  pub sum_of-sort_on : (g f : A → ℕ) (xs : List A) → sum_of g (sort_on f xs) ≡ sum_of g xs
  sum_of-sort_on g f [] = refl
  sum_of-sort_on g f (x ∷ xs) =
      omega (arith, sum_of-insert_on g f x (sort_on f xs), sum_of-sort_on g f xs)

module _ {ℓ κ} {A : Type ℓ} (P : A → Type κ) where
  pub All-insert_on : (f : A → ℕ) (x : A) (xs : List A) → P x → All P xs → All P (insert_on f x xs)
  All-insert_on f x [] p h = (p, tt)
  All-insert_on f x (y ∷ ys) p h = elim (Bool-cases (leb (f x) (f y))) [
    | inl before ↦ rw before (p, h)
    | inr after ↦ rw after (h.0, All-insert_on f x ys p h.1)
  ]

  pub All-sort_on : (f : A → ℕ) (xs : List A) → All P xs → All P (sort_on f xs)
  All-sort_on f [] h = tt
  All-sort_on f (x ∷ xs) h = All-insert_on f x (sort_on f xs) h.0 (All-sort_on f xs h.1)

  pub All-where_rows : (p : A → Bool) (xs : List A) → All P xs → All P (where_rows p xs)
  All-where_rows p [] h = tt
  All-where_rows p (x ∷ xs) h = elim (Bool-cases (p x)) [
    | inl kept ↦ rw kept (h.0, All-where_rows p xs h.1)
    | inr dropped ↦ rw dropped (All-where_rows p xs h.1)
  ]

-- What a `WHERE` selects passes its test.
pub where_rows_pass {ℓ} :
    {A : Type ℓ} (p : A → Bool) (xs : List A) → All (λ x. p x ≡ true) (where_rows p xs)
where_rows_pass p [] = tt
where_rows_pass p (x ∷ xs) = elim (Bool-cases (p x)) [
  | inl kept ↦ rw kept (kept, where_rows_pass p xs)
  | inr dropped ↦ rw dropped (where_rows_pass p xs)
]

module _ {ℓ} {A : Type ℓ} (f : A → ℕ) where
  All-le_trans : (a b : ℕ) (xs : List A) → a ≤ b → All (λ y. b ≤ f y) xs → All (λ y. a ≤ f y) xs
  All-le_trans a b [] h k = tt
  All-le_trans a b (x ∷ xs) h k = (omega arith, All-le_trans a b xs h k.1)

  insert_on-IsSortedOn : (x : A) (xs : List A) → IsSortedOn f xs → IsSortedOn f (insert_on f x xs)
  insert_on-IsSortedOn x [] h = (tt, tt)
  insert_on-IsSortedOn x (y ∷ ys) h = elim (Bool-cases (leb (f x) (f y))) [
    | inl before ↦
        rw before ((leb→le _ _ before, All-le_trans (f x) (f y) ys (leb→le _ _ before) h.0), h)
    | inr after ↦
        rw after
          (All-insert_on (λ z. f y ≤ f z) f x ys (ground arith) h.0, insert_on-IsSortedOn x ys h.1)
  ]

  -- `ORDER BY` sorts.
  pub sort_on-IsSortedOn : (xs : List A) → IsSortedOn f (sort_on f xs)
  sort_on-IsSortedOn [] = tt
  sort_on-IsSortedOn (x ∷ xs) = insert_on-IsSortedOn x (sort_on f xs) (sort_on-IsSortedOn xs)
