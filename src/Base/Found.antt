-- ===== src/Base/Found.antt =====
-- The row of a key in what a query selects and sorts.
use Prim.Native.Nat.{ℕ}
use mathlib.Core.Path.{◌≡◌, refl, subst}
use mathlib.Core.Logic.{inl, inr}
use mathlib.Core.Bool.{Bool, true}
use mathlib.Core.List.{List, [], ◌∷◌}
use mathlib.Core.Option.{none, some}
use native.Mathlib.Omega.{arith}
use kasb_o_kar_hoshmand.Base.Tests.{◌==◌, if◌then◌else◌, Bool-cases}
use kasb_o_kar_hoshmand.Base.Lists.{All, where_rows, insert_on, sort_on}
use kasb_o_kar_hoshmand.Base.Table.{Keyed, key_of, get_row, save, Unique}

module _ {R : Type 0} ⦃k : Keyed R⦄ where
  pub All-get_row :
      (P : R → Type 0) (i : ℕ) (rs : List R) {r : R} → All P rs → get_row i rs ≡ some r → P r
  All-get_row P i [] {r} h e = absurd (ground arith)
  All-get_row P i (x ∷ rs) {r} h e = elim (Bool-cases (key_of x == i)) [
    | inl here ↦ subst P (ground (arith, here)) h.0
    | inr there ↦ All-get_row P i rs h.1 (ground (arith, there))
  ]

  pub where_rows_kept :
      (i : ℕ) (p : R → Bool) (rs : List R) {r : R}
      → Unique rs
      → get_row i rs ≡ some r
      → p r ≡ true
      → get_row i (where_rows p rs) ≡ some r
  where_rows_kept i p [] {r} u e h = absurd (ground arith)
  where_rows_kept i p (x ∷ rs) {r} u e h = elim (Bool-cases (key_of x == i)) [
    | inl here ↦ let same : x ≡ r = ground (arith, here) in ground (arith, here, same)
    | inr there ↦ ground (arith, there, where_rows_kept i p rs {r = r} u.1)
  ]

  -- Where a query selects one row alone, it selects that row as it is saved.
  pub where_rows-save :
      (p : R → Bool) (r r' : R) (rs : List R)
      → get_row (key_of r) rs ≡ some r
      → key_of r' ≡ key_of r
      → p r ≡ true
      → p r' ≡ true
      → where_rows p rs ≡ r ∷ []
      → where_rows p (save r' rs) ≡ r' ∷ []
  where_rows-save p r r' [] found same old new e = absurd (ground arith)
  where_rows-save p r r' (x ∷ xs) found same old new e = elim (Bool-cases (key_of x == key_of r)) [
    | inl here ↦ let at : x ≡ r = ground (arith, here) in ground (arith, here, same, at, old, new)
    | inr there ↦ elim (Bool-cases (p x)) [
      | inl passed ↦ absurd (ground (arith, there, passed))
      | inr dropped ↦ ground (arith, there, same, dropped, where_rows-save p r r' xs)
    ]
  ]

  insert_on_row :
      (i : ℕ) (f : R → ℕ) (x : R) (rs : List R)
      → get_row (key_of x) rs ≡ none
      → get_row i (insert_on f x rs) ≡ (if key_of x == i then some x else get_row i rs)
  insert_on_row i f x [] h = refl
  insert_on_row i f x (y ∷ rs) h = ground (arith, insert_on_row i f x rs)

  pub sort_on_row :
      (i : ℕ) (f : R → ℕ) (rs : List R) → Unique rs → get_row i (sort_on f rs) ≡ get_row i rs
  sort_on_row i f [] u = refl
  sort_on_row i f (x ∷ rs) u = ground (
    arith,
    sort_on_row i f rs u.1,
    insert_on_row i f x (sort_on f rs),
    sort_on_row (key_of x) f rs u.1,
    u.0,
  )
