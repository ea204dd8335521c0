-- ===== src/Models/Selected.antt =====
-- A row that a query selects alone, with `scalar_one_or_none`.
use kasb_o_kar_hoshmand.Base.{
  ℕ, ◌≡◌, ◌⊎◌, inl, inr, refl, subst, Bool, true, false, none, some, List, [], ◌∷◌, ◌==◌, All,
  All-where_rows, where_rows, where_rows_pass, Bool-cases, Option-cases, if◌then◌else◌, arith,
}
use kasb_o_kar_hoshmand.Base.Table.{Keyed, key_of, get_row, Unique, Rows-self}
use kasb_o_kar_hoshmand.Models.Database.{ok, scalar_one_or_none, scalar_one}

module _ {R : Type 0} ⦃k : Keyed R⦄ (p : R → Bool) (rs : List R) where
  pub selected_passes : {r : R} → scalar_one_or_none (where_rows p rs) ≡ ok (some r) → p r ≡ true
  selected_passes e = (subst (All (λ q. p q ≡ true)) (scalar_one _ e) (where_rows_pass p rs)).0

  pub selected_row :
      {r : R}
      → Unique rs
      → scalar_one_or_none (where_rows p rs) ≡ ok (some r)
      → get_row (key_of r) rs ≡ some r
  selected_row u e =
      (subst (All (λ q. get_row (key_of q) rs ≡ some q)) (scalar_one _ e)
        (All-where_rows (λ q. get_row (key_of q) rs ≡ some q) p rs (Rows-self rs u))).0

-- a query that selects by key finds nothing where no row has the key
none_selected :
    {R : Type 0} ⦃k : Keyed R⦄ (i : ℕ) (p : R → Bool) (rs : List R)
    → ((q : R) → p q ≡ true → key_of q ≡ i)
    → get_row i rs ≡ none
    → where_rows p rs ≡ []
none_selected i p [] by_key e = refl
none_selected i p (x ∷ rs) by_key e = elim (Bool-cases (p x)) [
  | inl passed ↦ absurd (ground (arith, by_key x passed))
  | inr dropped ↦ ground (arith, dropped, none_selected i p rs by_key)
]

one_selected :
    {R : Type 0} ⦃k : Keyed R⦄ (i : ℕ) (p : R → Bool) (rs : List R) {r : R}
    → Unique rs
    → ((q : R) → p q ≡ true → key_of q ≡ i)
    → get_row i rs ≡ some r
    → where_rows p rs ≡ (if p r then r ∷ [] else [])
one_selected i p [] {r} u by_key e = absurd (ground arith)
one_selected i p (x ∷ rs) {r} u by_key e = elim (Bool-cases (key_of x == i)) [
  | inl here ↦
      let same : x ≡ r = ground (arith, here) in
      ground (arith, same, none_selected i p rs by_key (ground (arith, here, u.0)))
  | inr there ↦ elim (Bool-cases (p x)) [
    | inl passed ↦ absurd (ground (arith, there, by_key x passed))
    | inr dropped ↦ ground (arith, there, dropped, one_selected i p rs {r = r} u.1 by_key)
  ]
]

-- A query that selects by key, and by what else it asks for, gives the row of the key if that passes.
pub selected-cases :
    {R : Type 0} ⦃k : Keyed R⦄ (i : ℕ) (p : R → Bool) (rs : List R)
    → Unique rs
    → ((q : R) → p q ≡ true → key_of q ≡ i)
    → ((r : R) × ((get_row i rs ≡ some r)
          × (p r ≡ true)
          × (scalar_one_or_none (where_rows p rs) ≡ ok (some r))))
      ⊎ (((r : R) → get_row i rs ≡ some r → p r ≡ false)
          × (scalar_one_or_none (where_rows p rs) ≡ ok none))
selected-cases i p rs u by_key = elim (Option-cases (get_row i rs)) [
  | inl missing ↦ inr (
    λ r found. absurd (ground (arith, missing, found)),
    rw (none_selected i p rs by_key missing) refl,
  )
  | inr (r, found) ↦
      let one = one_selected i p rs {r = r} u by_key found in
      elim (Bool-cases (p r)) [
        | inl passed ↦ inl (r, (found, passed, ground (arith, one, passed)))
        | inr dropped ↦ inr (
          λ q at. subst (λ x. p x ≡ false) (ground (arith, found, at)) dropped,
          ground (arith, one, dropped),
        )
      ]
]
