-- ===== src/Base/Table.antt =====
-- A database table: its rows, each with an integer primary key.
-- A query by key gives the row (`session.get`); an attribute assignment on a loaded object, which
-- the session's identity map ties to the row of its key, is `save` of the changed object; a flush
-- of a new object appends it under the next key.
use Prim.Native.Nat.{ℕ, suc, ◌+◌, ◌≤◌, max}
use mathlib.Core.Path.{◌≡◌, refl}
use mathlib.Core.Logic.{◌≢◌}
use mathlib.Core.Bool.{Bool}
use mathlib.Core.List.{List, [], ◌∷◌, ◌++◌}
use mathlib.Core.Option.{Option, none, some}
use native.Mathlib.Omega.{arith}
use kasb_o_kar_hoshmand.Base.Tests.{◌==◌, if◌then◌else◌, is_some}
use kasb_o_kar_hoshmand.Base.Lists.{sum_of, All, where_rows, insert_on, sort_on}

-- The interface of a mapped class: where its primary key stands.
pub record Keyed {ℓ} (R : Type ℓ) : Type ℓ where
  pub key : R → ℕ

abbrev pub key_of {ℓ} : {R : Type ℓ} ⦃k : Keyed R⦄ → R → ℕ
key_of ⦃k⦄ = k.key

-- Rows are plain data, so they live in `Type 0`.
module _ {R : Type 0} ⦃k : Keyed R⦄ where
  -- `session.get(R, i)`
  abbrev pub get_row : ℕ → List R → Option R
  get_row i [] = none
  get_row i (r ∷ rs) = if k.key r == i then some r else get_row i rs

  -- the row of the key of `r` becomes `r`
  abbrev pub save : R → List R → List R
  save r [] = []
  save r (x ∷ rs) = if k.key x == k.key r then r ∷ rs else x ∷ save r rs

  -- `DELETE` of the row with a key
  abbrev pub delete_row : ℕ → List R → List R
  delete_row i [] = []
  delete_row i (r ∷ rs) = if k.key r == i then rs else r ∷ delete_row i rs

  -- the key that the sequence gives next: above every key in use
  abbrev pub next_key : List R → ℕ
  next_key [] = 1
  next_key (r ∷ rs) = max (suc (k.key r)) (next_key rs)

  -- No key stands twice.
  abbrev pub Unique : List R → Type 0
  Unique [] = Unit
  Unique (r ∷ rs) = (get_row (k.key r) rs ≡ none) × Unique rs

  pub get_row-key : (i : ℕ) (rs : List R) {r : R} → get_row i rs ≡ some r → k.key r ≡ i
  get_row-key i [] h = cc
  get_row-key i (x ∷ rs) {r} h = ground (arith, get_row-key i rs {r = r})

  pub get_row-save :
      (i : ℕ) (r : R) (rs : List R)
      → get_row i (save r rs)
        ≡ (if k.key r == i then (if is_some (get_row i rs) then some r else none) else get_row i rs)
  get_row-save i r [] = ground arith
  get_row-save i r (x ∷ rs) = ground (arith, get_row-save i r rs)

  pub get_row-save_self :
      (r : R) (rs : List R) {r' : R}
      → get_row (k.key r) rs ≡ some r'
      → get_row (k.key r) (save r rs) ≡ some r
  get_row-save_self r rs h = ground (arith, get_row-save (k.key r) r rs)

  pub get_row-save_ne :
      (i : ℕ) (r : R) (rs : List R) → k.key r ≢ i → get_row i (save r rs) ≡ get_row i rs
  get_row-save_ne i r rs h = ground (arith, get_row-save i r rs)

  pub get_row-save_missing :
      (i : ℕ) (r : R) (rs : List R) → get_row i rs ≡ none → get_row i (save r rs) ≡ none
  get_row-save_missing i r rs h = ground (arith, get_row-save i r rs)

  pub save-Unique : (r : R) (rs : List R) → Unique rs → Unique (save r rs)
  save-Unique r [] h = tt
  save-Unique r (x ∷ rs) h =
      ground (arith, get_row-save_missing (k.key x) r rs h.0, save-Unique r rs h.1)

  -- A save moves a sum over the rows by the difference at the saved row.
  pub sum_of-save :
      (f : R → ℕ) (r r' : R) (rs : List R)
      → get_row (k.key r') rs ≡ some r
      → sum_of f (save r' rs) + f r ≡ sum_of f rs + f r'
  sum_of-save f r r' [] h = cc
  sum_of-save f r r' (x ∷ rs) h = ground (arith, sum_of-save f r r' rs)

  pub get_row-next_key : (i : ℕ) (rs : List R) → next_key rs ≤ i → get_row i rs ≡ none
  get_row-next_key i [] h = refl
  get_row-next_key i (x ∷ rs) h = ground (arith, get_row-next_key i rs)

  pub get_row-append :
      (i : ℕ) (rs : List R) (r : R)
      → get_row i (rs ++ r ∷ [])
        ≡ (if is_some (get_row i rs) then get_row i rs else if k.key r == i then some r else none)
  get_row-append i [] r = ground arith
  get_row-append i (x ∷ rs) r = ground (arith, get_row-append i rs r)

  pub get_row-append_ne :
      (i : ℕ) (rs : List R) (r : R) → k.key r ≢ i → get_row i (rs ++ r ∷ []) ≡ get_row i rs
  get_row-append_ne i [] r h = ground arith
  get_row-append_ne i (x ∷ rs) r h = ground (arith, get_row-append_ne i rs r)

  pub append-Unique :
      (rs : List R) (r : R) → Unique rs → get_row (k.key r) rs ≡ none → Unique (rs ++ r ∷ [])
  append-Unique [] r h n = (refl, tt)
  append-Unique (x ∷ rs) r h n = ground (
    arith,
    get_row-append (k.key x) rs r,
    append-Unique rs r h.1,
    get_row-append_ne (k.key x) rs r,
  )

  -- Every row of `cs` stands in the table `rs`.
  abbrev pub Rows : List R → List R → Type 0
  Rows rs cs = All (λ c. get_row (k.key c) rs ≡ some c) cs

  pub get_row-where_rows :
      (i : ℕ) (p : R → Bool) (rs : List R)
      → get_row i rs ≡ none
      → get_row i (where_rows p rs) ≡ none
  get_row-where_rows i p [] h = refl
  get_row-where_rows i p (x ∷ rs) h = ground (arith, get_row-where_rows i p rs)

  pub where_rows-Unique : (p : R → Bool) (rs : List R) → Unique rs → Unique (where_rows p rs)
  where_rows-Unique p [] h = tt
  where_rows-Unique p (x ∷ rs) h =
      ground (arith, get_row-where_rows (k.key x) p rs h.0, where_rows-Unique p rs h.1)

  get_row-insert_on :
      (i : ℕ) (f : R → ℕ) (r : R) (rs : List R)
      → k.key r ≢ i
      → get_row i rs ≡ none
      → get_row i (insert_on f r rs) ≡ none
  get_row-insert_on i f r [] n h = ground arith
  get_row-insert_on i f r (x ∷ rs) n h = ground (arith, get_row-insert_on i f r rs n)

  insert_on-Unique :
      (f : R → ℕ) (r : R) (rs : List R)
      → get_row (k.key r) rs ≡ none
      → Unique rs
      → Unique (insert_on f r rs)
  insert_on-Unique f r [] n h = (refl, tt)
  insert_on-Unique f r (x ∷ rs) n h =
      ground (arith, get_row-insert_on (k.key x) f r rs, insert_on-Unique f r rs)

  get_row-sort_on :
      (i : ℕ) (f : R → ℕ) (rs : List R) → get_row i rs ≡ none → get_row i (sort_on f rs) ≡ none
  get_row-sort_on i f [] h = refl
  get_row-sort_on i f (x ∷ rs) h =
      ground (arith, get_row-sort_on i f rs, get_row-insert_on i f x (sort_on f rs))

  pub sort_on-Unique : (f : R → ℕ) (rs : List R) → Unique rs → Unique (sort_on f rs)
  sort_on-Unique f [] h = tt
  sort_on-Unique f (x ∷ rs) h =
      insert_on-Unique f x (sort_on f rs) (get_row-sort_on (k.key x) f rs h.0)
        (sort_on-Unique f rs h.1)

  -- The other rows of a list stay in the table when a row of another key is saved.
  pub Rows-save :
      (r : R) (rs cs : List R) → get_row (k.key r) cs ≡ none → Rows rs cs → Rows (save r rs) cs
  Rows-save r rs [] n h = tt
  Rows-save r rs (c ∷ cs) n h = ground (arith, get_row-save_ne (k.key c) r rs, Rows-save r rs cs)

  Rows-cons : (x : R) (rs cs : List R) → get_row (k.key x) cs ≡ none → Rows rs cs → Rows (x ∷ rs) cs
  Rows-cons x rs [] n h = tt
  Rows-cons x rs (c ∷ cs) n h = ground (arith, Rows-cons x rs cs)

  -- In a table with unique keys every row is found by its key.
  pub Rows-self : (rs : List R) → Unique rs → Rows rs rs
  Rows-self [] h = tt
  Rows-self (x ∷ rs) h = (ground arith, Rows-cons x rs rs h.0 (Rows-self rs h.1))
