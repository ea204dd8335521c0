-- ===== src/Import/Listed.antt =====
-- A sheet of app/services/excel_import_service.py against the list of what its rows come to.
use mathlib.Core.List.{append_assoc, append-nil}
use kasb_o_kar_hoshmand.Base.{
  ℕ, suc, ◌+◌, ◌≤◌, ◌≡◌, inl, inr, false, List, [], ◌∷◌, ◌++◌, ltb, if◌then◌else◌, arith,
  Bool-cases,
}
use kasb_o_kar_hoshmand.Base.Chars.{Unicode}
use kasb_o_kar_hoshmand.Models.{ok}
use kasb_o_kar_hoshmand.Import.{
  Row, NewProduct, RowError, RowResult, blank, valid, wrong, ParseResult, max_import_rows,
  parse_row, too_many, scan, parse_workbook,
}

-- what each of the rows comes to; none of them raises
abbrev pub Parses : Unicode → List Row → List RowResult → Type 0
Parses u [] [] = Unit
Parses u [] (o ∷ os) = ⊥
Parses u (row ∷ rows) [] = ⊥
Parses u (row ∷ rows) (o ∷ os) = (parse_row u row ≡ ok o) × Parses u rows os

abbrev pub valid_of : List RowResult → List NewProduct
valid_of [] = []
valid_of (blank ∷ os) = valid_of os
valid_of (valid p ∷ os) = p ∷ valid_of os
valid_of (wrong e ∷ os) = valid_of os

-- the errors, with the numbers of their rows
abbrev pub errors_of : ℕ → List RowResult → List (ℕ × RowError)
errors_of n [] = []
errors_of n (blank ∷ os) = errors_of (n + 1) os
errors_of n (valid p ∷ os) = errors_of (n + 1) os
errors_of n (wrong e ∷ os) = (n, e) ∷ errors_of (n + 1) os

abbrev pub filled : List RowResult → ℕ
filled [] = 0
filled (blank ∷ os) = filled os
filled (valid p ∷ os) = suc (filled os)
filled (wrong e ∷ os) = suc (filled os)

abbrev pub listed : ℕ → ℕ → List NewProduct → List (ℕ × RowError) → List RowResult → ParseResult
listed n processed valids errors os =
    if ltb max_import_rows (processed + filled os) then too_many else record {
      valid_rows = valids ++ valid_of os;
      errors = errors ++ errors_of n os;
      too_many_rows = false;
    }

scan_exact :
    (u : Unicode) (rows : List Row) (os : List RowResult) (n processed : ℕ)
    (valids : List NewProduct) (errors : List (ℕ × RowError))
    → processed ≤ max_import_rows
    → Parses u rows os
    → scan u rows n processed valids errors ≡ ok (listed n processed valids errors os)
unfolding scan
scan_exact u [] [] n processed valids errors le h =
    ground (arith, append-nil valids, append-nil errors)
scan_exact u [] (o ∷ os) n processed valids errors le h = absurd h
scan_exact u (row ∷ rows) [] n processed valids errors le h = absurd h
scan_exact u (row ∷ rows) (blank ∷ os) n processed valids errors le h =
    rw (h.0, scan) (scan_exact u rows os (n + 1) processed valids errors le h.1)
scan_exact u (row ∷ rows) (valid p ∷ os) n processed valids errors le h =
    elim (Bool-cases (ltb max_import_rows (processed + 1))) [
      | inl full ↦ ground (arith, h.0, full)
      | inr room ↦ ground (
        arith,
        h.0,
        room,
        append_assoc valids (p ∷ []) (valid_of os),
        scan_exact u rows os (n + 1) (processed + 1) (valids ++ p ∷ []) errors,
      )
    ]
scan_exact u (row ∷ rows) (wrong e ∷ os) n processed valids errors le h =
    elim (Bool-cases (ltb max_import_rows (processed + 1))) [
      | inl full ↦ ground (arith, h.0, full)
      | inr room ↦ ground (
        arith,
        h.0,
        room,
        append_assoc errors ((n, e) ∷ []) (errors_of (n + 1) os),
        scan_exact u rows os (n + 1) (processed + 1) valids (errors ++ (n, e) ∷ []),
      )
    ]

-- A sheet whose rows all parse gives its valid rows in their order, and the errors with the numbers of
-- their rows, counted from 2; blank rows are passed over. Where more than 500 rows are not blank,
-- nothing is given but that there are too many.
pub parse_workbook_exact :
    (u : Unicode) (rows : List Row) (os : List RowResult)
    → Parses u rows os
    → parse_workbook u rows ≡ ok (listed 2 0 [] [] os)
unfolding parse_workbook
parse_workbook_exact u rows os h = scan_exact u rows os 2 0 [] [] (omega arith) h
