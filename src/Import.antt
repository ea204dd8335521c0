-- ===== src/Import.antt =====
-- app/services/excel_import_service.py, and the handlers of app/bots/main_bot/handlers/products.py
-- that use it: many products at once from a sheet. openpyxl is a parameter: it gives the rows of a
-- file after the header, each cell with the text that `str` gives for it (a whole float without its
-- point), or nothing for an empty cell.
pub mod Listed
pub mod Handlers
mod Examples
use kasb_o_kar_hoshmand.Base.{
  ℕ, zero, suc, ◌+◌, String, Bool, true, false, ◌&&◌, not, Option, none, some, List, [], ◌∷◌, ◌++◌,
  ltb, ◌==◌, if◌then◌else◌, length,
}
use kasb_o_kar_hoshmand.Base.Texts.{same_text}
use kasb_o_kar_hoshmand.Base.Chars.{codes, Unicode}
use kasb_o_kar_hoshmand.Base.Strings.{stripped}
use kasb_o_kar_hoshmand.Models.{Product, Db, Result, ok, raised, ◌>>=◌}
use kasb_o_kar_hoshmand.Validators.{clean, is_digits, to_int, parse_price_toman}
use kasb_o_kar_hoshmand.Products.{create_product}

abbrev pub Cell : Type 0
Cell = Option String

abbrev pub Row : Type 0
Row = List Cell

-- a valid row
pub record NewProduct : Type 0 where
  pub name : String
  pub description : Option String
  pub price_toman : ℕ
  pub stock_quantity : Option ℕ

pub data RowError : Type 0 where
  no_name long_name no_price bad_price bad_stock : RowError

-- What a row comes to.
pub data RowResult : Type 0 where
  blank : RowResult
  valid : NewProduct → RowResult
  wrong : RowError → RowResult

pub record ParseResult : Type 0 where
  pub valid_rows : List NewProduct
  pub errors : List (ℕ × RowError)
  pub too_many_rows : Bool

abbrev pub max_import_rows : ℕ
max_import_rows = 500

-- the cell of a column, where a row that is too short is filled with empty cells
abbrev pub cell_at : ℕ → Row → Cell
cell_at n [] = none
cell_at zero (c ∷ cs) = c
cell_at (suc n) (c ∷ cs) = cell_at n cs

abbrev pub is_empty : String → Bool
is_empty s = same_text s ""

abbrev pub or_none : String → Option String
or_none s = if is_empty s then none else some s

-- a stock that is given has to be a number
abbrev pub with_stock : String → String → ℕ → Option (Option ℕ) → RowResult
with_stock name description price none = wrong bad_stock
with_stock name description price (some stock) = valid (record {
  name = name;
  description = or_none description;
  price_toman = price;
  stock_quantity = stock;
})

abbrev pub too_many : ParseResult
too_many = record { valid_rows = []; errors = []; too_many_rows = true }

module _ (u : Unicode) where
  abbrev pub cell_str : Cell → String
  cell_str none = ""
  cell_str (some s) = stripped u s

  unfoldable pub parse_stock : String → Result (Option ℕ)
  parse_stock raw =
      let cleaned = clean u (codes raw) in
      if is_digits u cleaned then (do n ← to_int u cleaned; ok (some n)) else ok none

  -- a stock that is given and no number is wrong
  unfoldable pub row_stock : String → Result (Option (Option ℕ))
  unfolding parse_stock
  row_stock raw =
      if is_empty raw
      then ok (some none)
      else (do found ← parse_stock raw; ok (elim found [ none ↦ none | some n ↦ some (some n) ]))

  abbrev pub with_price : String → String → String → Option ℕ → Result RowResult
  with_price name description stock none = ok (wrong bad_price)
  with_price name description stock (some price) = do
    found ← row_stock stock
    ok (with_stock name description price found)

  unfoldable pub parse_row : Row → Result RowResult
  unfolding row_stock
  parse_row row =
      let name = cell_str (cell_at 0 row) in
      let description = cell_str (cell_at 1 row) in
      let price = cell_str (cell_at 2 row) in
      let stock = cell_str (cell_at 3 row) in
      if is_empty name && (is_empty description && (is_empty price && is_empty stock))
      then ok blank
      else if is_empty name
      then ok (wrong no_name)
      else if ltb 255 (length (codes name))
      then ok (wrong long_name)
      else if is_empty price
      then ok (wrong no_price)
      else (do found ← parse_price_toman u (codes price); with_price name description stock found)

  -- the loop over the rows, with what was gathered and how many rows were not blank
  unfoldable pub scan :
      List Row → ℕ → ℕ → List NewProduct → List (ℕ × RowError) → Result ParseResult
  scan [] row_number processed valids errors =
      ok (record { valid_rows = valids; errors = errors; too_many_rows = false })
  scan (row ∷ rows) row_number processed valids errors = elim (parse_row row) [
    | raised e ↦ raised e
    | ok blank ↦ scan rows (row_number + 1) processed valids errors
    | ok (valid p) ↦
        let rest = scan rows (row_number + 1) (processed + 1) (valids ++ p ∷ []) errors in
        if ltb max_import_rows (processed + 1) then ok too_many else rest
    | ok (wrong e) ↦
        let rest =
          scan rows (row_number + 1) (processed + 1) valids (errors ++ (row_number, e) ∷ []) in
        if ltb max_import_rows (processed + 1) then ok too_many else rest
  ]

  -- the rows of a sheet, numbered from the second
  unfoldable pub parse_workbook : List Row → Result ParseResult
  unfolding scan parse_row
  parse_workbook rows = scan rows 2 0 [] []

-- every valid row becomes a product
unfoldable pub bulk_create : ℕ → List NewProduct → Db → List Product × Db
bulk_create shop_bot_id [] db = ([], db)
bulk_create shop_bot_id (r ∷ rs) db =
    let (p, db1) =
      create_product shop_bot_id r.name r.description r.price_toman none r.stock_quantity db in
    let (ps, db2) = bulk_create shop_bot_id rs db1 in (p ∷ ps, db2)
