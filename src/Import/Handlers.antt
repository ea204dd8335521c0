-- ===== src/Import/Handlers.antt =====
-- The import of a sheet in app/bots/main_bot/handlers/products.py. A chat's state is aiogram's, and
-- stays when a session is rolled back.
use kasb_o_kar_hoshmand.Base.{
  ℕ, Bool, not, ◌*◌, Option, none, some, List, [], ◌∷◌, ltb, if◌then◌else◌,
}
use kasb_o_kar_hoshmand.Base.Chars.{Unicode}
use kasb_o_kar_hoshmand.Models.{Db, Result, ok, raised, telegram_error, ◌>>=◌}
use kasb_o_kar_hoshmand.Panel.Orders.{current_shop_bot}
use kasb_o_kar_hoshmand.Import.{Row, NewProduct, ParseResult, parse_workbook, bulk_create}

abbrev pub max_import_file_bytes : ℕ
max_import_file_bytes = 5 * 1024 * 1024

-- A document: whether its name ends in `.xlsx`, the size that Telegram says, and what the download
-- gives: the bytes' number, and the rows where openpyxl can read them.
pub record Document : Type 0 where
  pub is_xlsx : Bool
  pub file_size : ℕ
  pub content : Option (ℕ × Option (List Row))

pub data ImportStates : Type 0 where
  no_state waiting_file : ImportStates
  waiting_confirmation : List NewProduct → ImportStates

pub data ImportAnswer : Type 0 where
  shop_bot_not_set_up wrong_file_type file_too_large download_failed invalid_file : ImportAnswer
  too_many_rows empty_file no_valid_rows preview : ImportAnswer

-- what an import that was read is answered with
abbrev pub answer_to : ParseResult → ImportStates × ImportAnswer
answer_to r = if r.too_many_rows then (waiting_file, too_many_rows) else (elim r.valid_rows [
  | [] ↦ elim r.errors [ [] ↦ (waiting_file, empty_file) | e ∷ es ↦ (waiting_file, no_valid_rows) ]
  | p ∷ ps ↦ (waiting_confirmation (p ∷ ps), preview)
])

abbrev pub read_rows : Unicode → Option (List Row) → Result (ImportStates × ImportAnswer)
read_rows u none = ok (waiting_file, invalid_file)
read_rows u (some rows) = do r ← parse_workbook u rows; ok (answer_to r)

abbrev pub read_document : Unicode → Document → Result (ImportStates × ImportAnswer)
read_document u d =
    if not d.is_xlsx
    then ok (waiting_file, wrong_file_type)
    else if ltb max_import_file_bytes d.file_size
    then ok (waiting_file, file_too_large)
    else (elim d.content [
      | none ↦ ok (waiting_file, download_failed)
      | some (bytes, rows) ↦
          if ltb max_import_file_bytes bytes
          then ok (waiting_file, file_too_large)
          else read_rows u rows
    ])

unfoldable pub receive_import_file :
    Unicode → ℕ → Document → Db → Result (ImportStates × ImportAnswer)
receive_import_file u telegram_id d db = do
  shop_bot ← current_shop_bot telegram_id db
  elim shop_bot [ none ↦ ok (no_state, shop_bot_not_set_up) | some b ↦ read_document u d ]

-- the rows that wait for the confirmation become products; `answers` says whether Telegram takes the
-- answer
unfoldable pub cb_product_bulk_import_confirm :
    Bool → ℕ → List NewProduct → Db → Result (ImportStates × Db)
cb_product_bulk_import_confirm answers telegram_id rows db = do
  shop_bot ← current_shop_bot telegram_id db
  let db1 : Db = elim shop_bot [ none ↦ db | some b ↦ (bulk_create b.id rows db).1 ]
  if answers then ok (no_state, db1) else raised telegram_error
