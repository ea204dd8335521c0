-- ===== src/Import/Examples.antt =====
-- Runs of the import of a sheet.
use kasb_o_kar_hoshmand.Base.{◌≡◌, refl, none, some, List, [], ◌∷◌}
use kasb_o_kar_hoshmand.Models.{ok}
use kasb_o_kar_hoshmand.Import.{
  Row, RowResult, NewProduct, blank, valid, wrong, no_price, parse_row, parse_workbook,
}
use kasb_o_kar_hoshmand.Import.Listed.{Parses, listed, parse_workbook_exact}
use kasb_o_kar_hoshmand.Samples.{ascii}

-- a product, an empty row, and a product without a price
abbrev rows : List Row
rows =
    (some "shirt" ∷ some "cotton" ∷ some "900" ∷ some "10" ∷ [])
    ∷ (none ∷ none ∷ [])
    ∷ (some "hat" ∷ none ∷ none ∷ none ∷ [])
    ∷ []

abbrev first_product : NewProduct
first_product = record {
  name = "shirt";
  description = some "cotton";
  price_toman = 900;
  stock_quantity = some 10;
}

abbrev results : List RowResult
results = valid first_product ∷ blank ∷ wrong no_price ∷ []

results_of : Parses ascii rows results
unfolding kasb_o_kar_hoshmand.Import.parse_row kasb_o_kar_hoshmand.Import.parse_stock
    kasb_o_kar_hoshmand.Import.row_stock kasb_o_kar_hoshmand.Validators.parse_price_toman
results_of = (refl, (refl, (refl, tt)))

parse_workbook_exact_example : parse_workbook ascii rows ≡ ok (listed 2 0 [] [] results)
parse_workbook_exact_example = parse_workbook_exact ascii rows results results_of
