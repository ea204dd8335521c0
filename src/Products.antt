-- ===== src/Products.antt =====
-- app/services/product_service.py: the products of a shop bot.
use kasb_o_kar_hoshmand.Base.{
  ℕ, String, Bool, true, false, ◌&&◌, Option, some, List, [], ◌∷◌, ◌++◌, ◌==◌, ◌≡◌, subst, All,
  where_rows, where_rows_pass, sort_on, arith,
}
use kasb_o_kar_hoshmand.Base.Table.{get_row, save, next_key}
use kasb_o_kar_hoshmand.Models.{
  Product-Keyed, Product, Db, Result, ok, scalar_one_or_none, scalar_one,
}

unfoldable pub create_product :
    ℕ → String → Option String → ℕ → Option String → Option ℕ → Db → Product × Db
create_product shop_bot_id name description price_toman photo_file_id stock_quantity db =
    let p : Product = record {
      id = next_key db.products;
      shop_bot_id = shop_bot_id;
      name = name;
      description = description;
      price_toman = price_toman;
      photo_file_id = photo_file_id;
      stock_quantity = stock_quantity;
      reserved_quantity = 0;
      is_active = true;
    } in
    (p, record db { products = db.products ++ p ∷ [] })

unfoldable pub get_active_by_shop_bot : ℕ → Db → List Product
get_active_by_shop_bot shop_bot_id db =
    sort_on (λ p. p.id) (where_rows (λ p. p.shop_bot_id == shop_bot_id && p.is_active) db.products)

unfoldable pub get_by_id : ℕ → Db → Option Product
get_by_id product_id db = get_row product_id db.products

abbrev pub is_owned : ℕ → ℕ → Product → Bool
is_owned product_id shop_bot_id p = p.id == product_id && p.shop_bot_id == shop_bot_id

unfoldable pub get_owned_by_id : ℕ → ℕ → Db → Result (Option Product)
get_owned_by_id product_id shop_bot_id db =
    scalar_one_or_none (where_rows (is_owned product_id shop_bot_id) db.products)

unfoldable pub soft_delete : Product → Db → Db
soft_delete p db = record db { products = save (record p { is_active = false }) db.products }

-- A product that a shop is given by its id is that product and belongs to the shop.
pub get_owned_by_id_owned :
    (product_id shop_bot_id : ℕ) (db : Db) {p : Product}
    → get_owned_by_id product_id shop_bot_id db ≡ ok (some p)
    → (p.id ≡ product_id) × (p.shop_bot_id ≡ shop_bot_id)
unfolding get_owned_by_id
get_owned_by_id_owned product_id shop_bot_id db {p} e =
    let passed =
      (subst (All (λ q. is_owned product_id shop_bot_id q ≡ true)) (scalar_one _ e)
        (where_rows_pass (is_owned product_id shop_bot_id) db.products)).0 in
    ground (arith, passed)
