-- ===== src/Orders/Query.antt =====
-- The queries of app/services/order_service.py.
use mathlib.Core.List.{reverse}
use kasb_o_kar_hoshmand.Base.{
  ℕ, ◌+◌, String, Bool, true, false, ◌&&◌, Option, List, map, ltb, ◌==◌, where_rows, sort_on,
  head_of, same_id, length,
}
use kasb_o_kar_hoshmand.Base.Time.{Instant, minutes}
use kasb_o_kar_hoshmand.Base.Table.{get_row}
use kasb_o_kar_hoshmand.Models.{
  OrderConsultation-Keyed, OrderConsultation, OrderType, Db, Result, scalar_one_or_none,
}

abbrev pub same_type : OrderType → OrderType → Bool
same_type OrderType.order OrderType.order = true
same_type OrderType.consultation OrderType.consultation = true
same_type _ _ = false

-- `created_at > now - minutes`, the customer, the type and the product
abbrev pub is_duplicate : Instant → ℕ → OrderType → Option ℕ → ℕ → OrderConsultation → Bool
is_duplicate now customer_id type product_id window o =
    o.customer_id == customer_id
    && (ltb now (o.created_at + minutes window)
        && (same_type o.type type && same_id o.product_id product_id))

unfoldable pub get_recent_duplicate :
    Instant → ℕ → OrderType → Option ℕ → ℕ → Db → Option OrderConsultation
get_recent_duplicate now customer_id type product_id window db = head_of (
    reverse (
      sort_on (λ o. o.id)
        (where_rows (is_duplicate now customer_id type product_id window) db.orders)))

unfoldable pub get_by_id : ℕ → Db → Option OrderConsultation
get_by_id order_id db = get_row order_id db.orders

unfoldable pub get_owned_by_id : ℕ → ℕ → Db → Result (Option OrderConsultation)
get_owned_by_id order_id shop_bot_id db =
    scalar_one_or_none
      (where_rows (λ o. o.id == order_id && o.shop_bot_id == shop_bot_id) db.orders)

-- how many orders and how many consultations a shop has
unfoldable pub count_by_type : ℕ → Db → ℕ × ℕ
count_by_type shop_bot_id db =
    let of_type = λ (type : OrderType).
      length (where_rows (λ o. o.shop_bot_id == shop_bot_id && same_type o.type type) db.orders) in
    (of_type OrderType.order, of_type OrderType.consultation)

unfoldable pub get_recent_summaries : ℕ → Instant → Db → List String
get_recent_summaries shop_bot_id since db =
    map (λ o. o.summary)
      (where_rows (λ o. o.shop_bot_id == shop_bot_id && ltb since o.created_at) db.orders)
