-- ===== src/Orders/Create.antt =====
-- `create_order`, `create_order_awaiting_confirmation` and the reservation of stock that
-- `create_order` and `customer_confirm_order` share, in app/services/order_service.py.
use kasb_o_kar_hoshmand.Base.{
  ℕ, ◌+◌, String, true, false, Option, none, some, [], ◌∷◌, ◌++◌, leb, if◌then◌else◌, or_default,
}
use kasb_o_kar_hoshmand.Base.Int.{ℤ}
use kasb_o_kar_hoshmand.Base.Time.{Instant, minutes}
use kasb_o_kar_hoshmand.Base.Table.{get_row, save, next_key}
use kasb_o_kar_hoshmand.Models.{
  Product-Keyed, OrderConsultation-Keyed, OrderConsultation, OrderType, OrderStatus, Product, Db,
}
use kasb_o_kar_hoshmand.Settings.{get_admin_settings}

-- `order.quantity or 1`
abbrev pub qty_of : OrderConsultation → ℕ
qty_of o = or_default o.quantity 1

-- `product.reserved_quantity += qty` and the two fields of the order; `available >= qty` for
-- `available = stock - reserved` reads `reserved + qty <= stock` over the naturals
unfoldable pub hold_stock : Instant → OrderConsultation → Product → ℕ → Db → OrderConsultation × Db
hold_stock now o p stock db =
    if leb (p.reserved_quantity + qty_of o) stock
    then (let (settings, db1) = get_admin_settings db in
        let held = record o {
          stock_reserved = true;
          reservation_expires_at = some (now + minutes settings.order_reservation_minutes);
        } in
        (
          held,
          record db1 {
            products =
                save (record p { reserved_quantity = p.reserved_quantity + qty_of o }) db1.products;
            orders = save held db1.orders;
          },
        ))
    else (o, db)

-- the product of an order, where it has one whose stock is counted
unfoldable pub stocked_product : OrderConsultation → Db → Option (Product × ℕ)
stocked_product o db = elim o.product_id [
  | none ↦ none
  | some product_id ↦ elim (get_row product_id db.products) [
    | none ↦ none
    | some p ↦ elim p.stock_quantity [ none ↦ none | some stock ↦ some (p, stock) ]
  ]
]

unfoldable pub reserve_stock : Instant → OrderConsultation → Db → OrderConsultation × Db
reserve_stock now o db = elim (stocked_product o db) [
  | none ↦ (o, db)
  | some (p, stock) ↦ hold_stock now o p stock db
]

unfoldable pub new_order :
    Instant
    → ℕ
    → ℕ
    → ℕ
    → OrderType
    → String
    → Option ℤ
    → Option ℕ
    → Option ℕ
    → Option String
    → Option String
    → OrderStatus
    → OrderConsultation
new_order now id shop_bot_id customer_id type summary value product_id quantity phone address
      status =
    record {
      id = id;
      shop_bot_id = shop_bot_id;
      customer_id = customer_id;
      type = type;
      summary = summary;
      estimated_value_toman = value;
      product_id = product_id;
      quantity = quantity;
      customer_phone = phone;
      customer_address = address;
      confirmed = false;
      confirmed_at = none;
      status = status;
      stock_reserved = false;
      reservation_expires_at = none;
      created_at = now;
    }

unfoldable pub add_order : OrderConsultation → Db → Db
add_order o db = record db { orders = db.orders ++ o ∷ [] }

unfoldable pub create_order :
    Instant
    → ℕ
    → ℕ
    → OrderType
    → String
    → Option ℤ
    → Option ℕ
    → Option ℕ
    → Db
    → OrderConsultation × Db
create_order now shop_bot_id customer_id type summary value product_id quantity db =
    let o =
      new_order now (next_key db.orders) shop_bot_id customer_id type summary value product_id
        quantity none none OrderStatus.pending in
    reserve_stock now o (add_order o db)

unfoldable pub create_order_awaiting_confirmation :
    Instant
    → ℕ
    → ℕ
    → OrderType
    → String
    → Option ℤ
    → Option ℕ
    → Option ℕ
    → Option String
    → Option String
    → Db
    → OrderConsultation × Db
create_order_awaiting_confirmation now shop_bot_id customer_id type summary value product_id
      quantity phone address db =
    let o =
      new_order now (next_key db.orders) shop_bot_id customer_id type summary value product_id
        quantity phone address OrderStatus.awaiting_customer_confirmation in
    (o, add_order o db)
