-- ===== src/Orders/Reserved/Kept.antt =====
-- The reservation rule under a step of any operation on orders.
use kasb_o_kar_hoshmand.Base.{
  ℕ, ◌+◌, ◌≡◌, refl, inl, inr, String, true, false, Option, none, some, arith, leb, Option-cases,
  Bool-cases,
}
use kasb_o_kar_hoshmand.Base.Int.{ℤ}
use kasb_o_kar_hoshmand.Base.Time.{Instant, minutes}
use kasb_o_kar_hoshmand.Base.Table.{get_row, next_key, get_row-append, get_row-next_key}
use kasb_o_kar_hoshmand.Models.{
  Product-Keyed, OrderConsultation-Keyed, OrderConsultation, OrderStatus, OrderType, Product, Db,
}
use kasb_o_kar_hoshmand.Settings.{get_admin_settings, get_admin_settings_keeps}
use kasb_o_kar_hoshmand.Orders.Create.{
  qty_of, hold_stock, stocked_product, reserve_stock, new_order, add_order, create_order,
  create_order_awaiting_confirmation,
}
use kasb_o_kar_hoshmand.Orders.Owner.{is_pending}
use kasb_o_kar_hoshmand.Orders.Reserved.{
  IsReserved, ReservedAt-move, PendingAt-save, ReservedAt-append, PendingAt-append,
}

-- The product that an order with counted stock names.
pub stocked_product_found :
    (o : OrderConsultation) (db : Db) {p : Product} {stock : ℕ}
    → stocked_product o db ≡ some (p, stock)
    → (j : ℕ) × (o.product_id ≡ some j)
      × (get_row j db.products ≡ some p)
      × (p.stock_quantity ≡ some stock)
unfolding stocked_product
stocked_product_found o db {p} {stock} e = elim (Option-cases o.product_id) [
  | inl unnamed ↦ absurd (ground (arith, unnamed))
  | inr (j, named) ↦ (j, named, ground (arith, named), ground (arith, named))
]

hold_stock-IsReserved :
    (now : Instant) (o : OrderConsultation) (j : ℕ) (p : Product) (stock : ℕ) (db : Db)
    → get_row o.id db.orders ≡ some o
    → o.stock_reserved ≡ false
    → is_pending o.status ≡ true
    → o.product_id ≡ some j
    → get_row j db.products ≡ some p
    → p.stock_quantity ≡ some stock
    → IsReserved db
    → IsReserved (hold_stock now o p stock db).1
unfolding hold_stock
hold_stock-IsReserved now o j p stock db fo free pend named fp counted h =
    elim (Bool-cases (leb (p.reserved_quantity + qty_of o) stock)) [
      | inl room ↦
          rw (room, get_admin_settings_keeps)
            (record {
              reserved = λ i.
                  ReservedAt-move i j p
                    (record p { reserved_quantity = p.reserved_quantity + qty_of o }) o
                    (record o {
                      stock_reserved = true;
                      reservation_expires_at =
                          some (now + minutes (get_admin_settings db).0.order_reservation_minutes);
                    })
                    db.products db.orders fp refl fo refl named named
                    (λ s. ground (arith, free, named, counted)) (h.reserved i);
              pending = λ i. PendingAt-save i _ db.orders (λ _. pend) (h.pending i);
            })
      | inr full ↦ rw full h
    ]

-- An order that holds nothing, and is pending, may take a reservation.
pub reserve_stock-IsReserved :
    (now : Instant) (o : OrderConsultation) (db : Db)
    → get_row o.id db.orders ≡ some o
    → o.stock_reserved ≡ false
    → is_pending o.status ≡ true
    → IsReserved db
    → IsReserved (reserve_stock now o db).1
unfolding reserve_stock
reserve_stock-IsReserved now o db fo free pend h = elim (Option-cases (stocked_product o db)) [
  | inl unstocked ↦ rw (unstocked, reserve_stock) h
  | inr ((p, stock), found) ↦
      let (j, named, fp, counted) = stocked_product_found o db found in
      rw (found, reserve_stock)
        (hold_stock-IsReserved now o j p stock db fo free pend named fp counted h)
]

add_order-IsReserved :
    (o : OrderConsultation) (db : Db)
    → o.stock_reserved ≡ false
    → IsReserved db
    → IsReserved (add_order o db)
unfolding add_order
add_order-IsReserved o db free h = record {
  reserved = λ i. ReservedAt-append i o db.products db.orders free (h.reserved i);
  pending = λ i. PendingAt-append i o db.orders free (h.pending i);
}

-- A new order keeps the reservation rule, whether or not it gets its stock.
pub create_order-IsReserved :
    (now : Instant) (shop_bot_id customer_id : ℕ) (type : OrderType) (summary : String)
    (value : Option ℤ) (product_id quantity : Option ℕ) (db : Db)
    → IsReserved db
    → IsReserved
        (create_order now shop_bot_id customer_id type summary value product_id quantity db).1
unfolding create_order new_order add_order
create_order-IsReserved now shop_bot_id customer_id type summary value product_id quantity db h =
    let o =
      new_order now (next_key db.orders) shop_bot_id customer_id type summary value product_id
        quantity none none OrderStatus.pending in
    reserve_stock-IsReserved now o (add_order o db)
      (ground (arith, get_row-append o.id db.orders o, get_row-next_key o.id db.orders)) refl refl
      (add_order-IsReserved o db refl h)

pub create_order_awaiting_confirmation-IsReserved :
    (now : Instant) (shop_bot_id customer_id : ℕ) (type : OrderType) (summary : String)
    (value : Option ℤ) (product_id quantity : Option ℕ) (phone address : Option String) (db : Db)
    → IsReserved db
    → IsReserved
        (create_order_awaiting_confirmation now shop_bot_id customer_id type summary value
          product_id quantity phone address db).1
unfolding create_order_awaiting_confirmation new_order
create_order_awaiting_confirmation-IsReserved now shop_bot_id customer_id type summary value
      product_id quantity phone address db h =
    add_order-IsReserved _ db refl h
