-- ===== src/Orders/Owner.antt =====
-- The shop owner's side of app/services/order_service.py: confirming, rejecting and advancing an
-- order, and the reservations that run out.
use kasb_o_kar_hoshmand.Base.{
  ◌-◌, Bool, true, false, ◌&&◌, Option, none, some, List, [], ◌∷◌, ltb, if◌then◌else◌, where_rows,
}
use kasb_o_kar_hoshmand.Base.Time.{Instant}
use kasb_o_kar_hoshmand.Base.Table.{get_row, save}
use kasb_o_kar_hoshmand.Models.{
  Product-Keyed, OrderConsultation-Keyed, OrderConsultation, OrderStatus, Db,
}
use kasb_o_kar_hoshmand.Orders.Create.{qty_of, stocked_product}
use kasb_o_kar_hoshmand.Orders.Customer.{is_awaiting, save_order}

abbrev pub is_pending : OrderStatus → Bool
is_pending OrderStatus.pending = true
is_pending _ = false

-- `product.reserved_quantity = max(0, product.reserved_quantity - qty)` for the order's product,
-- if there is one: `-` on ℕ stops at 0
unfoldable pub unreserve : OrderConsultation → Db → Db
unreserve o db = elim o.product_id [
  | none ↦ db
  | some product_id ↦ elim (get_row product_id db.products) [
    | none ↦ db
    | some p ↦ record db {
      products = save (record p { reserved_quantity = p.reserved_quantity - qty_of o }) db.products;
    }
  ]
]

-- `_release_reservation`
unfoldable pub release_reservation : OrderConsultation → Db → OrderConsultation × Db
unfolding unreserve
release_reservation o db =
    if o.stock_reserved
    then (let o1 = record o { stock_reserved = false } in (o1, save_order o1 (unreserve o db)))
    else (o, db)

-- the stock of a confirmed order's product, cut by the quantity
unfoldable pub cut_stock : OrderConsultation → Db → Db
cut_stock o db = elim (stocked_product o db) [
  | none ↦ db
  | some (p, stock) ↦ record db {
    products =
        save
          (record p {
            reserved_quantity =
                if o.stock_reserved then p.reserved_quantity - qty_of o else p.reserved_quantity;
            stock_quantity = some (stock - qty_of o);
          })
          db.products;
  }
]

unfoldable pub confirm_order : Instant → OrderConsultation → Db → Bool × Db
unfolding cut_stock
confirm_order now o db =
    if is_awaiting o.status then (false, db) else if o.confirmed then (false, db) else (
      true,
      save_order
          (record o {
            confirmed = true;
            confirmed_at = some now;
            status = OrderStatus.confirmed;
            stock_reserved = false;
          })
          (cut_stock o db),
    )

unfoldable pub reject_order : OrderConsultation → Db → Bool × Db
unfolding release_reservation
reject_order o db =
    if is_pending o.status
    then (let (o1, db1) = release_reservation o db in
        (true, save_order (record o1 { status = OrderStatus.rejected }) db1))
    else (false, db)

-- the successor in `_ADVANCE_SEQUENCE`, where the status has one
unfoldable pub next_status : OrderStatus → Option OrderStatus
next_status OrderStatus.confirmed = some OrderStatus.processing
next_status OrderStatus.processing = some OrderStatus.shipped
next_status OrderStatus.shipped = some OrderStatus.completed
next_status _ = none

unfoldable pub advance_status : OrderConsultation → Db → Option OrderStatus × Db
unfolding next_status
advance_status o db = elim (next_status o.status) [
  | none ↦ (none, db)
  | some status ↦ (some status, save_order (record o { status = status }) db)
]

-- pending, holding stock, and past a reservation's end
abbrev pub is_lapsed : Instant → OrderConsultation → Bool
is_lapsed now o =
    is_pending o.status
    && (o.stock_reserved && (elim o.reservation_expires_at [ none ↦ false | some t ↦ ltb t now ]))

unfoldable pub expire_order : OrderConsultation → Db → Db
unfolding release_reservation
expire_order o db =
    let (o1, db1) = release_reservation o db in
    save_order (record o1 { status = OrderStatus.expired }) db1

unfoldable pub expire_each : List OrderConsultation → Db → Db
expire_each [] db = db
expire_each (o ∷ os) db = expire_each os (expire_order o db)

unfoldable pub expire_stale_reservations : Instant → Db → List OrderConsultation × Db
unfolding expire_each
expire_stale_reservations now db =
    let lapsed = where_rows (is_lapsed now) db.orders in (lapsed, expire_each lapsed db)
