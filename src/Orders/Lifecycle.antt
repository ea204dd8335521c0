-- ===== src/Orders/Lifecycle.antt =====
-- The life cycle of an order: what each operation does to the status, and how often.
use kasb_o_kar_hoshmand.Base.{
  ℕ, ◌+◌, ◌≡◌, ◌⊎◌, refl, inl, inr, true, false, ◌||◌, none, some, arith, leb, if◌then◌else◌,
  Option-cases, Bool-cases,
}
use kasb_o_kar_hoshmand.Base.Time.{Instant}
use kasb_o_kar_hoshmand.Base.Table.{get_row, get_row-key, get_row-save_self}
use kasb_o_kar_hoshmand.Models.{
  Product-Keyed, OrderConsultation-Keyed, OrderConsultation, OrderStatus, Product, Db,
}
use kasb_o_kar_hoshmand.Settings.{get_admin_settings_keeps}
use kasb_o_kar_hoshmand.Orders.Create.{qty_of, hold_stock, stocked_product, reserve_stock}
use kasb_o_kar_hoshmand.Orders.Customer.{is_awaiting}
use kasb_o_kar_hoshmand.Orders.Owner.{confirm_order, next_status, advance_status}
use kasb_o_kar_hoshmand.Orders.Reserved.Kept.{stocked_product_found}
use kasb_o_kar_hoshmand.Orders.Reserved.Confirmed.{
  confirm_order_no, confirm_order_yes, as_confirmed, cut_stock-orders,
}

-- The rank of a status in `_ADVANCE_SEQUENCE`.
abbrev pub rank : OrderStatus → ℕ
rank OrderStatus.confirmed = 1
rank OrderStatus.processing = 2
rank OrderStatus.shipped = 3
rank OrderStatus.completed = 4
rank _ = 0

-- A confirmation that goes through happens once: the row that it leaves is refused, with nothing
-- changed, so the stock of an order is cut once.
pub confirm_order_once :
    (now later : Instant) (o o' : OrderConsultation) (db : Db) {db' : Db}
    → get_row o.id db.orders ≡ some o
    → confirm_order now o db ≡ (true, db')
    → get_row o.id db'.orders ≡ some o'
    → confirm_order later o' db' ≡ (false, db')
confirm_order_once now later o o' db {db'} found e found' =
    elim (Bool-cases (is_awaiting o.status || o.confirmed)) [
      | inl refused ↦ absurd (ground (arith, confirm_order_no now o db refused))
      | inr fresh ↦ confirm_order_no later o' db' (
          ground (
            arith,
            confirm_order_yes now o db fresh,
            cut_stock-orders o db,
            get_row-save_self (as_confirmed now o) db.orders found,
          ))
    ]

-- An order takes a reservation exactly if its product has that much stock that is not reserved,
-- and then what is reserved stays within the stock.
pub reserve_stock_fits :
    (now : Instant) (o : OrderConsultation) (p : Product) (stock : ℕ) (db : Db)
    → o.stock_reserved ≡ false
    → stocked_product o db ≡ some (p, stock)
    → let (o', db') = reserve_stock now o db in
      (o'.stock_reserved ≡ leb (p.reserved_quantity + qty_of o) stock)
      × (get_row p.id db'.products
          ≡ some (record p {
            reserved_quantity =
                if leb (p.reserved_quantity + qty_of o) stock
                then p.reserved_quantity + qty_of o
                else p.reserved_quantity;
          }))
unfolding reserve_stock hold_stock
reserve_stock_fits now o p stock db free stocked =
    let (j, named, fp, counted) = stocked_product_found o db stocked in
    let p' = record p { reserved_quantity = p.reserved_quantity + qty_of o } in
    let fp' : get_row p.id db.products ≡ some p =
      ground (arith, fp, get_row-key j db.products fp) in
    rw (stocked, reserve_stock)
      (rw get_admin_settings_keeps
        (ground (arith, free, fp', get_row-save_self p' db.products fp')))

-- Each step forward raises the rank by one, and there is none past `completed`: a confirmed order
-- is completed by three steps and then refuses a fourth.
pub advance_status-rank :
    (o : OrderConsultation) (db : Db)
    → get_row o.id db.orders ≡ some o
    → let (moved, db') = advance_status o db in
      (((rank o.status ≡ 0) ⊎ (rank o.status ≡ 4)) × (moved ≡ none) × (db' ≡ db))
      ⊎ ((s : OrderStatus) × (moved ≡ some s)
          × (rank s ≡ rank o.status + 1)
          × (get_row o.id db'.orders ≡ some (record o { status = s })))
unfolding advance_status
advance_status-rank o db found = elim (Option-cases (next_status o.status)) [
  | inl last ↦ rw (last, advance_status) (inl (ground (arith, last), refl, refl))
  | inr (s, moves) ↦
      rw (moves, advance_status)
        (inr (
          s,
          refl,
          ground (arith, moves),
          get_row-save_self (record o { status = s }) db.orders found,
        ))
]

-- An order that has left the life cycle by a cancellation, a rejection or an expiry, and was never
-- confirmed, is still confirmed when the owner asks for it.
pub confirm_order_revives :
    (now : Instant) (o : OrderConsultation) (db : Db)
    → get_row o.id db.orders ≡ some o
    → (o.status ≡ OrderStatus.cancelled)
      ⊎ ((o.status ≡ OrderStatus.rejected) ⊎ (o.status ≡ OrderStatus.expired))
    → o.confirmed ≡ false
    → let (done, db') = confirm_order now o db in
      (done ≡ true)
      × (get_row o.id db'.orders
          ≡ some (record o {
            confirmed = true;
            confirmed_at = some now;
            status = OrderStatus.confirmed;
            stock_reserved = false;
          }))
confirm_order_revives now o db found over fresh =
    rw (confirm_order_yes now o db (ground (arith, over, fresh)))
      (rw cut_stock-orders (refl, get_row-save_self (as_confirmed now o) db.orders found))
