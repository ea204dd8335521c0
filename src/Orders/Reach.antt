-- ===== src/Orders/Reach.antt =====
-- Orders as a state machine: the operations of app/services/order_service.py in any order.
use kasb_o_kar_hoshmand.Base.{
  ℕ, ◌+◌, ◌≡◌, refl, inl, inr, String, true, ◌||◌, Option, some, List, [], ◌∷◌, arith, leb,
  Option-cases, Bool-cases, where_rows,
}
use kasb_o_kar_hoshmand.Base.Int.{ℤ}
use kasb_o_kar_hoshmand.Base.Time.{Instant}
use kasb_o_kar_hoshmand.Base.Table.{
  get_row, next_key, Unique, save-Unique, append-Unique, get_row-next_key,
}
use kasb_o_kar_hoshmand.Models.{
  Product-Keyed, OrderConsultation-Keyed, OrderConsultation, OrderType, Db,
}
use kasb_o_kar_hoshmand.Settings.{get_admin_settings_keeps}
use kasb_o_kar_hoshmand.Orders.Create.{
  qty_of, hold_stock, stocked_product, reserve_stock, new_order, add_order, create_order,
  create_order_awaiting_confirmation,
}
use kasb_o_kar_hoshmand.Orders.Customer.{
  is_awaiting, customer_confirm_order, customer_cancel_order, cancel_all, is_unanswered,
  expire_stale_customer_confirmations,
}
use kasb_o_kar_hoshmand.Orders.Owner.{
  is_pending, release_reservation, confirm_order, reject_order, next_status, advance_status,
  expire_order, expire_each, is_lapsed, expire_stale_reservations,
}
use kasb_o_kar_hoshmand.Orders.Reserved.{IsReserved}
use kasb_o_kar_hoshmand.Orders.Reserved.Kept.{
  create_order-IsReserved, create_order_awaiting_confirmation-IsReserved,
}
use kasb_o_kar_hoshmand.Orders.Reserved.Settled.{
  unreserve-orders, customer_confirm_order-IsReserved, customer_cancel_order-IsReserved,
  reject_order-IsReserved,
}
use kasb_o_kar_hoshmand.Orders.Reserved.Confirmed.{
  confirm_order_no, confirm_order_yes, cut_stock-orders, confirm_order-IsReserved,
  advance_status-IsReserved, expire_stale_reservations-IsReserved,
  expire_stale_customer_confirmations-IsReserved,
}

-- One operation on the orders. `customer_confirm_order` and `customer_cancel_order` are called with
-- what `get_awaiting_confirmation_for_customer` finds, so with a candidate.
pub data OrderStep : Db → Db → Type 0 where
  create :
      {db : Db} (now : Instant) (shop_bot_id customer_id : ℕ) (type : OrderType) (summary : String)
      (value : Option ℤ) (product_id quantity : Option ℕ)
      → OrderStep db
          (create_order now shop_bot_id customer_id type summary value product_id quantity db).1
  propose :
      {db : Db} (now : Instant) (shop_bot_id customer_id : ℕ) (type : OrderType) (summary : String)
      (value : Option ℤ) (product_id quantity : Option ℕ) (phone address : Option String)
      → OrderStep db
          (create_order_awaiting_confirmation now shop_bot_id customer_id type summary value
            product_id quantity phone address db).1
  customer_confirm :
      {db : Db} (now : Instant) (o : OrderConsultation)
      → get_row o.id db.orders ≡ some o
      → is_awaiting o.status ≡ true
      → OrderStep db (customer_confirm_order now o db).1
  customer_cancel :
      {db : Db} (o : OrderConsultation)
      → get_row o.id db.orders ≡ some o
      → is_awaiting o.status ≡ true
      → OrderStep db (customer_cancel_order o db)
  unanswered :
      {db : Db} (now : Instant) (timeout : ℕ)
      → OrderStep db (expire_stale_customer_confirmations now timeout db).1
  confirm :
      {db : Db} (now : Instant) (o : OrderConsultation)
      → get_row o.id db.orders ≡ some o
      → OrderStep db (confirm_order now o db).1
  reject :
      {db : Db} (o : OrderConsultation)
      → get_row o.id db.orders ≡ some o
      → OrderStep db (reject_order o db).1
  advance :
      {db : Db} (o : OrderConsultation)
      → get_row o.id db.orders ≡ some o
      → OrderStep db (advance_status o db).1
  lapse : {db : Db} (now : Instant) → OrderStep db (expire_stale_reservations now db).1

pub data OrderReach (start : Db) : Db → Type 0 where
  here : OrderReach start start
  next : {db db' : Db} → OrderReach start db → OrderStep db db' → OrderReach start db'

pub record IsSound (db : Db) : Type 0 where
  pub unique : Unique db.orders
  pub rule : IsReserved db

reserve_stock-Unique :
    (now : Instant) (o : OrderConsultation) (db : Db)
    → Unique db.orders
    → Unique (reserve_stock now o db).1.orders
unfolding reserve_stock hold_stock
reserve_stock-Unique now o db h = elim (Option-cases (stocked_product o db)) [
  | inl unstocked ↦ rw (unstocked, reserve_stock) h
  | inr ((p, stock), found) ↦
      rw (found, reserve_stock, get_admin_settings_keeps)
        (elim (Bool-cases (leb (p.reserved_quantity + qty_of o) stock)) [
          | inl room ↦ rw room (save-Unique _ db.orders h)
          | inr full ↦ rw full h
        ])
]

add_order-Unique :
    (o : OrderConsultation) (db : Db)
    → o.id ≡ next_key db.orders
    → Unique db.orders
    → Unique (add_order o db).orders
unfolding add_order
add_order-Unique o db e h =
    append-Unique db.orders o h (get_row-next_key o.id db.orders (omega arith))

release_reservation-Unique :
    (o : OrderConsultation) (db : Db)
    → Unique db.orders
    → Unique (release_reservation o db).1.orders
unfolding release_reservation
release_reservation-Unique o db h = elim (Bool-cases o.stock_reserved) [
  | inl holding ↦ rw holding (rw unreserve-orders (save-Unique _ db.orders h))
  | inr free ↦ rw free h
]

cancel_all-Unique :
    (os : List OrderConsultation) (db : Db) → Unique db.orders → Unique (cancel_all os db).orders
unfolding cancel_all
cancel_all-Unique [] db h = h
cancel_all-Unique (o ∷ os) db h = cancel_all-Unique os _ (save-Unique _ db.orders h)

expire_each-Unique :
    (os : List OrderConsultation) (db : Db) → Unique db.orders → Unique (expire_each os db).orders
unfolding expire_each expire_order
expire_each-Unique [] db h = h
expire_each-Unique (o ∷ os) db h =
    expire_each-Unique os _ (save-Unique _ _ (release_reservation-Unique o db h))

confirm_order-Unique :
    (now : Instant) (o : OrderConsultation) (db : Db)
    → Unique db.orders
    → Unique (confirm_order now o db).1.orders
confirm_order-Unique now o db h = elim (Bool-cases (is_awaiting o.status || o.confirmed)) [
  | inl refused ↦ rw (confirm_order_no now o db refused) h
  | inr fresh ↦
      rw (confirm_order_yes now o db fresh) (rw cut_stock-orders (save-Unique _ db.orders h))
]

reject_order-Unique :
    (o : OrderConsultation) (db : Db) → Unique db.orders → Unique (reject_order o db).1.orders
unfolding reject_order
reject_order-Unique o db h = elim (Bool-cases (is_pending o.status)) [
  | inl waits ↦ rw waits (save-Unique _ _ (release_reservation-Unique o db h))
  | inr closed ↦ rw closed h
]

advance_status-Unique :
    (o : OrderConsultation) (db : Db) → Unique db.orders → Unique (advance_status o db).1.orders
unfolding advance_status
advance_status-Unique o db h = elim (Option-cases (next_status o.status)) [
  | inl last ↦ rw (last, advance_status) h
  | inr (s, moves) ↦ rw (moves, advance_status) (save-Unique _ db.orders h)
]

OrderStep-Unique : {db db' : Db} → OrderStep db db' → Unique db.orders → Unique db'.orders
unfolding create_order create_order_awaiting_confirmation new_order customer_confirm_order
    customer_cancel_order expire_stale_customer_confirmations expire_stale_reservations
OrderStep-Unique {db} (create now b c t s v p q) h =
    reserve_stock-Unique now _ _ (add_order-Unique _ db refl h)
OrderStep-Unique {db} (propose now b c t s v p q ph ad) h = add_order-Unique _ db refl h
OrderStep-Unique {db} (customer_confirm now o f w) h =
    reserve_stock-Unique now _ _ (save-Unique _ db.orders h)
OrderStep-Unique {db} (customer_cancel o f w) h = save-Unique _ db.orders h
OrderStep-Unique {db} (unanswered now timeout) h =
    cancel_all-Unique (where_rows (is_unanswered now timeout) db.orders) db h
OrderStep-Unique {db} (confirm now o f) h = confirm_order-Unique now o db h
OrderStep-Unique {db} (reject o f) h = reject_order-Unique o db h
OrderStep-Unique {db} (advance o f) h = advance_status-Unique o db h
OrderStep-Unique {db} (lapse now) h = expire_each-Unique (where_rows (is_lapsed now) db.orders) db h

OrderStep-IsReserved : {db db' : Db} → OrderStep db db' → IsSound db → IsReserved db'
OrderStep-IsReserved {db} (create now b c t s v p q) h =
    create_order-IsReserved now b c t s v p q db h.rule
OrderStep-IsReserved {db} (propose now b c t s v p q ph ad) h =
    create_order_awaiting_confirmation-IsReserved now b c t s v p q ph ad db h.rule
OrderStep-IsReserved {db} (customer_confirm now o f w) h =
    customer_confirm_order-IsReserved now o db f w h.rule
OrderStep-IsReserved {db} (customer_cancel o f w) h =
    customer_cancel_order-IsReserved o db f w h.rule
OrderStep-IsReserved {db} (unanswered now timeout) h =
    expire_stale_customer_confirmations-IsReserved now timeout db h.unique h.rule
OrderStep-IsReserved {db} (confirm now o f) h = confirm_order-IsReserved now o db f h.rule
OrderStep-IsReserved {db} (reject o f) h = reject_order-IsReserved o db f h.rule
OrderStep-IsReserved {db} (advance o f) h = advance_status-IsReserved o db f h.rule
OrderStep-IsReserved {db} (lapse now) h =
    expire_stale_reservations-IsReserved now db h.unique h.rule

OrderStep-IsSound : {db db' : Db} → OrderStep db db' → IsSound db → IsSound db'
OrderStep-IsSound step h = record {
  unique = OrderStep-Unique step h.unique;
  rule = OrderStep-IsReserved step h;
}

-- From tables of orders with distinct keys that keep the reservation rule, any operations on
-- orders, in any order, lead to such tables again: what is reserved of each product with counted
-- stock is the sum of the quantities of the orders that hold a reservation of it, and only pending
-- orders hold one.
pub OrderReach-IsSound : {start db : Db} → IsSound start → OrderReach start db → IsSound db
OrderReach-IsSound h here = h
OrderReach-IsSound h (next r step) = OrderStep-IsSound step (OrderReach-IsSound h r)
