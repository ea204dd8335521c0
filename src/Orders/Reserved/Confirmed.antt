-- ===== src/Orders/Reserved/Confirmed.antt =====
-- The reservation rule under confirming and advancing an order, in app/services/order_service.py.
use kasb_o_kar_hoshmand.Base.{
  ℕ, ◌-◌, ◌≡◌, refl, inl, inr, true, false, ◌||◌, none, some, List, [], ◌∷◌, arith, if◌then◌else◌,
  All, All-where_rows, where_rows, where_rows_pass, Option-cases, Bool-cases, is_some, same_id,
}
use kasb_o_kar_hoshmand.Base.Time.{Instant}
use kasb_o_kar_hoshmand.Base.Table.{
  get_row, save, sum_of-save, Unique, Rows, Rows-save, Rows-self, where_rows-Unique,
}
use kasb_o_kar_hoshmand.Models.{
  Product-Keyed, OrderConsultation-Keyed, OrderConsultation, OrderStatus, Product, Db,
}
use kasb_o_kar_hoshmand.Orders.Create.{qty_of, stocked_product}
use kasb_o_kar_hoshmand.Orders.Customer.{
  is_awaiting, save_order, is_unanswered, cancel_all, expire_stale_customer_confirmations,
}
use kasb_o_kar_hoshmand.Orders.Owner.{
  cut_stock, confirm_order, next_status, advance_status, expire_order, expire_each,
  expire_stale_reservations, is_lapsed,
}
use kasb_o_kar_hoshmand.Orders.Reserved.Kept.{stocked_product_found}
use kasb_o_kar_hoshmand.Orders.Reserved.Settled.{
  awaiting_free, release_free, release_held, unreserve-orders, holds-le-held, freed,
  release_then-IsReserved, save_order-IsReserved,
}
use kasb_o_kar_hoshmand.Orders.Reserved.{
  holds, ReservedAt, IsReserved, ReservedAt-move, PendingAt-save,
}

-- The row that `confirm_order` leaves.
abbrev pub as_confirmed : Instant → OrderConsultation → OrderConsultation
as_confirmed now o = record o {
  confirmed = true;
  confirmed_at = some now;
  status = OrderStatus.confirmed;
  stock_reserved = false;
}

-- An order without counted stock names no product whose stock is counted.
pub uncounted :
    (o : OrderConsultation) (i : ℕ) (p : Product) (db : Db)
    → stocked_product o db ≡ none
    → get_row i db.products ≡ some p
    → is_some p.stock_quantity ≡ true
    → same_id o.product_id (some i) ≡ false
unfolding stocked_product
uncounted o i p db e found counted = elim (Option-cases o.product_id) [
  | inl unnamed ↦ ground (arith, unnamed)
  | inr (j, named) ↦ ground (arith, named, found, counted)
]

pub cut_stock-orders : (o : OrderConsultation) (db : Db) → (cut_stock o db).orders ≡ db.orders
unfolding cut_stock
cut_stock-orders o db = elim (Option-cases (stocked_product o db)) [
  | inl unstocked ↦ rw (unstocked, cut_stock) refl
  | inr ((p, stock), found) ↦ rw (found, cut_stock) refl
]

pub cut_stock_uncounted :
    (o : OrderConsultation) (db : Db) → stocked_product o db ≡ none → cut_stock o db ≡ db
unfolding cut_stock
cut_stock_uncounted o db e = rw (e, cut_stock) refl

pub cut_stock_counted :
    (o : OrderConsultation) (db : Db) {p : Product} {stock : ℕ}
    → stocked_product o db ≡ some (p, stock)
    → cut_stock o db ≡ record db {
      products =
          save
            (record p {
              reserved_quantity =
                  if o.stock_reserved then p.reserved_quantity - qty_of o else p.reserved_quantity;
              stock_quantity = some (stock - qty_of o);
            })
            db.products;
    }
unfolding cut_stock
cut_stock_counted o db e = rw (e, cut_stock) refl

confirmed-ReservedAt :
    (now : Instant) (i : ℕ) (o : OrderConsultation) (db : Db)
    → get_row o.id db.orders ≡ some o
    → IsReserved db
    → ReservedAt i (cut_stock o db).products (save (as_confirmed now o) db.orders)
confirmed-ReservedAt now i o db found h = elim (Option-cases (stocked_product o db)) [
  | inl unstocked ↦ rw (cut_stock_uncounted o db unstocked) (λ q e s. ground (
    arith,
    sum_of-save (holds i) o (as_confirmed now o) db.orders found,
    h.reserved i q,
    uncounted o i q db unstocked,
  ))
  | inr ((p, stock), stocked) ↦
      let (j, named, fp, counted) = stocked_product_found o db stocked in
      rw (cut_stock_counted o db stocked) (
        ReservedAt-move i j p _ o (as_confirmed now o) db.products db.orders fp refl found refl
          named named
          (λ s.
            ground (arith, named, counted, h.reserved j p fp, holds-le-held j o db.orders found))
          (h.reserved i))
]

-- `confirm_order` refuses a candidate and a confirmed order, and confirms any other.
pub confirm_order_no :
    (now : Instant) (o : OrderConsultation) (db : Db)
    → (is_awaiting o.status || o.confirmed) ≡ true
    → confirm_order now o db ≡ (false, db)
unfolding confirm_order
confirm_order_no now o db h = ground (arith, h)

pub confirm_order_yes :
    (now : Instant) (o : OrderConsultation) (db : Db)
    → (is_awaiting o.status || o.confirmed) ≡ false
    → confirm_order now o db ≡ (true, save_order (as_confirmed now o) (cut_stock o db))
unfolding confirm_order
confirm_order_yes now o db h = ground (arith, h)

-- A confirmation keeps the reservation rule: a reservation is turned into the cut of the stock.
pub confirm_order-IsReserved :
    (now : Instant) (o : OrderConsultation) (db : Db)
    → get_row o.id db.orders ≡ some o
    → IsReserved db
    → IsReserved (confirm_order now o db).1
confirm_order-IsReserved now o db found h =
    elim (Bool-cases (is_awaiting o.status || o.confirmed)) [
      | inl refused ↦ rw (confirm_order_no now o db refused) h
      | inr fresh ↦ rw (confirm_order_yes now o db fresh) (record {
        reserved = λ i. rw cut_stock-orders (confirmed-ReservedAt now i o db found h);
        pending = λ i. rw cut_stock-orders (
            PendingAt-save i (as_confirmed now o) db.orders (λ e. absurd (ground arith))
              (h.pending i));
      })
    ]

pub advance_status-IsReserved :
    (o : OrderConsultation) (db : Db)
    → get_row o.id db.orders ≡ some o
    → IsReserved db
    → IsReserved (advance_status o db).1
unfolding advance_status
advance_status-IsReserved o db found h = elim (Option-cases (next_status o.status)) [
  | inl last ↦ rw (last, advance_status) h
  | inr (s, moves) ↦
      let free = awaiting_free o db found (ground (arith, moves)) h in
      rw (moves, advance_status)
        (save_order-IsReserved o (record o { status = s }) db found refl free free h)
]

expire_order-Rows :
    (o : OrderConsultation) (os : List OrderConsultation) (db : Db)
    → get_row o.id os ≡ none
    → Rows db.orders os
    → Rows (expire_order o db).orders os
unfolding expire_order freed
expire_order-Rows o os db new h = elim (Bool-cases o.stock_reserved) [
  | inl holding ↦
      rw (release_held o db holding)
        (rw unreserve-orders (Rows-save _ _ os new (Rows-save (freed o) db.orders os new h)))
  | inr free ↦ rw (release_free o db free) (Rows-save _ db.orders os new h)
]

expire_order-IsReserved :
    (o : OrderConsultation) (db : Db)
    → get_row o.id db.orders ≡ some o
    → IsReserved db
    → IsReserved (expire_order o db)
unfolding expire_order
expire_order-IsReserved o db found h = release_then-IsReserved OrderStatus.expired o db found h

expire_each-IsReserved :
    (os : List OrderConsultation) (db : Db)
    → Unique os
    → Rows db.orders os
    → IsReserved db
    → IsReserved (expire_each os db)
unfolding expire_each
expire_each-IsReserved [] db u rows h = h
expire_each-IsReserved (o ∷ os) db u rows h =
    expire_each-IsReserved os (expire_order o db) u.1 (expire_order-Rows o os db u.0 rows.1)
      (expire_order-IsReserved o db rows.0 h)

-- The periodic job keeps the reservation rule: every reservation that it ends goes back.
pub expire_stale_reservations-IsReserved :
    (now : Instant) (db : Db)
    → Unique db.orders
    → IsReserved db
    → IsReserved (expire_stale_reservations now db).1
unfolding expire_stale_reservations
expire_stale_reservations-IsReserved now db u h =
    expire_each-IsReserved (where_rows (is_lapsed now) db.orders) db
      (where_rows-Unique (is_lapsed now) db.orders u)
      (All-where_rows _ (is_lapsed now) db.orders (Rows-self db.orders u)) h

cancel_all-IsReserved :
    (now : Instant) (timeout : ℕ) (os : List OrderConsultation) (db : Db)
    → All (λ o. is_unanswered now timeout o ≡ true) os
    → Unique os
    → Rows db.orders os
    → IsReserved db
    → IsReserved (cancel_all os db)
unfolding cancel_all
cancel_all-IsReserved now timeout [] db waiting u rows h = h
cancel_all-IsReserved now timeout (o ∷ os) db waiting u rows h =
    let free = awaiting_free o db rows.0 (ground (arith, waiting.0)) h in
    let o1 = record o { status = OrderStatus.cancelled } in
    cancel_all-IsReserved now timeout os (save_order o1 db) waiting.1 u.1
      (Rows-save o1 db.orders os u.0 rows.1) (save_order-IsReserved o o1 db rows.0 refl free free h)

pub expire_stale_customer_confirmations-IsReserved :
    (now : Instant) (timeout : ℕ) (db : Db)
    → Unique db.orders
    → IsReserved db
    → IsReserved (expire_stale_customer_confirmations now timeout db).1
unfolding expire_stale_customer_confirmations
expire_stale_customer_confirmations-IsReserved now timeout db u h =
    cancel_all-IsReserved now timeout (where_rows (is_unanswered now timeout) db.orders) db
      (where_rows_pass (is_unanswered now timeout) db.orders)
      (where_rows-Unique (is_unanswered now timeout) db.orders u)
      (All-where_rows _ (is_unanswered now timeout) db.orders (Rows-self db.orders u)) h
