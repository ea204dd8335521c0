-- ===== src/Orders/Reserved/Settled.antt =====
-- The reservation rule under rejecting, cancelling and expiring, in app/services/order_service.py.
use kasb_o_kar_hoshmand.Base.{
  ℕ, ◌-◌, ◌≤◌, ◌≡◌, refl, inl, inr, true, false, none, some, List, arith, Option-cases, Bool-cases,
}
use kasb_o_kar_hoshmand.Base.Time.{Instant}
use kasb_o_kar_hoshmand.Base.Table.{get_row, save, get_row-save_self, sum_of-save}
use kasb_o_kar_hoshmand.Models.{
  Product-Keyed, OrderConsultation-Keyed, OrderConsultation, OrderStatus, Product, Db,
}
use kasb_o_kar_hoshmand.Orders.Create.{qty_of}
use kasb_o_kar_hoshmand.Orders.Customer.{
  is_awaiting, save_order, customer_confirm_order, customer_cancel_order,
}
use kasb_o_kar_hoshmand.Orders.Owner.{is_pending, unreserve, release_reservation, reject_order}
use kasb_o_kar_hoshmand.Orders.Reserved.Kept.{reserve_stock-IsReserved}
use kasb_o_kar_hoshmand.Orders.Reserved.{
  holds, held, ReservedAt, IsReserved, ReservedAt-move, ReservedAt-save, PendingAt-save,
}

-- A candidate holds nothing.
pub awaiting_free :
    (o : OrderConsultation) (db : Db)
    → get_row o.id db.orders ≡ some o
    → is_pending o.status ≡ false
    → IsReserved db
    → o.stock_reserved ≡ false
awaiting_free o db found status h = ground (arith, h.pending o.id o found)

-- Saving an order with another status keeps the rule if it holds nothing, or stays pending.
pub save_order-IsReserved :
    (o o' : OrderConsultation) (db : Db)
    → get_row o.id db.orders ≡ some o
    → o'.id ≡ o.id
    → o.stock_reserved ≡ false
    → o'.stock_reserved ≡ false
    → IsReserved db
    → IsReserved (save_order o' db)
save_order-IsReserved o o' db found same free free' h = record {
  reserved =
      λ i. ReservedAt-save i o o' db.products db.orders found same (ground arith) (h.reserved i);
  pending = λ i. PendingAt-save i o' db.orders (λ e. absurd (ground arith)) (h.pending i);
}

-- A customer's confirmation of a candidate keeps the reservation rule.
pub customer_confirm_order-IsReserved :
    (now : Instant) (o : OrderConsultation) (db : Db)
    → get_row o.id db.orders ≡ some o
    → is_awaiting o.status ≡ true
    → IsReserved db
    → IsReserved (customer_confirm_order now o db).1
unfolding customer_confirm_order
customer_confirm_order-IsReserved now o db found waiting h =
    let o1 = record o { status = OrderStatus.pending } in
    let free = awaiting_free o db found (ground arith) h in
    reserve_stock-IsReserved now o1 (save_order o1 db) (get_row-save_self o1 db.orders found) free
      refl (save_order-IsReserved o o1 db found refl free free h)

pub customer_cancel_order-IsReserved :
    (o : OrderConsultation) (db : Db)
    → get_row o.id db.orders ≡ some o
    → is_awaiting o.status ≡ true
    → IsReserved db
    → IsReserved (customer_cancel_order o db)
unfolding customer_cancel_order
customer_cancel_order-IsReserved o db found waiting h =
    let free = awaiting_free o db found (ground arith) h in
    save_order-IsReserved o _ db found refl free free h

-- What an order holds is part of what is held.
pub holds-le-held :
    (i : ℕ) (o : OrderConsultation) (orders : List OrderConsultation)
    → get_row o.id orders ≡ some o
    → holds i o ≤ held i orders
holds-le-held i o orders found =
    omega (arith, sum_of-save (holds i) o (record o { stock_reserved = false }) orders found)

pub unreserve-orders : (o : OrderConsultation) (db : Db) → (unreserve o db).orders ≡ db.orders
unfolding unreserve
unreserve-orders o db = elim (Option-cases o.product_id) [
  | inl unnamed ↦ rw (unnamed, unreserve) refl
  | inr (j, named) ↦ ground (arith, named)
]

unfoldable pub freed : OrderConsultation → OrderConsultation
freed o = record o { stock_reserved = false }

pub release_free :
    (o : OrderConsultation) (db : Db)
    → o.stock_reserved ≡ false
    → release_reservation o db ≡ (o, db)
unfolding release_reservation
release_free o db free = ground (arith, free)

pub release_held :
    (o : OrderConsultation) (db : Db)
    → o.stock_reserved ≡ true
    → release_reservation o db ≡ (freed o, save_order (freed o) (unreserve o db))
unfolding release_reservation freed
release_held o db holding = ground (arith, holding)

unreserve_unnamed : (o : OrderConsultation) (db : Db) → o.product_id ≡ none → unreserve o db ≡ db
unfolding unreserve
unreserve_unnamed o db unnamed = ground (arith, unnamed)

unreserve_missing :
    (o : OrderConsultation) (j : ℕ) (db : Db)
    → o.product_id ≡ some j
    → get_row j db.products ≡ none
    → unreserve o db ≡ db
unfolding unreserve
unreserve_missing o j db named missing = ground (arith, named)

unreserve_found :
    (o : OrderConsultation) (j : ℕ) (db : Db) {p : Product}
    → o.product_id ≡ some j
    → get_row j db.products ≡ some p
    → unreserve o db ≡ record db {
      products = save (record p { reserved_quantity = p.reserved_quantity - qty_of o }) db.products;
    }
unfolding unreserve
unreserve_found o j db {p} named found = ground (arith, named)

released-ReservedAt :
    (i : ℕ) (o : OrderConsultation) (db : Db)
    → get_row o.id db.orders ≡ some o
    → o.stock_reserved ≡ true
    → IsReserved db
    → ReservedAt i (unreserve o db).products (save (freed o) db.orders)
unfolding freed
released-ReservedAt i o db found holding h = elim (Option-cases o.product_id) [
  | inl unnamed ↦ rw (unreserve_unnamed o db unnamed) (
      ReservedAt-save i o (freed o) db.products db.orders found refl (ground (arith, unnamed))
        (h.reserved i))
  | inr (j, named) ↦ elim (Option-cases (get_row j db.products)) [
    | inl missing ↦ rw (unreserve_missing o j db named missing) (
        (λ q e s. ground (
          arith,
          sum_of-save (holds i) o (freed o) db.orders found,
          h.reserved i q,
          named,
          missing,
        )))
    | inr (p, fp) ↦ rw (unreserve_found o j db named fp) (
        (ReservedAt-move i j p (record p { reserved_quantity = p.reserved_quantity - qty_of o }) o
          (freed o) db.products db.orders fp refl found refl named named
          (λ s.
            ground (arith, s, named, holding, h.reserved j p fp, holds-le-held j o db.orders found))
          (h.reserved i)))
  ]
]

-- After a release the order holds nothing, and the rule holds.
pub release_reservation-IsReserved :
    (o : OrderConsultation) (db : Db)
    → get_row o.id db.orders ≡ some o
    → IsReserved db
    → let (o1, db1) = release_reservation o db in
      IsReserved db1
      × (get_row o.id db1.orders ≡ some o1)
      × (o1.stock_reserved ≡ false)
      × (o1.id ≡ o.id)
unfolding freed
release_reservation-IsReserved o db found h = elim (Bool-cases o.stock_reserved) [
  | inl holding ↦ rw (release_held o db holding) (
    record {
      reserved = λ i. rw unreserve-orders (released-ReservedAt i o db found holding h);
      pending = λ i.
          rw unreserve-orders
            (PendingAt-save i (freed o) db.orders (λ e. absurd (ground arith)) (h.pending i));
    },
    rw unreserve-orders (get_row-save_self (freed o) db.orders found),
    refl,
    refl,
  )
  | inr free ↦ rw (release_free o db free) (h, found, free, refl)
]

pub release_then-IsReserved :
    (status : OrderStatus) (o : OrderConsultation) (db : Db)
    → get_row o.id db.orders ≡ some o
    → IsReserved db
    → let (o1, db1) = release_reservation o db in
      IsReserved (save_order (record o1 { status = status }) db1)
release_then-IsReserved status o db found h =
    let (h1, found1, free, same) = release_reservation-IsReserved o db found h in
    let o1 = (release_reservation o db).0 in
    save_order-IsReserved o1 (record o1 { status = status }) (release_reservation o db).1
      (rw same found1) refl free free h1

pub reject_order-IsReserved :
    (o : OrderConsultation) (db : Db)
    → get_row o.id db.orders ≡ some o
    → IsReserved db
    → IsReserved (reject_order o db).1
unfolding reject_order
reject_order-IsReserved o db found h = elim (Bool-cases (is_pending o.status)) [
  | inl pend ↦ rw pend (release_then-IsReserved OrderStatus.rejected o db found h)
  | inr other ↦ rw other h
]
