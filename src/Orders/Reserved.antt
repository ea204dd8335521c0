-- ===== src/Orders/Reserved.antt =====
-- The reservation rule that `Product` in app/database/models.py states: what is reserved of a
-- product with counted stock is what the pending orders hold of it.
pub mod Kept
pub mod Settled
pub mod Confirmed
use kasb_o_kar_hoshmand.Base.{
  ℕ, ◌+◌, ◌-◌, ◌≤◌, ◌≡◌, ◌≢◌, refl, inl, inr, Bool, true, false, ◌&&◌, Option, none, some, List, [],
  ◌∷◌, ◌++◌, arith, leb, ◌==◌, if◌then◌else◌, or_default, sum_of, sum_of-append, Option-cases,
  Bool-cases, is_some, same_id,
}
use kasb_o_kar_hoshmand.Base.Time.{Instant}
use kasb_o_kar_hoshmand.Base.Table.{
  get_row, save, next_key, get_row-key, get_row-save, sum_of-save, get_row-append,
}
use kasb_o_kar_hoshmand.Models.{
  Product-Keyed, OrderConsultation-Keyed, OrderConsultation, OrderStatus, Product, Db,
}
use kasb_o_kar_hoshmand.Orders.Create.{qty_of}
use kasb_o_kar_hoshmand.Orders.Owner.{is_pending}

-- What an order holds of a product.
abbrev pub holds : ℕ → OrderConsultation → ℕ
holds product_id o =
    if o.stock_reserved && same_id o.product_id (some product_id) then qty_of o else 0

abbrev pub held : ℕ → List OrderConsultation → ℕ
held product_id = sum_of (holds product_id)

abbrev pub ReservedAt : ℕ → List Product → List OrderConsultation → Type 0
ReservedAt product_id products orders =
    (p : Product)
    → get_row product_id products ≡ some p
    → is_some p.stock_quantity ≡ true
    → p.reserved_quantity ≡ held product_id orders

-- Only a pending order holds stock.
abbrev pub PendingAt : ℕ → List OrderConsultation → Type 0
PendingAt i orders =
    (o : OrderConsultation)
    → get_row i orders ≡ some o
    → o.stock_reserved ≡ true
    → is_pending o.status ≡ true

pub record IsReserved (db : Db) : Type 0 where
  pub reserved : (product_id : ℕ) → ReservedAt product_id db.products db.orders
  pub pending : (i : ℕ) → PendingAt i db.orders

-- An order is saved and the product that it names is saved with as much moved.
pub ReservedAt-move :
    (i j : ℕ) (p p' : Product) (o o' : OrderConsultation) (products : List Product)
    (orders : List OrderConsultation)
    → get_row j products ≡ some p
    → p'.id ≡ p.id
    → get_row o.id orders ≡ some o
    → o'.id ≡ o.id
    → o'.product_id ≡ some j
    → o.product_id ≡ some j
    → (is_some p'.stock_quantity ≡ true
        → (is_some p.stock_quantity ≡ true)
          × (p'.reserved_quantity + holds j o ≡ p.reserved_quantity + holds j o'))
    → ReservedAt i products orders
    → ReservedAt i (save p' products) (save o' orders)
ReservedAt-move i j p p' o o' products orders fp same fo same' ho' ho moved h q e s = ground (
  arith,
  get_row-save i p' products,
  get_row-key j products fp,
  sum_of-save (holds i) o o' orders,
  h q,
  h p,
  moved,
)

-- An order is saved that holds what it held.
pub ReservedAt-save :
    (i : ℕ) (o o' : OrderConsultation) (products : List Product) (orders : List OrderConsultation)
    → get_row o.id orders ≡ some o
    → o'.id ≡ o.id
    → holds i o' ≡ holds i o
    → ReservedAt i products orders
    → ReservedAt i products (save o' orders)
ReservedAt-save i o o' products orders found same kept h q e s =
    ground (arith, sum_of-save (holds i) o o' orders, h q)

pub PendingAt-save :
    (i : ℕ) (o' : OrderConsultation) (orders : List OrderConsultation)
    → (o'.stock_reserved ≡ true → is_pending o'.status ≡ true)
    → PendingAt i orders
    → PendingAt i (save o' orders)
PendingAt-save i o' orders fine h q e r = ground (arith, get_row-save i o' orders, h q)

-- A new order holds nothing yet.
pub ReservedAt-append :
    (i : ℕ) (o : OrderConsultation) (products : List Product) (orders : List OrderConsultation)
    → o.stock_reserved ≡ false
    → ReservedAt i products orders
    → ReservedAt i products (orders ++ o ∷ [])
ReservedAt-append i o products orders free h q e s =
    ground (arith, sum_of-append (holds i) orders (o ∷ []), h q)

pub PendingAt-append :
    (i : ℕ) (o : OrderConsultation) (orders : List OrderConsultation)
    → o.stock_reserved ≡ false
    → PendingAt i orders
    → PendingAt i (orders ++ o ∷ [])
PendingAt-append i o orders free h q e r = ground (arith, get_row-append i orders o, h q)
