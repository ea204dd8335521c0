-- ===== src/Orders/Owned.antt =====
-- Who an order is given to: the queries of app/services/order_service.py by which a customer or a
-- shop reaches an order through the id of a button.
use kasb_o_kar_hoshmand.Base.{ℕ, ◌≡◌, subst, true, ◌&&◌, ◌==◌, some, arith, All, where_rows_pass}
use kasb_o_kar_hoshmand.Models.{OrderConsultation, Db, ok, scalar_one}
use kasb_o_kar_hoshmand.Orders.Customer.{is_awaiting, get_awaiting_confirmation_for_customer}
use kasb_o_kar_hoshmand.Orders.Query.{get_owned_by_id}

-- A candidate that a customer reaches by its id is that order, is the customer's own, and still
-- waits for the answer.
pub get_awaiting_confirmation_own :
    (order_id customer_id : ℕ) (db : Db) {o : OrderConsultation}
    → get_awaiting_confirmation_for_customer order_id customer_id db ≡ ok (some o)
    → (o.id ≡ order_id) × (o.customer_id ≡ customer_id) × (is_awaiting o.status ≡ true)
unfolding get_awaiting_confirmation_for_customer
get_awaiting_confirmation_own order_id customer_id db {o} e =
    let test = λ (x : OrderConsultation).
      x.id == order_id && (x.customer_id == customer_id && is_awaiting x.status) in
    let passed =
      (subst (All (λ x. test x ≡ true)) (scalar_one _ {x = o} e)
        (where_rows_pass test db.orders)).0 in
    ground (arith, passed)

-- An order that a shop reaches by its id is that order and belongs to the shop.
pub order_owned :
    (order_id shop_bot_id : ℕ) (db : Db) {o : OrderConsultation}
    → get_owned_by_id order_id shop_bot_id db ≡ ok (some o)
    → (o.id ≡ order_id) × (o.shop_bot_id ≡ shop_bot_id)
unfolding get_owned_by_id
order_owned order_id shop_bot_id db {o} e =
    let test = λ (x : OrderConsultation). x.id == order_id && x.shop_bot_id == shop_bot_id in
    let passed =
      (subst (All (λ x. test x ≡ true)) (scalar_one _ {x = o} e)
        (where_rows_pass test db.orders)).0 in
    ground (arith, passed)
