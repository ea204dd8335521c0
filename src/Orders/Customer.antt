-- ===== src/Orders/Customer.antt =====
-- The customer's side of app/services/order_service.py: confirming and cancelling a candidate, and
-- the candidates that are never answered.
use kasb_o_kar_hoshmand.Base.{
  ℕ, ◌+◌, Bool, true, false, ◌&&◌, Option, List, [], ◌∷◌, ltb, ◌==◌, where_rows,
}
use kasb_o_kar_hoshmand.Base.Time.{Instant, minutes}
use kasb_o_kar_hoshmand.Base.Table.{save}
use kasb_o_kar_hoshmand.Models.{
  OrderConsultation-Keyed, OrderConsultation, OrderStatus, Db, Result, scalar_one_or_none,
}
use kasb_o_kar_hoshmand.Orders.Create.{reserve_stock}

abbrev pub is_awaiting : OrderStatus → Bool
is_awaiting OrderStatus.awaiting_customer_confirmation = true
is_awaiting _ = false

unfoldable pub get_awaiting_confirmation_for_customer :
    ℕ → ℕ → Db → Result (Option OrderConsultation)
get_awaiting_confirmation_for_customer order_id customer_id db = scalar_one_or_none (
    where_rows (λ o. o.id == order_id && (o.customer_id == customer_id && is_awaiting o.status))
      db.orders)

abbrev pub save_order : OrderConsultation → Db → Db
save_order o db = record db { orders = save o db.orders }

unfoldable pub customer_confirm_order : Instant → OrderConsultation → Db → OrderConsultation × Db
customer_confirm_order now o db =
    let o1 = record o { status = OrderStatus.pending } in reserve_stock now o1 (save_order o1 db)

unfoldable pub customer_cancel_order : OrderConsultation → Db → Db
customer_cancel_order o db = save_order (record o { status = OrderStatus.cancelled }) db

-- `created_at < now - minutes`
abbrev pub is_unanswered : Instant → ℕ → OrderConsultation → Bool
is_unanswered now timeout o = is_awaiting o.status && ltb (o.created_at + minutes timeout) now

unfoldable pub cancel_all : List OrderConsultation → Db → Db
cancel_all [] db = db
cancel_all (o ∷ os) db = cancel_all os (save_order (record o { status = OrderStatus.cancelled }) db)

-- the orders selected, and the tables with each of them cancelled
unfoldable pub expire_stale_customer_confirmations : Instant → ℕ → Db → List OrderConsultation × Db
unfolding cancel_all
expire_stale_customer_confirmations now timeout db =
    let stale = where_rows (is_unanswered now timeout) db.orders in (stale, cancel_all stale db)
