-- ===== src/Panel/Orders.antt =====
-- The buttons of a shop owner on an order, in app/bots/main_bot/handlers/panel.py. The order's id is
-- the one that the button's data names.
use kasb_o_kar_hoshmand.Base.{ℕ, Bool, Option, none, some, if◌then◌else◌}
use kasb_o_kar_hoshmand.Base.Time.{Instant}
use kasb_o_kar_hoshmand.Models.{
  ShopBot, OrderConsultation, OrderStatus, Db, Result, ok, raised, telegram_error, ◌>>=◌,
}
use kasb_o_kar_hoshmand.Owners.Register.{get_by_telegram_id}
use kasb_o_kar_hoshmand.Shops.Bots.{get_by_owner}
use kasb_o_kar_hoshmand.Orders.Query.{get_owned_by_id}
use kasb_o_kar_hoshmand.Orders.Owner.{confirm_order, reject_order, advance_status}

-- What the owner is told.
pub data Told : Type 0 where
  generic_error already_confirmed cannot_reject cannot_advance : Told
  confirmed rejected : Told
  advanced : OrderStatus → Told

-- `answers` says whether Telegram takes the answer; its error is not caught, and rolls back
abbrev pub told : Bool → Told → Db → Result (Told × Db)
told answers what db = if answers then ok (what, db) else raised telegram_error

-- the shop bot of who presses
unfoldable pub current_shop_bot : ℕ → Db → Result (Option ShopBot)
current_shop_bot telegram_id db = do
  owner ← get_by_telegram_id telegram_id db
  get_by_owner owner db

abbrev pub order_of : ℕ → Option ShopBot → Db → Result (Option OrderConsultation)
order_of order_id none db = ok none
order_of order_id (some b) db = get_owned_by_id order_id b.id db

unfoldable pub current_order : ℕ → ℕ → Db → Result (Option OrderConsultation)
unfolding current_shop_bot
current_order telegram_id order_id db = do
  shop_bot ← current_shop_bot telegram_id db
  order_of order_id shop_bot db

abbrev pub press_confirm : Bool → Instant → OrderConsultation → Db → Result (Told × Db)
press_confirm answers now o db =
    if o.confirmed
    then told answers already_confirmed db
    else (let (done, db1) = confirm_order now o db in
        told answers (if done then confirmed else already_confirmed) db1)

unfoldable pub cb_confirm_order : Bool → Instant → ℕ → ℕ → Db → Result (Told × Db)
unfolding current_order
cb_confirm_order answers now telegram_id order_id db = do
  found ← current_order telegram_id order_id db
  elim found [ none ↦ told answers generic_error db | some o ↦ press_confirm answers now o db ]

abbrev pub press_reject : Bool → OrderConsultation → Db → Result (Told × Db)
press_reject answers o db =
    let (done, db1) = reject_order o db in
    told answers (if done then rejected else cannot_reject) db1

unfoldable pub cb_reject_order : Bool → ℕ → ℕ → Db → Result (Told × Db)
unfolding current_order
cb_reject_order answers telegram_id order_id db = do
  found ← current_order telegram_id order_id db
  elim found [ none ↦ told answers generic_error db | some o ↦ press_reject answers o db ]

abbrev pub press_advance : Bool → OrderConsultation → Db → Result (Told × Db)
press_advance answers o db =
    let (status, db1) = advance_status o db in
    told answers (elim status [ none ↦ cannot_advance | some s ↦ advanced s ]) db1

unfoldable pub cb_advance_order : Bool → ℕ → ℕ → Db → Result (Told × Db)
unfolding current_order
cb_advance_order answers telegram_id order_id db = do
  found ← current_order telegram_id order_id db
  elim found [ none ↦ told answers generic_error db | some o ↦ press_advance answers o db ]
