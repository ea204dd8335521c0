-- ===== src/Answer/Buttons.antt =====
-- The buttons under a proposed order, in app/bots/shop_bot/handlers/customer.py. The order's id is the
-- one that the button's data names.
use kasb_o_kar_hoshmand.Base.{ℕ, ◌≡◌, Bool, true, Option, none, some, if◌then◌else◌, is_some, ◌⊎◌}
use kasb_o_kar_hoshmand.Base.Time.{Instant}
use kasb_o_kar_hoshmand.Base.Table.{get_row}
use kasb_o_kar_hoshmand.Models.{
  ShopOwner-Keyed, OrderConsultation-Keyed, ShopBot, Customer, OrderConsultation, Db, Result, ok,
  raised, telegram_error, Exn, ◌>>=◌,
}
use kasb_o_kar_hoshmand.Shops.Bots.{get_by_bot_telegram_id}
use kasb_o_kar_hoshmand.Chat.Customers.{get_by_shop_bot_and_telegram_id}
use kasb_o_kar_hoshmand.Orders.Customer.{
  is_awaiting, get_awaiting_confirmation_for_customer, customer_confirm_order,
  customer_cancel_order,
}

abbrev pub Resolved : Type 0
Resolved = ShopBot × Customer × OrderConsultation

-- the candidate, once its shop and its customer are known
abbrev pub candidate_of : ℕ → ShopBot → Option Customer → Db → Result (Option Resolved)
candidate_of order_id b none db = ok none
candidate_of order_id b (some c) db = do
  found ← get_awaiting_confirmation_for_customer order_id c.id db
  elim found [ none ↦ ok none | some o ↦ ok (some (b, c, o)) ]

abbrev pub resolve_in : ℕ → ℕ → Option ShopBot → Db → Result (Option Resolved)
resolve_in order_id telegram_id none db = ok none
resolve_in order_id telegram_id (some b) db = do
  customer ← get_by_shop_bot_and_telegram_id b.id telegram_id db
  candidate_of order_id b customer db

unfoldable pub resolve_awaiting_order_for_callback : ℕ → ℕ → ℕ → Db → Result (Option Resolved)
resolve_awaiting_order_for_callback bot_id telegram_id order_id db = do
  shop_bot ← get_by_bot_telegram_id bot_id db
  resolve_in order_id telegram_id shop_bot db

-- What the customer sees. A confirmation carries the notice to the owner, if there is one: whom it goes
-- to, and whether it has the buttons on the stock.
pub data Pressed : Type 0 where
  no_longer_valid cancelled : Pressed
  confirmed : Option (ℕ × Bool) → Pressed

-- the owner's notice may fail without effect
abbrev pub owner_notice : ShopBot → OrderConsultation → Db → Option (ℕ × Bool)
owner_notice b o db = elim (get_row b.shop_owner_id db.owners) [
  | none ↦ none
  | some owner ↦ some (owner.telegram_id, is_some o.product_id)
]

-- `answers` says whether Telegram takes the answer; its error is not caught, and rolls back
abbrev pub press : Bool → Pressed → Db → Result (Pressed × Db)
press answers seen db = if answers then ok (seen, db) else raised telegram_error

unfoldable pub cb_customer_confirm_order : Bool → Instant → ℕ → ℕ → ℕ → Db → Result (Pressed × Db)
unfolding resolve_awaiting_order_for_callback
cb_customer_confirm_order answers now bot_id telegram_id order_id db = do
  found ← resolve_awaiting_order_for_callback bot_id telegram_id order_id db
  elim found [
    | none ↦ press answers no_longer_valid db
    | some (b, c, o) ↦
        let (o1, db1) = customer_confirm_order now o db in
        press answers (confirmed (owner_notice b o1 db1)) db1
  ]

unfoldable pub cb_customer_cancel_order : Bool → ℕ → ℕ → ℕ → Db → Result (Pressed × Db)
unfolding resolve_awaiting_order_for_callback
cb_customer_cancel_order answers bot_id telegram_id order_id db = do
  found ← resolve_awaiting_order_for_callback bot_id telegram_id order_id db
  elim found [
    | none ↦ press answers no_longer_valid db
    | some (b, c, o) ↦ press answers cancelled (customer_cancel_order o db)
  ]

-- The candidate that a button reaches is the one named, of the customer who pressed it in that shop's
-- bot, still waits for the answer, and is the row of its id.
pub record IsOwn (bot_id telegram_id order_id : ℕ) (db : Db) (o : OrderConsultation) : Type 0 where
  pub shop_bot : ShopBot
  pub customer : Customer
  pub asked_bot : get_by_bot_telegram_id bot_id db ≡ ok (some shop_bot)
  pub asked_customer :
      get_by_shop_bot_and_telegram_id shop_bot.id telegram_id db ≡ ok (some customer)
  pub id : o.id ≡ order_id
  pub owned : o.customer_id ≡ customer.id
  pub awaiting : is_awaiting o.status ≡ true
  pub row : get_row o.id db.orders ≡ some o

-- Two rows have one Telegram id, where the bot is looked up or where the customer is.
abbrev pub IsAmbiguous : ℕ → ℕ → Db → Exn → Type 0
IsAmbiguous bot_id telegram_id db x =
    (get_by_bot_telegram_id bot_id db ≡ raised x)
    ⊎ ((b : ShopBot) × ((get_by_bot_telegram_id bot_id db ≡ ok (some b))
          × (get_by_shop_bot_and_telegram_id b.id telegram_id db ≡ raised x)))

-- What a button on a candidate finds, from what the lookup gives.
abbrev Finds : ℕ → ℕ → ℕ → Db → Result (Option Resolved) → Type 0
Finds bot_id telegram_id order_id db found =
    ((o : OrderConsultation) × (own : IsOwn bot_id telegram_id order_id db o) × (found
        ≡ ok (some (own.shop_bot, own.customer, o))))
    ⊎ (((¬ ((o : OrderConsultation) × IsOwn bot_id telegram_id order_id db o)) × (found ≡ ok none))
        ⊎ ((x : Exn) × (IsAmbiguous bot_id telegram_id db x × (found ≡ raised x))))

-- How a press that acts on a candidate ends: it acts on the presser's own, or there is none, or the
-- lookup raises. `seen` is what the customer sees then, and `act` the tables.
abbrev pub ActsOnOwn :
    Bool
    → ℕ
    → ℕ
    → ℕ
    → Db
    → (ShopBot → OrderConsultation → Pressed)
    → (OrderConsultation → Db)
    → Result (Pressed × Db)
    → Type 0
ActsOnOwn answers bot_id telegram_id order_id db seen act result =
    ((o : OrderConsultation) × (own : IsOwn bot_id telegram_id order_id db o) × (result
        ≡ press answers (seen own.shop_bot o) (act o)))
    ⊎ (((¬ ((o : OrderConsultation) × IsOwn bot_id telegram_id order_id db o))
          × (result ≡ press answers no_longer_valid db))
        ⊎ ((x : Exn) × (IsAmbiguous bot_id telegram_id db x × (result ≡ raised x))))
