-- ===== src/Answer/Offered.antt =====
-- What a detected order adds to the tables, in app/bots/shop_bot/handlers/customer.py.
use kasb_o_kar_hoshmand.Base.{
  ℕ, ◌≡◌, refl, ap, ◌∙◌, inl, inr, Bool, true, false, ◌&&◌, Option, none, some, [], ◌∷◌, ◌++◌,
  arith, All-sort_on, where_rows_pass, Bool-cases, Option-cases, ◌==◌,
}
use kasb_o_kar_hoshmand.Base.Time.{Instant}
use kasb_o_kar_hoshmand.Base.Table.{get_row}
use kasb_o_kar_hoshmand.Base.Found.{All-get_row}
use kasb_o_kar_hoshmand.Models.{
  ShopOwner-Keyed, ShopBot-Keyed, Product-Keyed, Product, OrderConsultation, Db, Result, ok, raised,
}
use kasb_o_kar_hoshmand.Products.{get_active_by_shop_bot}
use kasb_o_kar_hoshmand.Orders.Create.{create_order_awaiting_confirmation, new_order, add_order}
use kasb_o_kar_hoshmand.Orders.Customer.{is_awaiting}
use kasb_o_kar_hoshmand.Orders.Query.{get_recent_duplicate}
use kasb_o_kar_hoshmand.Chat.Customers.{get_by_id}
use kasb_o_kar_hoshmand.Chat.Conversations.{save_turn, add_message}
use kasb_o_kar_hoshmand.Answer.Detect.{Candidate, Detected, unsure, completed}
use kasb_o_kar_hoshmand.Answer.Propose.{
  order_dedup_window_minutes, Outcome, no_outcome, asked, proposed, propose, put_to_customer,
  or_rolled_back,
}
use kasb_o_kar_hoshmand.Answer.Frame.{SameGoods}
use kasb_o_kar_hoshmand.Answer.Detected.{IsChecked, CheckedOption}

-- a product that the shop sells now
abbrev pub Offered : ℕ → Db → ℕ → Type 0
Offered shop_bot_id db i =
    (p : Product) × ((get_row i (get_active_by_shop_bot shop_bot_id db) ≡ some p)
      × (p.shop_bot_id ≡ shop_bot_id)
      × (p.is_active ≡ true))

-- The goods stay; the orders too, but for one candidate that awaits the customer, holds no stock, and
-- is for a product that the shop sells now, if for one.
abbrev pub Proposes : ℕ → ℕ → Db → Outcome × Db → Type 0
Proposes shop_bot_id customer_id db (proposed i, db') =
    (db'.products ≡ db.products)
    × (o : OrderConsultation) × ((db'.orders ≡ db.orders ++ o ∷ [])
        × (o.id ≡ i)
        × (is_awaiting o.status ≡ true)
        × (o.stock_reserved ≡ false)
        × (o.shop_bot_id ≡ shop_bot_id)
        × (o.customer_id ≡ customer_id)
        × ((j : ℕ) → o.product_id ≡ some j → Offered shop_bot_id db j))
Proposes shop_bot_id customer_id db (no_outcome, db') =
    (db'.products ≡ db.products) × (db'.orders ≡ db.orders)
Proposes shop_bot_id customer_id db (asked question, db') =
    (db'.products ≡ db.products) × (db'.orders ≡ db.orders)

abbrev pub ProposesResult : ℕ → ℕ → Db → Result (Outcome × Db) → Type 0
ProposesResult shop_bot_id customer_id db (ok r) = Proposes shop_bot_id customer_id db r
ProposesResult shop_bot_id customer_id db (raised e) = Unit

pub active_same :
    (shop : ℕ) (a b : Db)
    → SameGoods a b
    → get_active_by_shop_bot shop a ≡ get_active_by_shop_bot shop b
unfolding get_active_by_shop_bot
active_same shop a b same = ground (arith, same)

Offered-from : (shop i : ℕ) (a b : Db) → SameGoods a b → Offered shop b i → Offered shop a i
unfolding get_active_by_shop_bot
Offered-from shop i a b same (p, (found, of_shop, active)) =
    (p, (ground (arith, found, same), of_shop, active))

pub Proposes-from :
    (shop customer : ℕ) (a b : Db) (r : Outcome × Db)
    → SameGoods a b
    → Proposes shop customer b r
    → Proposes shop customer a r
Proposes-from shop customer a b (proposed i, db') same
      (products, o, (orders, id, awaiting, unheld, of_shop, of_customer, offered)) =
    (
      products ∙ same.0,
      o,
      (
        orders ∙ ap (λ os. os ++ o ∷ []) same.1,
        id,
        awaiting,
        unheld,
        of_shop,
        of_customer,
        λ j h. Offered-from shop j a b same (offered j h),
      ),
    )
Proposes-from shop customer a b (no_outcome, db') same (products, orders) =
    (products ∙ same.0, orders ∙ same.1)
Proposes-from shop customer a b (asked q, db') same (products, orders) =
    (products ∙ same.0, orders ∙ same.1)

pub ProposesResult-from :
    (shop customer : ℕ) (a b : Db) (r : Result (Outcome × Db))
    → SameGoods a b
    → ProposesResult shop customer b r
    → ProposesResult shop customer a r
ProposesResult-from shop customer a b (ok r) same h = Proposes-from shop customer a b r same h
ProposesResult-from shop customer a b (raised e) same h = tt

pub rolled_back-Proposes :
    (shop customer : ℕ) (db : Db) (r : Result (Outcome × Db))
    → ProposesResult shop customer db r
    → Proposes shop customer db (or_rolled_back db r)
rolled_back-Proposes shop customer db (ok r) h = h
rolled_back-Proposes shop customer db (raised e) h = (refl, refl)

-- a product that a query of the shop's lists is one that the shop sells
listed-Offered :
    (shop i : ℕ) (db : Db) (p : Product)
    → get_row i (get_active_by_shop_bot shop db) ≡ some p
    → Offered shop db i
unfolding get_active_by_shop_bot
listed-Offered shop i db p found =
    let sells = λ (q : Product). q.shop_bot_id == shop && q.is_active in
    let passed : sells p ≡ true =
      All-get_row (λ q. sells q ≡ true) i _
        (All-sort_on (λ q. sells q ≡ true) (λ q. q.id) _ (where_rows_pass sells db.products))
        found in
    (p, (found, ground (arith, passed), ground (arith, passed)))

propose-Proposes :
    (now : Instant) (shop customer : ℕ) (consulting : Bool) (c : Candidate) (db : Db)
    → IsChecked (get_active_by_shop_bot shop db) consulting c
    → Proposes shop customer db (propose now shop customer c db)
unfolding propose create_order_awaiting_confirmation new_order add_order
propose-Proposes now shop customer consulting c db h =
    elim (Option-cases
      (get_recent_duplicate now customer c.type c.product_id order_dedup_window_minutes db)) [
        | inr (o, recent) ↦ rw (recent, propose) (refl, refl)
        | inl fresh ↦
            rw (fresh, propose)
              (
                refl,
                _,
                (
                  refl,
                  refl,
                  refl,
                  refl,
                  refl,
                  refl,
                  λ j e. let (p, found) = h.product j e in listed-Offered shop j db p found,
                ),
              )
      ]

pub put_to_customer-Proposes :
    (answers : Bool) (now : Instant) (shop customer : ℕ) (consulting : Bool)
    (found : Option Detected) (db : Db)
    → CheckedOption (get_active_by_shop_bot shop db) consulting found
    → Proposes shop customer db (put_to_customer answers now shop customer found db)
unfolding put_to_customer save_turn add_message
put_to_customer-Proposes answers now shop customer consulting none db h = (refl, refl)
put_to_customer-Proposes answers now shop customer consulting (some (unsure question)) db h =
    elim (Option-cases (get_by_id customer db)) [
      | inl unknown ↦ rw (unknown, put_to_customer) (refl, refl)
      | inr (c, known) ↦
          rw (known, put_to_customer)
            (elim (Bool-cases answers) [
              | inl sent ↦ rw sent (refl, refl)
              | inr lost ↦ rw lost (refl, refl)
            ])
    ]
put_to_customer-Proposes answers now shop customer consulting (some (completed c)) db h =
    elim (Option-cases (get_by_id customer db)) [
      | inl unknown ↦ rw (unknown, put_to_customer) (refl, refl)
      | inr (_, known) ↦
          rw (known, put_to_customer) (propose-Proposes now shop customer consulting c db h)
    ]
