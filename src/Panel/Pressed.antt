-- ===== src/Panel/Pressed.antt =====
-- The buttons on orders, in app/bots/main_bot/handlers/panel.py and
-- app/bots/shop_bot/handlers/customer.py, are steps of the orders, by who may take them.
use kasb_o_kar_hoshmand.Base.{
  ℕ, ◌≡◌, refl, false, Option, sym, subst, inl, inr, Bool, none, some, ◌&&◌, ◌==◌, ◌⊎◌,
  if◌then◌else◌, arith,
}
use kasb_o_kar_hoshmand.Base.Time.{Instant}
use kasb_o_kar_hoshmand.Base.Table.{get_row, Unique}
use kasb_o_kar_hoshmand.Models.{
  OrderConsultation-Keyed, ShopBot, OrderConsultation, Db, Result, Result-cases, ok, raised, Exn,
  ◌>>=◌, selected-cases,
}
use kasb_o_kar_hoshmand.Orders.Query.{get_owned_by_id}
use kasb_o_kar_hoshmand.Orders.Owner.{confirm_order, reject_order, advance_status}
use kasb_o_kar_hoshmand.Orders.Reach.{OrderStep}
use kasb_o_kar_hoshmand.Panel.Orders.{
  Told, told, generic_error, already_confirmed, confirmed, rejected, cannot_reject, advanced,
  cannot_advance, current_shop_bot, current_order, press_confirm, press_reject, press_advance,
  cb_confirm_order, cb_reject_order, cb_advance_order,
}

-- The order that a button reaches is the one named, of the shop of the owner who pressed it, and is the
-- row of its id.
pub record IsOwned (telegram_id order_id : ℕ) (db : Db) (o : OrderConsultation) : Type 0 where
  pub shop_bot : ShopBot
  pub asked : current_shop_bot telegram_id db ≡ ok (some shop_bot)
  pub id : o.id ≡ order_id
  pub owned : o.shop_bot_id ≡ shop_bot.id
  pub row : get_row o.id db.orders ≡ some o

-- How a press ends that acts on an order: it acts on the one named, by one step, or the owner has no
-- such order, or the lookup of the owner or the shop raises. `seen` is what the owner is told then, and
-- `act` the tables.
abbrev pub StepsOwn :
    Bool
    → ℕ
    → ℕ
    → Db
    → (OrderConsultation → Told)
    → (OrderConsultation → Db)
    → Result (Told × Db)
    → Type 0
StepsOwn answers telegram_id order_id db seen act result =
    ((o : OrderConsultation) × (IsOwned telegram_id order_id db o
        × OrderStep db (act o)
        × (result ≡ told answers (seen o) (act o))))
    ⊎ (((¬ ((o : OrderConsultation) × IsOwned telegram_id order_id db o))
          × (result ≡ told answers generic_error db))
        ⊎ ((x : Exn) × ((current_shop_bot telegram_id db ≡ raised x) × (result ≡ raised x))))

-- What a button finds, from what the lookup gives.
abbrev Finds : ℕ → ℕ → Db → Result (Option OrderConsultation) → Type 0
Finds telegram_id order_id db found =
    ((o : OrderConsultation) × (IsOwned telegram_id order_id db o × (found ≡ ok (some o))))
    ⊎ (((¬ ((o : OrderConsultation) × IsOwned telegram_id order_id db o)) × (found ≡ ok none))
        ⊎ ((x : Exn) × ((current_shop_bot telegram_id db ≡ raised x) × (found ≡ raised x))))

not_selected :
    (telegram_id order_id : ℕ) (db : Db) (o : OrderConsultation) {b : ShopBot}
    → (own : IsOwned telegram_id order_id db o) → current_shop_bot telegram_id db ≡ ok (some b)
    → (o.id == order_id && o.shop_bot_id == b.id) ≡ false
    → ⊥
not_selected telegram_id order_id db o {b} own mine dropped =
    let same : own.shop_bot ≡ b = ground (arith, own.asked, mine) in
    absurd (ground (arith, same, own.id, own.owned, dropped))

current_order-Finds :
    (telegram_id order_id : ℕ) (db : Db)
    → Unique db.orders
    → Finds telegram_id order_id db (current_order telegram_id order_id db)
unfolding current_order get_owned_by_id
current_order-Finds telegram_id order_id db u =
    elim (Result-cases (current_shop_bot telegram_id db)) [
      | inr (x, failed) ↦ inr (inr (x, (failed, ground (arith, failed))))
      | inl (none, mine) ↦
          inr (inl (λ h. absurd (ground (arith, mine, h.1.asked)), ground (arith, mine)))
      | inl (some b, mine) ↦
          let selects = λ (x : OrderConsultation). x.id == order_id && x.shop_bot_id == b.id in
          elim (selected-cases order_id selects db.orders u (λ q passed. ground arith)) [
            | inl (o, (found, passed, asked)) ↦
                let id : o.id ≡ order_id = ground (arith, passed) in
                inl (
                  o,
                  (
                    record {
                      shop_bot = b;
                      asked = mine;
                      id = id;
                      owned = ground (arith, passed);
                      row = subst (λ j. get_row j db.orders ≡ some o) (sym id) found;
                    },
                    ground (arith, mine, asked),
                  ),
                )
            | inr (other, asked) ↦ inr (
                inl (
                  λ h.
                      not_selected telegram_id order_id db h.0 h.1 mine
                        (other h.0 (subst (λ j. get_row j db.orders ≡ some h.0) h.1.id h.1.row)),
                  ground (arith, mine, asked),
                ))
          ]
    ]

-- a button, once the order is found
abbrev Button : Type 0
Button = OrderConsultation → Db → Result (Told × Db)

abbrev run : Bool → Button → Db → Result (Option OrderConsultation) → Result (Told × Db)
run answers button db result = do
  found ← result
  elim found [ none ↦ told answers generic_error db | some o ↦ button o db ]

run-StepsOwn :
    (answers : Bool) (button : Button) (telegram_id order_id : ℕ) (db : Db)
    (seen : OrderConsultation → Told) (act : OrderConsultation → Db)
    → Unique db.orders
    → ((o : OrderConsultation)
        → get_row o.id db.orders ≡ some o
        → OrderStep db (act o) × (button o db ≡ told answers (seen o) (act o)))
    → StepsOwn answers telegram_id order_id db seen act
        (run answers button db (current_order telegram_id order_id db))
run-StepsOwn answers button telegram_id order_id db seen act u steps =
    elim (current_order-Finds telegram_id order_id db u) [
      | inl (o, (own, found)) ↦
          let (step, shown) = steps o own.row in inl (o, (own, step, rw found shown))
      | inr (inl (nobody, found)) ↦ inr (inl (nobody, rw found refl))
      | inr (inr (x, (failed, found))) ↦ inr (inr (x, (failed, rw found refl)))
    ]

abbrev pub seen_confirm : Instant → Db → OrderConsultation → Told
seen_confirm now db o = if (confirm_order now o db).0 then confirmed else already_confirmed

abbrev pub seen_reject : Db → OrderConsultation → Told
seen_reject db o = if (reject_order o db).0 then rejected else cannot_reject

abbrev pub seen_advance : Db → OrderConsultation → Told
seen_advance db o = elim (advance_status o db).0 [ none ↦ cannot_advance | some s ↦ advanced s ]

-- an order that is confirmed already is told so without a call, which would have changed nothing
press_confirm-told :
    (answers : Bool) (now : Instant) (o : OrderConsultation) (db : Db)
    → press_confirm answers now o db
      ≡ told answers (seen_confirm now db o) (confirm_order now o db).1
unfolding confirm_order
press_confirm-told answers now o db = ground arith

-- Each of the owner's three buttons on an order, which confirm it, reject it and move it on, does to the
-- order that the button names just what the order's own operation does, one step of the orders, if it
-- is an order of the shop of the owner who pressed; if it is not, nothing changes and the owner is told
-- of an error. A press raises only where the lookup of the owner or of the shop does, or where Telegram
-- does not take the answer. The ids of the orders are unique.
pub owner_buttons-StepsOwn :
    (answers : Bool) (now : Instant) (telegram_id order_id : ℕ) (db : Db)
    → Unique db.orders
    → StepsOwn answers telegram_id order_id db
        (seen_confirm now db)
        (λ o. (confirm_order now o db).1)
        (cb_confirm_order answers now telegram_id order_id db)
      × StepsOwn answers telegram_id order_id db
          (seen_reject db)
          (λ o. (reject_order o db).1)
          (cb_reject_order answers telegram_id order_id db)
      × StepsOwn answers telegram_id order_id db
          (seen_advance db)
          (λ o. (advance_status o db).1)
          (cb_advance_order answers telegram_id order_id db)
unfolding cb_confirm_order cb_reject_order cb_advance_order
owner_buttons-StepsOwn answers now telegram_id order_id db u = (
  run-StepsOwn answers (press_confirm answers now) telegram_id order_id db (seen_confirm now db)
      (λ o. (confirm_order now o db).1) u
      (λ o row. (OrderStep.confirm now o row, press_confirm-told answers now o db)),
  run-StepsOwn answers (press_reject answers) telegram_id order_id db (seen_reject db)
      (λ o. (reject_order o db).1) u (λ o row. (OrderStep.reject o row, refl)),
  run-StepsOwn answers (press_advance answers) telegram_id order_id db (seen_advance db)
      (λ o. (advance_status o db).1) u (λ o row. (OrderStep.advance o row, refl)),
)
