-- ===== src/Answer/Refused.antt =====
-- Messages that are refused, in app/bots/shop_bot/handlers/customer.py.
use kasb_o_kar_hoshmand.Base.{
  ℕ, ◌≡◌, ◌⊎◌, refl, inl, inr, Bool, true, false, none, some, arith, Option-cases,
}
use kasb_o_kar_hoshmand.Base.Time.{Instant}
use kasb_o_kar_hoshmand.Base.Table.{get_row}
use kasb_o_kar_hoshmand.Models.{ShopOwner-Keyed, ShopBot, Db, Result, Result-cases, ok, raised}
use kasb_o_kar_hoshmand.Settings.{get_admin_settings}
use kasb_o_kar_hoshmand.Limiter.Window.{Windows}
use kasb_o_kar_hoshmand.Wallet.Notify.{try_claim_empty_notification}
use kasb_o_kar_hoshmand.Shops.Bots.{get_by_bot_telegram_id}
use kasb_o_kar_hoshmand.Access.{check_access}
use kasb_o_kar_hoshmand.Answer.Media.{Sender, Memory, Handler, admitted}

-- the message went to a shop bot, and the check before an answer let it through
abbrev pub Granted : Bool → Sender → Db → Memory → Type 0
Granted answers m db s =
    (b : ShopBot) × (db1 : Db) × (windows : Windows) × ((get_by_bot_telegram_id m.bot_id db
        ≡ ok (some b))
      × (check_access answers m.now b.id b.shop_owner_id m.telegram_id db s.windows
          ≡ (ok (true, db1), windows)))

-- nothing was paid
abbrev pub Unpaid : Db → Result Db → Type 0
Unpaid db (ok db') = (db'.charges ≡ db.charges) × (db'.transactions ≡ db.transactions)
Unpaid db (raised e) = Unit

abbrev UnpaidAccess : Db → Result (Bool × Db) → Type 0
UnpaidAccess db (ok (done, db')) = (db'.charges ≡ db.charges) × (db'.transactions ≡ db.transactions)
UnpaidAccess db (raised e) = Unit

claim_free :
    (now : Instant) (i : ℕ) (db : Db)
    → let db' = (try_claim_empty_notification now i db).1 in
      (db'.charges ≡ db.charges) × (db'.transactions ≡ db.transactions)
unfolding try_claim_empty_notification
claim_free now i db = ground arith

settings_free :
    (db : Db)
    → let db' = (get_admin_settings db).1 in
      (db'.charges ≡ db.charges) × (db'.transactions ≡ db.transactions)
unfolding get_admin_settings
settings_free db = ground arith

check_access-Unpaid :
    (answers : Bool) (now : Instant) (shop i customer : ℕ) (db : Db) (windows : Windows)
    {done : Bool} {db' : Db} {windows' : Windows}
    → check_access answers now shop i customer db windows ≡ (ok (done, db'), windows')
    → (db'.charges ≡ db.charges) × (db'.transactions ≡ db.transactions)
unfolding check_access
check_access-Unpaid answers now shop i customer db windows e =
    let db1 = (get_admin_settings db).1 in
    elim (Option-cases (get_row i db1.owners)) [
      | inl missing ↦ ground (arith, missing, settings_free db)
      | inr (owner, found) ↦ ground (arith, found, settings_free db, claim_free now owner.id db1)
    ]

-- A message that a check refuses, or that came to no shop bot, is not answered later and calls no
-- service, whatever the handler is, and nothing is paid for it.
pub admitted_refused :
    (answers : Bool) (m : Sender) (handle : Handler) (db : Db) (s : Memory)
    → let (result, s') = admitted answers m handle db s in
      Granted answers m db s
      ⊎ ((s'.pending ≡ s.pending) × (s'.circuits ≡ s.circuits) × Unpaid db result)
unfolding admitted
admitted_refused answers m handle db s = elim (Result-cases (get_by_bot_telegram_id m.bot_id db)) [
  | inr (x, failed) ↦ inr (rw (failed, admitted) (refl, refl, tt))
  | inl (none, asked) ↦ inr (rw (asked, admitted) (refl, refl, (refl, refl)))
  | inl (some b, asked) ↦
      let access = check_access answers m.now b.id b.shop_owner_id m.telegram_id db s.windows in
      elim (Result-cases access.0) [
        | inr (x, failed) ↦ inr (rw (asked, failed, admitted) (refl, refl, tt))
        | inl ((true, db1), granted) ↦ inl (b, db1, access.1, (asked, ground (arith, granted)))
        | inl ((false, db1), refused) ↦
            let free =
              check_access-Unpaid answers m.now b.id b.shop_owner_id m.telegram_id db s.windows
                {done = false} {db' = db1} {windows' = access.1} (ground (arith, refused)) in
            inr (rw (asked, refused, admitted) (refl, refl, free))
      ]
]
