-- ===== src/Admin/Owners.antt =====
-- The handlers of app/bots/main_bot/handlers/admin.py on a shop owner: the shop bot is suspended or
-- let run again, and the wallet is given credit or corrected. Every such act is written to the audit
-- log; its details are a parameter.
use kasb_o_kar_hoshmand.Base.{
  ℕ, String, Bool, true, false, Option, none, some, if◌then◌else◌, ltb, length,
}
use kasb_o_kar_hoshmand.Base.Int.{ℤ, pos, neg_part, ltb_ℤ, leb_ℤ}
use kasb_o_kar_hoshmand.Base.Texts.{same_text}
use kasb_o_kar_hoshmand.Base.Chars.{codes, Unicode}
use kasb_o_kar_hoshmand.Base.Strings.{stripped}
use kasb_o_kar_hoshmand.Base.Time.{Instant}
use kasb_o_kar_hoshmand.Base.Table.{get_row, save}
use kasb_o_kar_hoshmand.Models.{
  ShopOwner-Keyed, ShopBot-Keyed, ShopBot, AuditEventType, shop_suspended, shop_unsuspended,
  owner_gift_granted, owner_wallet_corrected, admin_grant, admin_correction, Db, Result, ok, raised,
  telegram_error, ◌>>=◌,
}
use kasb_o_kar_hoshmand.Platform.Audit.{log}
use kasb_o_kar_hoshmand.Shops.Bots.{get_by_owner}
use kasb_o_kar_hoshmand.Wallet.Charge.{add_charge}
use kasb_o_kar_hoshmand.Wallet.Deduct.{deduct}
use kasb_o_kar_hoshmand.Web.Manager.{ShopBotManager, unregister}

-- What an administrator is told.
pub data OwnerAnswer : Type 0 where
  no_shop_bot no_such_owner invalid_number empty_reason reason_too_long insufficient : OwnerAnswer
  suspended unsuspended gift_given corrected : OwnerAnswer

-- `answers` says whether Telegram takes the answer; its error is not caught, and rolls back
abbrev pub report : Bool → OwnerAnswer → Db → Result (OwnerAnswer × Db)
report answers what db = if answers then ok (what, db) else raised telegram_error

unfoldable pub shop_bot_of : ℕ → Db → Result (Option ShopBot)
shop_bot_of owner_id db = get_by_owner (get_row owner_id db.owners) db

abbrev pub id_of : Option ShopBot → Option ℕ
id_of none = none
id_of (some b) = some b.id

abbrev pub save_bot : ShopBot → Db → Db
save_bot b db = record db { shop_bots = save b db.shop_bots }

unfoldable pub cb_owner_suspend :
    Bool → String → ℕ → ℕ → Db → ShopBotManager → Result (OwnerAnswer × Db) × ShopBotManager
unfolding shop_bot_of
cb_owner_suspend answers reason admin owner_id db m = elim (shop_bot_of owner_id db) [
  | raised e ↦ (raised e, m)
  | ok none ↦ (report answers no_shop_bot db, m)
  | ok (some b) ↦ (
    report answers suspended
        (log shop_suspended (some b.id) (some admin) none
          (save_bot (record b { is_active = false; disabled_reason = some reason }) db)).1,
    unregister b.id m,
  )
]

-- `start` is `bot_manager.register`, whose exception is not caught
unfoldable pub cb_owner_unsuspend :
    Bool
    → (ShopBot → ShopBotManager → Result (Unit {0}) × ShopBotManager)
    → ℕ
    → ℕ
    → Db
    → ShopBotManager
    → Result (OwnerAnswer × Db) × ShopBotManager
unfolding shop_bot_of
cb_owner_unsuspend answers start admin owner_id db m = elim (shop_bot_of owner_id db) [
  | raised e ↦ (raised e, m)
  | ok none ↦ (report answers no_shop_bot db, m)
  | ok (some b) ↦
      let b1 : ShopBot = record b { is_active = true; disabled_reason = none } in
      let (started, m1) = start b1 m in
      (
        (do
          done ← started
          report answers unsuspended
              (log shop_unsuspended (some b.id) (some admin) none (save_bot b1 db)).1),
        m1,
      )
]

-- an entry of the audit log, with the shop bot of the owner
unfoldable pub audit :
    Bool → AuditEventType → ℕ → ℕ → String → OwnerAnswer → Db → Result (OwnerAnswer × Db)
unfolding shop_bot_of
audit answers event admin owner_id details what db = do
  shop_bot ← shop_bot_of owner_id db
  report answers what (log event (id_of shop_bot) (some admin) (some details) db).1

-- `amount` is `int(text.strip())`, with `none` for a ValueError
unfoldable pub owner_gift_amount_entered :
    Bool → Instant → ℕ → ℕ → Option ℤ → String → Db → Result (OwnerAnswer × Db)
unfolding audit
owner_gift_amount_entered answers now admin owner_id none details db =
    report answers invalid_number db
owner_gift_amount_entered answers now admin owner_id (some amount) details db =
    if leb_ℤ amount (pos 0)
    then report answers invalid_number db
    else (elim (get_row owner_id db.owners) [
      | none ↦ report answers no_such_owner db
      | some owner ↦ (do
        (charge, db1) ← add_charge now owner.id amount admin_grant none none none db
        audit answers owner_gift_granted admin owner_id details gift_given db1)
    ])

-- the part of the wallet, once the reason is accepted: whether it was done
unfoldable pub correct : Instant → ℕ → ℤ → String → Db → Result (Bool × Db)
correct now owner_id amount note db =
    if ltb_ℤ (pos 0) amount
    then (do
      (charge, db1) ← add_charge now owner_id amount admin_correction none none (some note) db
      ok (true, db1))
    else deduct owner_id (pos (neg_part amount)) admin_correction (some note) db

unfoldable pub correct_and_audit :
    Bool → Instant → ℕ → ℕ → ℤ → String → String → Db → Result (OwnerAnswer × Db)
unfolding correct audit
correct_and_audit answers now admin owner_id amount note details db =
    elim (get_row owner_id db.owners) [
      | none ↦ report answers no_such_owner db
      | some owner ↦ (do
        (applied, db1) ← correct now owner.id amount note db
        elim applied [
          | true ↦ audit answers owner_wallet_corrected admin owner_id details corrected db1
          | false ↦ report answers insufficient db1
        ])
    ]

-- the amount was read before, by `parse_signed_toman_amount`, so it is not zero
unfoldable pub owner_wallet_correction_reason_entered :
    Unicode
    → Bool
    → Instant
    → ℕ
    → ℕ
    → ℤ
    → String
    → (String → String)
    → Db
    → Result (OwnerAnswer × Db)
unfolding correct_and_audit
owner_wallet_correction_reason_entered u answers now admin owner_id amount text details db =
    let note = stripped u text in
    if same_text note ""
    then report answers empty_reason db
    else if ltb 255 (length (codes note))
    then report answers reason_too_long db
    else correct_and_audit answers now admin owner_id amount note (details note) db
