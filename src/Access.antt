-- ===== src/Access.antt =====
-- `_check_access` and `_deduct_and_notify` of app/bots/shop_bot/handlers/customer.py: what stands
-- before an answer to a customer, and what the owner pays for it.
mod Examples
use kasb_o_kar_hoshmand.Base.{
  ℕ, ◌≡◌, refl, subst, sym, inl, inr, Bool, true, false, not, Option, none, some, arith,
  if◌then◌else◌, Option-cases, Bool-cases,
}
use kasb_o_kar_hoshmand.Base.Int.{ℤ, pos, leb_ℤ, ltb_ℤ, ◌<ℤ◌}
use kasb_o_kar_hoshmand.Base.Time.{Instant}
use kasb_o_kar_hoshmand.Base.Table.{get_row}
use kasb_o_kar_hoshmand.Models.{
  ShopOwner-Keyed, AdminSettings, ShopOwner, WalletTransactionReason, Db, Result, Result-cases, ok,
  raised, telegram_error, ◌>>=◌,
}
use kasb_o_kar_hoshmand.Settings.{get_admin_settings}
use kasb_o_kar_hoshmand.Wallet.Deduct.{deduct}
use kasb_o_kar_hoshmand.Wallet.Notify.{
  try_claim_empty_notification, try_claim_low_balance_notification,
}
use kasb_o_kar_hoshmand.Wallet.Reach.{IsSound, WalletStep, WalletStep-IsSound}
use kasb_o_kar_hoshmand.Billing.Frame.{SameWallets, settings-SameWallets}
use kasb_o_kar_hoshmand.Limiter.Window.{Windows, check_and_record}

-- A refusal: the customer is told, and an error of Telegram is not caught. `answers` says whether
-- Telegram takes the message. The tables are `db`, once the owner is told.
abbrev pub refuse : Bool → Db → Result (Bool × Db)
refuse answers db = if answers then ok (false, db) else raised telegram_error

-- The windows of the limiter are in memory: they stay also where the session is rolled back.
unfoldable pub check_access :
    Bool → Instant → ℕ → ℕ → ℕ → Db → Windows → Result (Bool × Db) × Windows
check_access answers now shop_bot_id shop_owner_id customer_id db windows =
    let (settings, db1) = get_admin_settings db in
    if settings.maintenance_mode
    then (refuse answers db1, windows)
    else (elim (get_row shop_owner_id db1.owners) [
      | none ↦ (refuse answers db1, windows)
      | some owner ↦
          if leb_ℤ owner.wallet_balance_toman (pos 0)
          then (refuse answers (try_claim_empty_notification now owner.id db1).1, windows)
          else (let (done, windows1) =
                check_and_record now shop_bot_id customer_id settings.rate_limit_max_messages
                  settings.rate_limit_window_seconds windows in
              if done then (ok (true, db1), windows1) else (refuse answers db1, windows1))
    ])

-- the notices after a deduction, by the balance that it left
unfoldable pub notify_owner : Instant → AdminSettings → ℕ → Db → Db
notify_owner now settings owner_id db = elim (get_row owner_id db.owners) [
  | none ↦ db
  | some owner ↦
      if leb_ℤ owner.wallet_balance_toman (pos 0)
      then (try_claim_empty_notification now owner_id db).1
      else if ltb_ℤ owner.wallet_balance_toman (pos settings.wallet_low_balance_warning_toman)
      then (try_claim_low_balance_notification now owner_id db).1
      else db
]

-- A deduction that is refused is logged and nothing else.
unfoldable pub deduct_and_notify :
    Instant → AdminSettings → ℕ → ℕ → WalletTransactionReason → Db → Result Db
deduct_and_notify now settings owner_id amount reason db = do
  (success, db1) ← deduct owner_id (pos amount) reason none db
  ok (notify_owner now settings owner_id db1)

-- A customer gets an answer only while the platform is not in maintenance, the owner's balance is
-- above zero, and the limiter lets the message through; the check itself changes no wallet.
pub check_access_granted :
    (answers : Bool) (now : Instant) (shop_bot_id shop_owner_id customer_id : ℕ) (db : Db)
    (windows windows' : Windows) {db' : Db}
    → check_access answers now shop_bot_id shop_owner_id customer_id db windows
      ≡ (ok (true, db'), windows')
    → let settings = (get_admin_settings db).0 in
      (settings.maintenance_mode ≡ false)
      × ((o : ShopOwner) × ((get_row shop_owner_id db.owners ≡ some o)
            × (pos 0 <ℤ o.wallet_balance_toman)))
      × (check_and_record now shop_bot_id customer_id settings.rate_limit_max_messages
            settings.rate_limit_window_seconds windows
          ≡ (true, windows'))
      × SameWallets db db'
unfolding check_access
check_access_granted answers now shop_bot_id shop_owner_id customer_id db windows windows' {db'} e =
    let db1 = (get_admin_settings db).1 in
    elim (Bool-cases (get_admin_settings db).0.maintenance_mode) [
      | inl closed ↦ absurd (ground (arith, closed))
      | inr running ↦ elim (Option-cases (get_row shop_owner_id db1.owners)) [
        | inl missing ↦ absurd (ground (arith, running, missing))
        | inr (o, found) ↦ elim (Bool-cases (leb_ℤ o.wallet_balance_toman (pos 0))) [
          | inl empty ↦ absurd (ground (arith, running, found, empty))
          | inr paid ↦ (
            running,
            (o, (ground (arith, found, settings-SameWallets db), ground (arith, paid))),
            ground (arith, running, found, paid),
            ground (arith, running, found, paid, settings-SameWallets db),
          )
        ]
      ]
    ]

notify_owner-IsSound :
    (now : Instant) (settings : AdminSettings) (owner_id : ℕ) (db : Db)
    → IsSound db
    → IsSound (notify_owner now settings owner_id db)
unfolding notify_owner
notify_owner-IsSound now settings owner_id db h = elim (Option-cases (get_row owner_id db.owners)) [
  | inl missing ↦ rw (missing, notify_owner) h
  | inr (o, found) ↦
      rw (found, notify_owner)
        (elim (Bool-cases (leb_ℤ o.wallet_balance_toman (pos 0))) [
          | inl empty ↦ rw empty (WalletStep-IsSound (WalletStep.notify_empty now owner_id) h)
          | inr left ↦
              rw left
                (elim (Bool-cases
                  (ltb_ℤ o.wallet_balance_toman (pos settings.wallet_low_balance_warning_toman))) [
                    | inl low ↦ rw low (WalletStep-IsSound (WalletStep.notify_low now owner_id) h)
                    | inr enough ↦ rw enough h
                  ])
        ])
]

-- Charging an owner for an answer, with the notices that follow, keeps the wallets sound.
pub deduct_and_notify-IsSound :
    (now : Instant) (settings : AdminSettings) (owner_id amount : ℕ)
    (reason : WalletTransactionReason) (db : Db) {db' : Db}
    → IsSound db
    → deduct_and_notify now settings owner_id amount reason db ≡ ok db'
    → IsSound db'
unfolding deduct_and_notify
deduct_and_notify-IsSound now settings owner_id amount reason db {db'} h e =
    elim (Result-cases (deduct owner_id (pos amount) reason none db)) [
      | inl ((done, db1), step) ↦
          subst IsSound {x = notify_owner now settings owner_id db1} (ground (arith, step)) (
            notify_owner-IsSound now settings owner_id db1
              (WalletStep-IsSound (WalletStep.spend owner_id (pos amount) reason none done step) h))
      | inr (x, failed) ↦ absurd (ground (arith, failed))
    ]
