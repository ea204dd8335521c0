-- ===== src/Web/Payments.antt =====
-- The callbacks of the two gateways in app/main.py. The gateways' own confirmation of a payment is a
-- parameter. Notices that fail are passed over, but for the key `referred_telegram_id`, which the dict
-- of a commission does not have: then the response is an error, after the session was committed.
use kasb_o_kar_hoshmand.Base.{ℕ, String, Bool, false, not, ◌||◌, Option, none, some, if◌then◌else◌}
use kasb_o_kar_hoshmand.Base.Texts.{same_text}
use kasb_o_kar_hoshmand.Base.Time.{Instant}
use kasb_o_kar_hoshmand.Base.Table.{get_row}
use kasb_o_kar_hoshmand.Models.{ShopOwner-Keyed, Payment, Db, Result, ok, raised}
use kasb_o_kar_hoshmand.Settings.{get_admin_settings}
use kasb_o_kar_hoshmand.Ai.Pool.{given}
use kasb_o_kar_hoshmand.Billing.Reward.{RewardInfo}
use kasb_o_kar_hoshmand.Billing.Pay.{is_pending, get_by_zarinpal_authority, get_by_bale_payload}
use kasb_o_kar_hoshmand.Billing.Approve.{Effect, approve_zarinpal_payment, approve_bale_payment}

-- What the callback answers with.
pub data Answer : Type 0 where
  failed successful server_error : Answer

-- the notices after a payment
abbrev pub notify_payment_result : Option RewardInfo → Answer
notify_payment_result none = successful
notify_payment_result (some info) = server_error

-- The end of the session: an exception rolls it back.
unfoldable pub conclude : Payment → Db → Result ((Effect × Option RewardInfo) × Db) → Answer × Db
conclude p db (raised e) = (server_error, db)
conclude p db (ok ((effect, reward_info), db1)) = elim (get_row p.shop_owner_id db1.owners) [
  | none ↦ (server_error, db)
  | some owner ↦ (notify_payment_result reward_info, db1)
]

module _ (plus_months : Instant → ℕ → Instant) where
  -- `verify` is `zarinpal_service.verify_payment`: the reference of a payment that went through
  module _ (verify : Option String → ℕ → String → Option String) where
    -- a pending payment is confirmed by the gateway, and approved
    unfoldable pub confirm_zarinpal : Instant → String → Payment → Db → Answer × Db
    unfolding conclude
    confirm_zarinpal now authority p db =
        let (settings, db1) = get_admin_settings db in
        elim (verify settings.zarinpal_merchant_id p.final_amount authority) [
          | none ↦ (failed, db1)
          | some ref_id ↦ conclude p db (approve_zarinpal_payment plus_months now p ref_id db1)
        ]

    unfoldable pub zarinpal_callback : Instant → String → String → Db → Answer × Db
    unfolding confirm_zarinpal
    zarinpal_callback now authority status db =
        if not (same_text status "OK")
        then (failed, db)
        else (elim (get_by_zarinpal_authority authority db) [
          | raised e ↦ (server_error, db)
          | ok none ↦ (failed, db)
          | ok (some p) ↦
              if is_pending p.status then confirm_zarinpal now authority p db else (failed, db)
        ])

  -- `inquire` is `bale_service.inquire_transaction`: the status of a transaction, in lower case
  module _ (inquire : String → Option String) where
    abbrev pub is_paid : String → Bool
    is_paid status =
        same_text status "successful"
        || (same_text status "success" || (same_text status "paid" || same_text status "ok"))

    unfoldable pub confirm_bale : Instant → String → Payment → Db → Answer × Db
    unfolding conclude
    confirm_bale now transaction_id p db = elim (inquire transaction_id) [
      | none ↦ (failed, db)
      | some status ↦
          if is_paid status
          then conclude p db (approve_bale_payment plus_months now p transaction_id db)
          else (failed, db)
    ]

    -- the transaction of a pending payment is asked for at Bale, and the payment approved
    unfoldable pub handle_bale_successful_payment :
        Instant → Option String → Option String → Db → Answer × Db
    unfolding confirm_bale
    handle_bale_successful_payment now invoice_payload transaction_id db =
        elim (given invoice_payload) [
          | none ↦ (failed, db)
          | some payload ↦ elim (given transaction_id) [
            | none ↦ (failed, db)
            | some transaction ↦ elim (get_by_bale_payload payload db) [
              | raised e ↦ (server_error, db)
              | ok none ↦ (failed, db)
              | ok (some p) ↦
                  if is_pending p.status then confirm_bale now transaction p db else (failed, db)
            ]
          ]
        ]

-- whether a payment may go on, as Bale asks before it takes the money
unfoldable pub handle_bale_pre_checkout : Option String → Db → Result Bool
handle_bale_pre_checkout invoice_payload db = elim (given invoice_payload) [
  | none ↦ ok false
  | some payload ↦ elim (get_by_bale_payload payload db) [
    | raised e ↦ raised e
    | ok none ↦ ok false
    | ok (some p) ↦ ok (is_pending p.status)
  ]
]
