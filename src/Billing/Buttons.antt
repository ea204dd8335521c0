-- ===== src/Billing/Buttons.antt =====
-- The administrators' buttons of app/bots/main_bot/handlers/admin.py, pressed on one payment.
use kasb_o_kar_hoshmand.Base.{
  ℕ, ◌≡◌, subst, inl, inr, Bool, true, false, Option, some, arith, Option-cases,
}
use kasb_o_kar_hoshmand.Base.Time.{Instant}
use kasb_o_kar_hoshmand.Base.Table.{get_row, get_row-key, get_row-save_self}
use kasb_o_kar_hoshmand.Models.{
  ShopOwner-Keyed, Payment-Keyed, Payment, PaymentStatus, Db, Result-cases, ok,
}
use kasb_o_kar_hoshmand.Billing.Reward.{RewardInfo}
use kasb_o_kar_hoshmand.Billing.Pay.{get_by_id}
use kasb_o_kar_hoshmand.Billing.Approve.{Effect, approve_payment, cb_admin_approve_payment}
use kasb_o_kar_hoshmand.Billing.Settled.{settle-IsSound}

-- The row of a payment that the button approves.
abbrev pub approved_by : ℕ → Instant → Payment → Payment
approved_by admin now p = record p {
  status = PaymentStatus.approved;
  reviewed_at = some now;
  reviewed_by_admin_id = some admin;
}

module _ (plus_months : Instant → ℕ → Instant) where
  approve_payment-row :
      (now : Instant) (p : Payment) (admin : ℕ) (db : Db) {x : Effect × Option RewardInfo}
      {db' : Db}
      → get_row p.id db.payments ≡ some p
      → approve_payment plus_months now p admin db ≡ ok (x, db')
      → get_row p.id db'.payments ≡ some (approved_by admin now p)
  unfolding approve_payment
  approve_payment-row now p admin db {x} {db'} found e =
      let (sound, payments, used) = settle-IsSound plus_months now p _ db {x = x} e in
      rw payments (get_row-save_self (approved_by admin now p) db.payments found)

  approved_row :
      (answers : Bool) (now : Instant) (payment_id admin : ℕ) (db : Db) {db' : Db}
      → cb_admin_approve_payment plus_months answers now payment_id admin db ≡ ok (true, db')
      → (p : Payment) × ((get_row payment_id db.payments ≡ some p)
          × (get_row payment_id db'.payments ≡ some (approved_by admin now p)))
  unfolding cb_admin_approve_payment get_by_id
  approved_row answers now payment_id admin db {db'} e =
      elim (Option-cases (get_row payment_id db.payments)) [
        | inl missing ↦ absurd (ground (arith, missing))
        | inr (p, found) ↦ elim (Result-cases (approve_payment plus_months now p admin db)) [
          | inl ((x, db1), step) ↦
              let same : p.id ≡ payment_id = get_row-key payment_id db.payments found in
              let kept : db1 ≡ db' = ground (arith, found, step) in
              let row = approve_payment-row now p admin db {x = x} (simp same found) step in
              (
                p,
                (
                  found,
                  subst (λ d. get_row payment_id d.payments ≡ some (approved_by admin now p)) kept
                      (subst (λ i. get_row i db1.payments ≡ some (approved_by admin now p)) same
                        row),
                ),
              )
          | inr (x1, failed) ↦ absurd (ground (arith, found, failed))
        ]
      ]

  -- A payment that the button has approved is not approved again: a second press, by any
  -- administrator at any time, changes nothing.
  pub cb_admin_approve_once :
      (answers : Bool) (now later : Instant) (payment_id admin admin' : ℕ) (db : Db) {db' : Db}
      → cb_admin_approve_payment plus_months answers now payment_id admin db ≡ ok (true, db')
      → cb_admin_approve_payment plus_months true later payment_id admin' db' ≡ ok (false, db')
  unfolding cb_admin_approve_payment get_by_id
  cb_admin_approve_once answers now later payment_id admin admin' db {db'} e =
      let (p, (found, left)) = approved_row answers now payment_id admin db e in
      ground (arith, left)
