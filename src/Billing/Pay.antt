-- ===== src/Billing/Pay.antt =====
-- app/services/payment_service.py: the queries, and payments as they are made and rejected.
use mathlib.Core.List.{reverse}
use kasb_o_kar_hoshmand.Base.{
  ℕ, zero, suc, ◌+◌, String, Bool, true, false, not, ◌&&◌, Option, none, some, List, [], ◌∷◌, ◌++◌,
  ltb, ◌==◌, if◌then◌else◌, where_rows, take, length, sort_on, is_some,
}
use kasb_o_kar_hoshmand.Base.Texts.{same_text}
use kasb_o_kar_hoshmand.Base.Time.{Instant, minutes}
use kasb_o_kar_hoshmand.Base.Table.{get_row, save, next_key}
use kasb_o_kar_hoshmand.Models.{
  Payment-Keyed, Payment, PaymentStatus, PaymentMethod, card_to_card, zarinpal, bale_pay,
  PaymentPurpose, DiscountCode, Db, Result, ok, raised, runtime_error, ◌>>=◌, scalar_one_or_none,
}
use kasb_o_kar_hoshmand.Settings.{get_admin_settings}
use kasb_o_kar_hoshmand.Billing.Discount.{apply_discount}

abbrev pub is_pending : PaymentStatus → Bool
is_pending PaymentStatus.pending = true
is_pending PaymentStatus.approved = false
is_pending PaymentStatus.rejected = false

abbrev pub is_approved : PaymentStatus → Bool
is_approved PaymentStatus.approved = true
is_approved PaymentStatus.pending = false
is_approved PaymentStatus.rejected = false

unfoldable pub get_by_id : ℕ → Db → Option Payment
get_by_id payment_id db = get_row payment_id db.payments

unfoldable pub get_history_by_owner : ℕ → ℕ → Db → List Payment
get_history_by_owner owner_id limit db =
    take limit
      (reverse (sort_on (λ p. p.id) (where_rows (λ p. p.shop_owner_id == owner_id) db.payments)))

unfoldable pub get_pending_payments : ℕ → Db → List Payment
get_pending_payments limit db =
    take limit (sort_on (λ p. p.id) (where_rows (λ p. is_pending p.status) db.payments))

-- equality with a nullable column
abbrev pub is_text : String → Option String → Bool
is_text text none = false
is_text text (some t) = same_text t text

unfoldable pub get_by_zarinpal_authority : String → Db → Result (Option Payment)
get_by_zarinpal_authority authority db =
    scalar_one_or_none (where_rows (λ p. is_text authority p.zarinpal_authority) db.payments)

unfoldable pub get_by_bale_payload : String → Db → Result (Option Payment)
get_by_bale_payload payload db =
    scalar_one_or_none (where_rows (λ p. is_text payload p.bale_invoice_payload) db.payments)

-- an approved payment of the owner other than the one excluded
abbrev pub is_other_approved : ℕ → ℕ → Payment → Bool
is_other_approved owner_id excluding p =
    p.shop_owner_id == owner_id && (is_approved p.status && not (p.id == excluding))

unfoldable pub is_first_approved_payment : ℕ → ℕ → Db → Bool
is_first_approved_payment owner_id excluding db =
    length (where_rows (is_other_approved owner_id excluding) db.payments) == 0

-- `reserved_until > now`
abbrev pub is_ahead : Instant → Option Instant → Bool
is_ahead now none = false
is_ahead now (some t) = ltb now t

-- a pending payment of the amount whose reservation is running
abbrev pub is_reserving : Instant → ℕ → Payment → Bool
is_reserving now amount p =
    p.final_amount == amount && (is_pending p.status && is_ahead now p.reserved_until)

unfoldable pub amount_currently_reserved : Instant → ℕ → Db → Result Bool
amount_currently_reserved now amount db = do
  found ← scalar_one_or_none (where_rows (is_reserving now amount) db.payments)
  ok (is_some found)

-- `draw n` is what `secrets.randbelow(90)` gives when `n` tries are left after it. Each round of
-- the loop of `_generate_unique_amount` takes one.
module _ (draw : ℕ → ℕ) where
  unfoldable pub try_amounts : ℕ → Instant → ℕ → Db → Result ℕ
  try_amounts zero now base_amount db = raised runtime_error
  try_amounts (suc left) now base_amount db =
      let candidate = base_amount + (draw left + 10) in
      let rest = try_amounts left now base_amount db in
      (do
        reserved ← amount_currently_reserved now candidate db
        if reserved then rest else ok candidate)

  unfoldable pub generate_unique_amount : Instant → ℕ → Db → Result ℕ
  generate_unique_amount = try_amounts 30

-- `Payment(...)` with its column defaults, before the fields of its method
unfoldable pub new_payment :
    ℕ → ℕ → PaymentPurpose → Option ℕ → ℕ → ℕ → PaymentMethod → Option DiscountCode → Payment
new_payment id owner_id purpose months base_amount final_amount method discount = record {
  id = id;
  shop_owner_id = owner_id;
  purpose = purpose;
  duration_months = months;
  base_amount = base_amount;
  final_amount = final_amount;
  method = method;
  status = PaymentStatus.pending;
  receipt_file_id = none;
  discount_code_id = (elim discount [ none ↦ none | some d ↦ some d.id ]);
  zarinpal_authority = none;
  zarinpal_ref_id = none;
  bale_invoice_payload = none;
  bale_transaction_id = none;
  reserved_until = none;
  reviewed_by_admin_id = none;
  reviewed_at = none;
  rejection_reason = none;
}

unfoldable pub add_payment : Payment → Db → Payment × Db
add_payment p db = (p, record db { payments = db.payments ++ p ∷ [] })

abbrev pub save_payment : Payment → Db → Db
save_payment p db = record db { payments = save p db.payments }

unfoldable pub attach_receipt : Payment → String → Db → Db
attach_receipt p file_id db = save_payment (record p { receipt_file_id = some file_id }) db

unfoldable pub reject_payment : Instant → Payment → Option ℕ → Option String → Db → Db
reject_payment now p admin reason db =
    save_payment
      (record p {
        status = PaymentStatus.rejected;
        reviewed_at = some now;
        reviewed_by_admin_id = admin;
        rejection_reason = reason;
      })
      db

-- `part_of` is the percentage of `apply_discount`
module _ (part_of : ℕ → ℕ → ℕ) where
  -- `apply_discount(base_amount, discount) if discount else base_amount`
  abbrev pub discounted : ℕ → Option DiscountCode → ℕ
  discounted base_amount none = base_amount
  discounted base_amount (some d) = apply_discount part_of base_amount d

  unfoldable pub create_card_to_card_payment :
      (ℕ → ℕ)
      → Instant
      → ℕ
      → ℕ
      → Option DiscountCode
      → Option ℕ
      → PaymentPurpose
      → Db
      → Result (Payment × Db)
  create_card_to_card_payment draw now owner_id base_amount discount months purpose db =
      let (settings, db1) = get_admin_settings db in
      (do
        final_amount ← generate_unique_amount draw now (discounted base_amount discount) db1
        let p =
            new_payment (next_key db1.payments) owner_id purpose months base_amount final_amount
              card_to_card discount
        ok (
            add_payment
              (record p {
                reserved_until = some (now + minutes settings.payment_reservation_minutes);
              })
              db1))

  unfoldable pub create_zarinpal_payment :
      ℕ → ℕ → Option DiscountCode → String → Option ℕ → PaymentPurpose → Db → Payment × Db
  create_zarinpal_payment owner_id base_amount discount authority months purpose db =
      let p =
        new_payment (next_key db.payments) owner_id purpose months base_amount
          (discounted base_amount discount) zarinpal discount in
      add_payment (record p { zarinpal_authority = some authority }) db

  unfoldable pub create_bale_payment :
      ℕ → ℕ → Option DiscountCode → String → Option ℕ → PaymentPurpose → Db → Payment × Db
  create_bale_payment owner_id base_amount discount payload months purpose db =
      let p =
        new_payment (next_key db.payments) owner_id purpose months base_amount
          (discounted base_amount discount) bale_pay discount in
      add_payment (record p { bale_invoice_payload = some payload }) db
