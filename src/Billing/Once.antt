-- ===== src/Billing/Once.antt =====
-- Repeated approvals of a payment, and repeated uses of a discount code, in
-- app/services/payment_service.py and app/services/discount_service.py.
use kasb_o_kar_hoshmand.Base.{
  ℕ, ◌≡◌, true, Option, some, List, [], ◌∷◌, ◌++◌, arith, where_rows, head_of, is_some,
}
use kasb_o_kar_hoshmand.Base.Time.{Instant}
use kasb_o_kar_hoshmand.Base.Table.{next_key}
use kasb_o_kar_hoshmand.Models.{
  ShopOwner-Keyed, DiscountCodeUsage-Keyed, Payment-Keyed, Payment, DiscountCodeUsage, Db, ok,
  raised, integrity_error,
}
use kasb_o_kar_hoshmand.Billing.Discount.{is_usage, record_usage}
use kasb_o_kar_hoshmand.Billing.Reward.{RewardInfo}
use kasb_o_kar_hoshmand.Billing.Pay.{save_payment}
use kasb_o_kar_hoshmand.Billing.Approve.{Effect, use_discount, settle}
use kasb_o_kar_hoshmand.Billing.Frame.{count_use-usages}
use kasb_o_kar_hoshmand.Billing.Settled.{settle-IsSound}

used_append :
    (code_id owner_id : ℕ) (us : List DiscountCodeUsage) (u : DiscountCodeUsage)
    → is_usage code_id owner_id u ≡ true
    → is_some (head_of (where_rows (is_usage code_id owner_id) (us ++ u ∷ []))) ≡ true
used_append code_id owner_id [] u h = ground (arith, h)
used_append code_id owner_id (x ∷ us) u h = ground (arith, used_append code_id owner_id us u h)

-- After a use of a code by an owner, a further one breaks the unique key.
record_usage_again :
    (code_id owner_id payment_id payment_id' : ℕ) (db db' : Db) {db1 : Db}
    → record_usage code_id owner_id payment_id db ≡ ok db1
    → db'.usages ≡ db1.usages
    → record_usage code_id owner_id payment_id' db' ≡ raised integrity_error
unfolding record_usage
record_usage_again code_id owner_id payment_id payment_id' db db' {db1} e same =
    let u : DiscountCodeUsage = record {
      id = next_key db.usages;
      discount_code_id = code_id;
      shop_owner_id = owner_id;
      payment_id = payment_id;
    } in
    let added : db1.usages ≡ db.usages ++ u ∷ [] = ground (arith, count_use-usages code_id) in
    ground (arith, same, added, used_append code_id owner_id db.usages u)

refused :
    (p q : Payment) (db db' : Db) {code_id : ℕ} {db1 : Db}
    → p.discount_code_id ≡ some code_id
    → q.discount_code_id ≡ some code_id
    → q.shop_owner_id ≡ p.shop_owner_id
    → use_discount p db ≡ ok db1
    → db'.usages ≡ db1.usages
    → use_discount q db' ≡ raised integrity_error
unfolding use_discount
refused p q db db' {code_id} {db1} coded coded' same used usages =
    ground (
      arith,
      coded,
      coded',
      record_usage_again code_id p.shop_owner_id p.id q.id db db' {db1 = db1},
    )

module _ (plus_months : Instant → ℕ → Instant) where
  settle_refused :
      (now : Instant) (p p1 : Payment) (db : Db)
      → use_discount p1 (save_payment p1 db) ≡ raised integrity_error
      → settle plus_months now p p1 db ≡ raised integrity_error
  unfolding settle
  settle_refused now p p1 db e = ground (arith, e)

  -- Once a payment with a discount code is approved, no other payment of the same owner with the
  -- same code can be: its approval, by any method, raises an IntegrityError.
  pub settle_code_once :
      (now later : Instant) (p p1 q q1 : Payment) (code_id : ℕ) (db : Db)
      {x : Effect × Option RewardInfo} {db' : Db}
      → p1.discount_code_id ≡ some code_id
      → q1.discount_code_id ≡ some code_id
      → q1.shop_owner_id ≡ p1.shop_owner_id
      → settle plus_months now p p1 db ≡ ok (x, db')
      → settle plus_months later q q1 db' ≡ raised integrity_error
  settle_code_once now later p p1 q q1 code_id db {x} {db'} coded coded' same e =
      let (sound, payments, (db1, (used, usages))) =
        settle-IsSound plus_months now p p1 db {x = x} e in
      settle_refused later q q1 db'
        (refused p1 q1 (save_payment p1 db) (save_payment q1 db') coded coded' same used usages)
