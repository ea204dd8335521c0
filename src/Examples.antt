-- ===== src/Examples.antt =====
-- Runs of the products, the registration of owners and the job of the grace period.
use kasb_o_kar_hoshmand.Base.{
  Option, if◌then◌else◌, ◌==◌, ℕ, Bool, false, String, ◌≤◌, ◌<◌, ◌≡◌, refl, true, none, some, [],
  ◌∷◌, arith,
}
use kasb_o_kar_hoshmand.Base.Time.{days}
use kasb_o_kar_hoshmand.Base.Table.{get_row}
use kasb_o_kar_hoshmand.Models.{
  empty_db, Subscription-Keyed, Product, ShopOwner, Subscription, SubscriptionStatus, Db, Result,
  ok, raised,
}
use kasb_o_kar_hoshmand.Products.{get_owned_by_id}
use kasb_o_kar_hoshmand.Owners.Register.{
  get_by_referral_code, fresh_code, new_owner, get_or_create_shop_owner,
}
use kasb_o_kar_hoshmand.Owners.Referred.{UniqueCodes, fresh_code_total}
use kasb_o_kar_hoshmand.Settings.{get_admin_settings}
use kasb_o_kar_hoshmand.Grace.{is_latest, process_grace_transitions}
use kasb_o_kar_hoshmand.Grace.Moved.{status_after, process_grace_transitions_exact}

abbrev lapsed : Subscription
lapsed = record {
  id = 4;
  shop_owner_id = 1;
  status = SubscriptionStatus.active;
  duration_months = 1;
  is_trial = false;
  start_date = days 1;
  end_date = days 31;
  grace_reminder_sent = false;
}

abbrev mug : Product
mug = record {
  id = 5;
  shop_bot_id = 3;
  name = "mug";
  description = none;
  price_toman = 70;
  photo_file_id = none;
  stock_quantity = none;
  reserved_quantity = 0;
  is_active = true;
}

abbrev first_owner : ShopOwner
first_owner = new_owner 1 9001 "FIRST" none

abbrev small : Db
small = record empty_db {
  owners = first_owner ∷ [];
  subscriptions = lapsed ∷ [];
  products = mug ∷ [];
}

own_mug : get_owned_by_id 5 3 small ≡ ok (some mug)
unfolding get_owned_by_id
own_mug = refl

abbrev guest : ShopOwner
guest = new_owner 2 9002 "OTHER" (some 1)

-- the first code drawn is taken
abbrev codes : ℕ → String
codes n = if n == 9 then "FIRST" else "OTHER"

abbrev db_of : Option (Result (ShopOwner × Db)) → Db
db_of (some (ok (o, db))) = db
db_of (some (raised e)) = small
db_of none = small

abbrev with_guest : Db
with_guest = db_of (get_or_create_shop_owner 9002 (some "FIRST") codes 10 small)

joined : get_or_create_shop_owner 9002 (some "FIRST") codes 10 small ≡ some (ok (guest, with_guest))
unfolding get_or_create_shop_owner kasb_o_kar_hoshmand.Owners.Register.get_by_telegram_id new_owner
    kasb_o_kar_hoshmand.Owners.Register.find_referrer get_by_referral_code fresh_code
    kasb_o_kar_hoshmand.Owners.Register.add_owner
joined = refl

abbrev taken : ℕ → Bool
taken telegram_id = true

abbrev moved_of : Result Db → Db
moved_of (ok db) = db
moved_of (raised e) = small

moved :
    process_grace_transitions taken (days 32) small
    ≡ ok (moved_of (process_grace_transitions taken (days 32) small))
unfolding process_grace_transitions kasb_o_kar_hoshmand.Grace.move_each
    kasb_o_kar_hoshmand.Grace.move_one kasb_o_kar_hoshmand.Grace.remind_grace is_latest
    kasb_o_kar_hoshmand.Billing.Subscribe.get_latest_subscription_by_owner_id get_admin_settings
    new_owner
moved = refl

process_grace_transitions_exact_example :
    (s' : Subscription) × ((get_row 4
          (moved_of (process_grace_transitions taken (days 32) small)).subscriptions
        ≡ some s')
      × (s'.end_date ≡ days 31)
      × (s'.status ≡ (
          if is_latest small lapsed
          then status_after (days 32) (get_admin_settings small).0.grace_period_hours lapsed
          else SubscriptionStatus.active)))
process_grace_transitions_exact_example =
    process_grace_transitions_exact taken (days 32) 4 small (refl, tt) refl moved

distinct : UniqueCodes small.owners
unfolding new_owner
distinct = ground arith

free : get_by_referral_code (codes 3) small ≡ ok none
unfolding get_by_referral_code new_owner
free = refl

fresh_code_total_example :
    (m : ℕ) × ((3 ≤ m)
      × (m < 10)
      × (fresh_code codes 10 small ≡ some (ok (codes m)))
      × (get_by_referral_code (codes m) small ≡ ok none))
fresh_code_total_example = fresh_code_total codes small 10 3 distinct (omega arith) free
