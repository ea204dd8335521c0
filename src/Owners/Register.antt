-- ===== src/Owners/Register.antt =====
-- The operations of app/services/shop_owner_service.py.
use kasb_o_kar_hoshmand.Base.{
  ℕ, zero, suc, String, Bool, true, false, Option, none, some, List, [], ◌∷◌, ◌++◌, ◌==◌,
  if◌then◌else◌, where_rows, sort_on, is_some,
}
use kasb_o_kar_hoshmand.Base.Int.{pos}
use kasb_o_kar_hoshmand.Base.Texts.{same_text}
use kasb_o_kar_hoshmand.Base.Table.{get_row, save, next_key}
use kasb_o_kar_hoshmand.Models.{
  ShopOwner-Keyed, Referral-Keyed, ShopOwner, RewardStatus, Db, Result, ok, raised, ◌>>=◌,
  scalar_one_or_none,
}

unfoldable pub get_by_telegram_id : ℕ → Db → Result (Option ShopOwner)
get_by_telegram_id telegram_id db =
    scalar_one_or_none (where_rows (λ o. o.telegram_id == telegram_id) db.owners)

unfoldable pub get_by_id : ℕ → Db → Option ShopOwner
get_by_id owner_id db = get_row owner_id db.owners

unfoldable pub get_by_referral_code : String → Db → Result (Option ShopOwner)
get_by_referral_code code db =
    scalar_one_or_none (where_rows (λ o. same_text o.referral_code code) db.owners)

unfoldable pub get_all_registered : Db → List ShopOwner
get_all_registered db = sort_on (λ o. o.id) (where_rows (λ o. o.registration_completed) db.owners)

-- `if referred_by_code:` and the referrer's key, if there is one; the empty text is no code
unfoldable pub find_referrer : Option String → Db → Result (Option ℕ)
find_referrer none db = ok none
find_referrer (some code) db = if same_text code "" then ok none else (do
  referrer ← get_by_referral_code code db
  ok (elim referrer [ none ↦ none | some r ↦ some r.id ]))

-- `generate_referral_code` in a loop until no owner has the code. `codes n` is the code of the
-- round that leaves `n`; a loop that runs out of rounds has no answer.
unfoldable pub fresh_code : (ℕ → String) → ℕ → Db → Option (Result String)
fresh_code codes zero db = none
fresh_code codes (suc left) db =
    let rest = fresh_code codes left db in
    elim (get_by_referral_code (codes left) db) [
      | raised e ↦ some (raised e)
      | ok taken ↦ if is_some taken then rest else some (ok (codes left))
    ]

-- `ShopOwner(...)` with its column defaults
unfoldable pub new_owner : ℕ → ℕ → String → Option ℕ → ShopOwner
new_owner id telegram_id code referred_by_id = record {
  id = id;
  telegram_id = telegram_id;
  first_name = none;
  last_name = none;
  phone_number = none;
  email = none;
  phone_verified = false;
  email_verified = false;
  registration_completed = false;
  referral_code = code;
  referred_by_id = referred_by_id;
  wallet_balance_toman = pos 0;
  wallet_low_balance_notified_at = none;
  wallet_empty_notified_at = none;
}

-- the new owner, and the referral where there is a referrer
unfoldable pub add_owner : ℕ → String → Option ℕ → Db → ShopOwner × Db
add_owner telegram_id code referred_by_id db =
    let o = new_owner (next_key db.owners) telegram_id code referred_by_id in
    let db1 = record db { owners = db.owners ++ o ∷ [] } in
    elim referred_by_id [
      | none ↦ (o, db1)
      | some referrer_id ↦ (
        o,
        record db1 {
          referrals =
              db.referrals
              ++ record {
                id = next_key db.referrals;
                referrer_id = referrer_id;
                referred_id = o.id;
                reward_status = RewardStatus.pending;
                rewarded_at = none;
              }
                ∷ [];
        },
      )
    ]

-- `codes` and `rounds` are those of `fresh_code`: without an answer the loop has not ended.
unfoldable pub get_or_create_shop_owner :
    ℕ → Option String → (ℕ → String) → ℕ → Db → Option (Result (ShopOwner × Db))
get_or_create_shop_owner telegram_id referred_by_code codes rounds db =
    elim (get_by_telegram_id telegram_id db) [
      | raised e ↦ some (raised e)
      | ok (some o) ↦ some (ok (o, db))
      | ok none ↦ elim (find_referrer referred_by_code db) [
        | raised e ↦ some (raised e)
        | ok referred_by_id ↦ elim (fresh_code codes rounds db) [
          | none ↦ none
          | some (raised e) ↦ some (raised e)
          | some (ok code) ↦ some (ok (add_owner telegram_id code referred_by_id db))
        ]
      ]
    ]

unfoldable pub complete_registration :
    ShopOwner → String → String → String → String → Bool → Bool → Db → ShopOwner × Db
complete_registration o first_name last_name phone_number email phone_verified email_verified db =
    let o1 = record o {
      first_name = some first_name;
      last_name = some last_name;
      phone_number = some phone_number;
      email = some email;
      phone_verified = phone_verified;
      email_verified = email_verified;
      registration_completed = true;
    } in
    (o1, record db { owners = save o1 db.owners })
