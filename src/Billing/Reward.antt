-- ===== src/Billing/Reward.antt =====
-- app/services/referral_service.py: the commission of the owner who brought another one in.
use kasb_o_kar_hoshmand.Base.{
  ℕ, ◌*◌, Bool, true, false, ◌&&◌, Option, none, some, ◌==◌, if◌then◌else◌, where_rows, length,
}
use kasb_o_kar_hoshmand.Base.Int.{pos}
use kasb_o_kar_hoshmand.Base.Rounding.{round_div}
use kasb_o_kar_hoshmand.Base.Time.{Instant}
use kasb_o_kar_hoshmand.Base.Table.{get_row, save}
use kasb_o_kar_hoshmand.Models.{
  ShopOwner-Keyed, Referral-Keyed, Referral, RewardStatus, referral_reward, Db, Result, ok, raised,
  attribute_error, ◌>>=◌, scalar_one_or_none,
}
use kasb_o_kar_hoshmand.Settings.{get_admin_settings}
use kasb_o_kar_hoshmand.Wallet.Charge.{add_charge}

abbrev pub is_rewarded : RewardStatus → Bool
is_rewarded RewardStatus.rewarded = true
is_rewarded RewardStatus.pending = false

-- how many owners were brought in, and for how many the commission was paid
unfoldable pub get_referral_stats : ℕ → Db → ℕ × ℕ
get_referral_stats owner_id db =
    let referrals = where_rows (λ r. r.referrer_id == owner_id) db.referrals in
    (length referrals, length (where_rows (λ r. is_rewarded r.reward_status) referrals))

abbrev pub is_unpaid : ℕ → Referral → Bool
is_unpaid referred_id r =
    r.referred_id == referred_id
    && (elim r.reward_status [ RewardStatus.pending ↦ true | RewardStatus.rewarded ↦ false ])

-- the dict that is returned; `percent` is in hundredths
pub record RewardInfo : Type 0 where
  pub referrer_telegram_id : ℕ
  pub amount_toman : ℕ
  pub percent : ℕ

-- `int((payment * percent / 100).to_integral_value())` on `Decimal`: halves to the even one
unfoldable pub reward_amount : ℕ → ℕ → ℕ
reward_amount payment_amount percent = round_div (payment_amount * percent) 10000

-- the referral is marked as paid
unfoldable pub mark_rewarded : Instant → Referral → Db → Db
mark_rewarded now r db = record db {
  referrals =
      save (record r { reward_status = RewardStatus.rewarded; rewarded_at = some now })
        db.referrals;
}

-- the commission is credited; a referrer that is missing has no `id` to read
unfoldable pub pay_reward : Instant → Referral → ℕ → ℕ → Db → Result (Option RewardInfo × Db)
unfolding mark_rewarded
pay_reward now r amount percent db = elim (get_row r.referrer_id db.owners) [
  | none ↦ raised attribute_error
  | some referrer ↦ (do
    (charge, db1) ← add_charge now referrer.id (pos amount) referral_reward none none none db
    ok (
      some record {
        referrer_telegram_id = referrer.telegram_id;
        amount_toman = amount;
        percent = percent;
      },
      mark_rewarded now r db1,
    ))
]

unfoldable pub process_referral_reward : Instant → ℕ → ℕ → Db → Result (Option RewardInfo × Db)
unfolding pay_reward
process_referral_reward now referred_id payment_amount db = do
  found ← scalar_one_or_none (where_rows (is_unpaid referred_id) db.referrals)
  elim found [
    | none ↦ ok (none, db)
    | some r ↦
        let (settings, db1) = get_admin_settings db in
        let percent = settings.referral_reward_value in
        let amount = reward_amount payment_amount percent in
        if amount == 0 then ok (none, db1) else pay_reward now r amount percent db1
  ]
