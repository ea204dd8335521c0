-- ===== src/Billing/Commission.antt =====
-- Repeated calls of `process_referral_reward`, app/services/referral_service.py.
use kasb_o_kar_hoshmand.Base.{
  ℕ, ◌≡◌, ◌≢◌, refl, ◌∙◌, inl, inr, Bool, false, none, some, List, [], ◌∷◌, arith, Bool-cases, ◌==◌,
  where_rows,
}
use kasb_o_kar_hoshmand.Base.Time.{Instant}
use kasb_o_kar_hoshmand.Base.Table.{Keyed, key_of, get_row, save, Unique}
use kasb_o_kar_hoshmand.Models.{Referral-Keyed, Referral, RewardStatus, Db, ok, scalar_one}
use kasb_o_kar_hoshmand.Settings.{get_admin_settings}
use kasb_o_kar_hoshmand.Billing.Reward.{
  RewardInfo, is_unpaid, mark_rewarded, process_referral_reward,
}
use kasb_o_kar_hoshmand.Billing.Frame.{settings-SamePapers}
use kasb_o_kar_hoshmand.Billing.Effects.{process_referral_reward_steps, pay_reward_steps}

module _ {R : Type 0} ⦃k : Keyed R⦄ (p : R → Bool) where
  selected_row : (rs : List R) {r : R} → where_rows p rs ≡ r ∷ [] → get_row (key_of r) rs ≢ none
  selected_row [] {r} h = absurd (ground arith)
  selected_row (x ∷ xs) {r} h = elim (Bool-cases (p x)) [
    | inl kept ↦ ground (arith, kept)
    | inr dropped ↦ ground (arith, dropped, selected_row xs {r = r})
  ]

  -- A single row that a query selects is saved so that the query drops it: then it selects none.
  unselect :
      (rs : List R) (r r' : R)
      → Unique rs
      → where_rows p rs ≡ r ∷ []
      → key_of r' ≡ key_of r
      → p r' ≡ false
      → where_rows p (save r' rs) ≡ []
  unselect [] r r' u h same dropped = refl
  unselect (x ∷ xs) r r' u h same dropped = elim (Bool-cases (p x)) [
    | inl kept ↦ ground (arith, kept)
    | inr passed ↦ elim (Bool-cases (key_of x == key_of r')) [
      | inl here ↦ absurd (ground (arith, passed, u.0, selected_row xs {r = r}))
      | inr there ↦ ground (arith, passed, there, unselect xs r r' u.1)
    ]
  ]

nobody_left :
    (now : Instant) (referred_id payment_amount : ℕ) (db : Db)
    → where_rows (is_unpaid referred_id) db.referrals ≡ []
    → process_referral_reward now referred_id payment_amount db ≡ ok (none, db)
unfolding process_referral_reward
nobody_left now referred_id payment_amount db e = ground (arith, e)

-- Once the commission for a referred owner is paid, no further payment of that owner pays one or
-- changes anything.
pub process_referral_reward_once :
    (now later : Instant) (referred_id payment_amount payment_amount' : ℕ) (db : Db)
    {info : RewardInfo} {db' : Db}
    → Unique db.referrals
    → process_referral_reward now referred_id payment_amount db ≡ ok (some info, db')
    → process_referral_reward later referred_id payment_amount' db' ≡ ok (none, db')
unfolding mark_rewarded
process_referral_reward_once now later referred_id payment_amount payment_amount' db {info} {db'} u
      e =
    elim (process_referral_reward_steps now referred_id payment_amount db {x = some info} e) [
      | inl (nobody, wallets, papers) ↦ absurd (ground (arith, nobody))
      | inr (r, (asked, paid)) ↦
          let (db1, (step, papers, done)) =
            pay_reward_steps now r _ _ (get_admin_settings db).1 {x = some info} paid in
          let same : db1.referrals ≡ db.referrals = papers.2 ∙ (settings-SamePapers db).2 in
          let r' : Referral = record r {
            reward_status = RewardStatus.rewarded;
            rewarded_at = some now;
          } in
          nobody_left later referred_id payment_amount' db' (
            ground (
              arith,
              done,
              same,
              unselect (is_unpaid referred_id) db.referrals r r' u (scalar_one _ asked) refl
                  (ground arith),
            ))
    ]
