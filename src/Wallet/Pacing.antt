-- ===== src/Wallet/Pacing.antt =====
-- The pace of the reminders and notices of app/services/wallet_service.py.
use kasb_o_kar_hoshmand.Base.{
  ℕ, ◌+◌, ◌-◌, ◌≤◌, ◌<◌, ◌≡◌, inl, inr, ◌⊎◌, Bool, true, false, some, arith, leb, ◌==◌,
  if◌then◌else◌, Option-cases,
}
use kasb_o_kar_hoshmand.Base.Time.{Instant, whole_days, hours}
use kasb_o_kar_hoshmand.Base.Table.{get_row, get_row-key, get_row-save}
use kasb_o_kar_hoshmand.Models.{ShopOwner-Keyed, WalletCharge, Db}
use kasb_o_kar_hoshmand.Wallet.Remind.{reminder_for, mark_charge}
use kasb_o_kar_hoshmand.Wallet.Notify.{
  try_claim_empty_notification, try_claim_low_balance_notification, empty_renotify_hours,
  low_balance_renotify_hours,
}

-- The sent flag of a threshold.
abbrev pub sent : ℕ → WalletCharge → Bool
sent d c =
    if d == 1
    then c.reminder_1d_sent
    else if d == 7
    then c.reminder_7d_sent
    else c.reminder_30d_sent

-- `d` is the closest of the thresholds 1, 7 and 30 that is not below `left`.
abbrev pub IsClosest : ℕ → ℕ → Type 0
IsClosest left d = (left ≤ d) × ((d ≡ 1) ⊎ ((d ≡ 7) × (1 < left)) ⊎ ((d ≡ 30) × (7 < left)))

-- A reminder names the closest of the three thresholds that is not below the days left, and one
-- that has not been sent: with 30 named more than 7 days are left, and with 7 named more than 1.
pub reminder_tight :
    (now : Instant) (c : WalletCharge) {d : ℕ}
    → reminder_for now c ≡ some d
    → IsClosest (whole_days (c.expires_at - now)) d × (sent d c ≡ false)
unfolding reminder_for
reminder_tight now c {d} h = ground arith

-- After a reminder of `d` days is marked as sent, any reminder of the charge, at any time, names
-- fewer days: a charge gets three reminders at most, each closer to the expiry.
pub reminder_progress :
    (now later : Instant) (c : WalletCharge) {d d' : ℕ}
    → reminder_for now c ≡ some d
    → reminder_for later (mark_charge d c) ≡ some d'
    → d' < d
unfolding reminder_for mark_charge
reminder_progress now later c {d} {d'} h h' = ground arith

-- Once a notice of an empty wallet is claimed at `t`, a claim at `t'` is granted exactly if six
-- hours have passed, and a claim that is not granted changes nothing.
pub empty_notice_paced :
    (t t' : Instant) (owner_id : ℕ) (db : Db)
    → (try_claim_empty_notification t owner_id db).0 ≡ true
    → let db1 = (try_claim_empty_notification t owner_id db).1 in
      ((leb (t + hours empty_renotify_hours) t' ≡ true)
        × ((try_claim_empty_notification t' owner_id db1).0 ≡ true))
      ⊎ ((leb (t + hours empty_renotify_hours) t' ≡ false)
          × (try_claim_empty_notification t' owner_id db1 ≡ (false, db1)))
unfolding try_claim_empty_notification
empty_notice_paced t t' owner_id db h = elim (Option-cases (get_row owner_id db.owners)) [
  | inl missing ↦ ground (arith, missing)
  | inr (o, found) ↦ ground (
    arith,
    get_row-key owner_id db.owners found,
    get_row-save owner_id (record o { wallet_empty_notified_at = some t }) db.owners,
  )
]

-- Once a notice of a low balance is claimed at `t`, a claim at `t'` is granted exactly if 24 hours
-- have passed, and a claim that is not granted changes nothing.
pub low_balance_notice_paced :
    (t t' : Instant) (owner_id : ℕ) (db : Db)
    → (try_claim_low_balance_notification t owner_id db).0 ≡ true
    → let db1 = (try_claim_low_balance_notification t owner_id db).1 in
      ((leb (t + hours low_balance_renotify_hours) t' ≡ true)
        × ((try_claim_low_balance_notification t' owner_id db1).0 ≡ true))
      ⊎ ((leb (t + hours low_balance_renotify_hours) t' ≡ false)
          × (try_claim_low_balance_notification t' owner_id db1 ≡ (false, db1)))
unfolding try_claim_low_balance_notification
low_balance_notice_paced t t' owner_id db h = elim (Option-cases (get_row owner_id db.owners)) [
  | inl missing ↦ ground (arith, missing)
  | inr (o, found) ↦ ground (
    arith,
    get_row-key owner_id db.owners found,
    get_row-save owner_id (record o { wallet_low_balance_notified_at = some t }) db.owners,
  )
]
