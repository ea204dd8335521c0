-- ===== src/Wallet/Notify.antt =====
-- The anti-spam claims of app/services/wallet_service.py: an atomic UPDATE ... WHERE that lets one
-- caller through, and the next only after the pause.
use kasb_o_kar_hoshmand.Base.{ℕ, ◌+◌, Bool, true, false, Option, none, some, leb, if◌then◌else◌}
use kasb_o_kar_hoshmand.Base.Time.{Instant, hours}
use kasb_o_kar_hoshmand.Base.Table.{get_row, save}
use kasb_o_kar_hoshmand.Models.{ShopOwner-Keyed, Db}

abbrev pub low_balance_renotify_hours : ℕ
low_balance_renotify_hours = 24

abbrev pub empty_renotify_hours : ℕ
empty_renotify_hours = 6

-- `notified_at IS NULL OR notified_at <= now - pause`
abbrev pub is_due : Instant → ℕ → Option Instant → Bool
is_due now pause none = true
is_due now pause (some t) = leb (t + pause) now

unfoldable pub try_claim_empty_notification : Instant → ℕ → Db → Bool × Db
try_claim_empty_notification now owner_id db = elim (get_row owner_id db.owners) [
  | none ↦ (false, db)
  | some o ↦
      if is_due now (hours empty_renotify_hours) o.wallet_empty_notified_at
      then (
        true,
        record db { owners = save (record o { wallet_empty_notified_at = some now }) db.owners },
      )
      else (false, db)
]

unfoldable pub try_claim_low_balance_notification : Instant → ℕ → Db → Bool × Db
try_claim_low_balance_notification now owner_id db = elim (get_row owner_id db.owners) [
  | none ↦ (false, db)
  | some o ↦
      if is_due now (hours low_balance_renotify_hours) o.wallet_low_balance_notified_at
      then (
        true,
        record db {
          owners = save (record o { wallet_low_balance_notified_at = some now }) db.owners;
        },
      )
      else (false, db)
]
