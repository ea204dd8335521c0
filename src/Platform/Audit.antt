-- ===== src/Platform/Audit.antt =====
-- app/services/audit_log_service.py and app/services/bot_error_service.py.
use mathlib.Core.List.{reverse}
use kasb_o_kar_hoshmand.Base.{
  ℕ, String, Bool, true, Option, none, some, List, [], ◌∷◌, ◌++◌, same_id, take, where_rows,
  sort_on,
}
use kasb_o_kar_hoshmand.Base.Time.{Instant}
use kasb_o_kar_hoshmand.Base.Table.{next_key}
use kasb_o_kar_hoshmand.Models.{
  AuditLogEntry-Keyed, BotErrorEvent-Keyed, AuditLogEntry, AuditEventType, Db,
}

unfoldable pub log : AuditEventType → Option ℕ → Option ℕ → Option String → Db → AuditLogEntry × Db
log event_type shop_bot_id actor_telegram_id details db =
    let e : AuditLogEntry = record {
      id = next_key db.audit_log;
      event_type = event_type;
      shop_bot_id = shop_bot_id;
      actor_telegram_id = actor_telegram_id;
      details = details;
    } in
    (e, record db { audit_log = db.audit_log ++ e ∷ [] })

-- all shops' entries, or those of one
abbrev pub of_shop : Option ℕ → AuditLogEntry → Bool
of_shop none e = true
of_shop (some shop_bot_id) e = same_id e.shop_bot_id (some shop_bot_id)

-- the latest entries, latest first
unfoldable pub get_recent : ℕ → Option ℕ → Db → List AuditLogEntry
get_recent limit shop_bot_id db =
    take limit (reverse (sort_on (λ e. e.id) (where_rows (of_shop shop_bot_id) db.audit_log)))

unfoldable pub log_error : Instant → ℕ → Db → Db
log_error now shop_bot_id db = record db {
  bot_errors =
      db.bot_errors
      ++ record { id = next_key db.bot_errors; shop_bot_id = shop_bot_id; created_at = now } ∷ [];
}
