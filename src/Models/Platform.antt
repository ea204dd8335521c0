-- ===== src/Models/Platform.antt =====
-- The tables of app/database/models.py that the platform's administrators keep: plans, one-time
-- codes, rules of moderation, keys of AI services, roles, and the audit log.
use kasb_o_kar_hoshmand.Base.{ℕ, String, Bool, Option}
use kasb_o_kar_hoshmand.Base.Time.{Instant}
use kasb_o_kar_hoshmand.Base.Table.{Keyed}

pub data ModerationAction : Type 0 where
  warn block review : ModerationAction

pub data AuditEventType : Type 0 where
  moderation_match admin_setting_changed kill_switch_toggled : AuditEventType
  shop_suspended shop_unsuspended payment_approved payment_rejected : AuditEventType
  owner_gift_granted operator_admin_granted operator_admin_revoked : AuditEventType
  owner_wallet_corrected : AuditEventType

pub data AdminRoleType : Type 0 where
  operator : AdminRoleType

pub data AiKeyCapability : Type 0 where
  chat vision both : AiKeyCapability

pub record SubscriptionPlan : Type 0 where
  pub id : ℕ
  pub duration_months : ℕ
  pub price_toman : ℕ
  pub is_active : Bool

pub record OtpCode : Type 0 where
  pub id : ℕ
  pub shop_owner_id : ℕ
  pub code : String
  pub purpose : String
  pub expires_at : Instant
  pub consumed : Bool

pub record ModerationRule : Type 0 where
  pub id : ℕ
  pub pattern_text : String  -- `pattern`
  pub is_regex : Bool
  pub action : ModerationAction
  pub category : Option String
  pub is_active : Bool

pub record AiApiKeyPoolEntry : Type 0 where
  pub id : ℕ
  pub label : String
  pub api_key : String
  pub model : String
  pub base_url : String
  pub capability : AiKeyCapability
  pub is_active : Bool

pub record AuditLogEntry : Type 0 where
  pub id : ℕ
  pub event_type : AuditEventType
  pub shop_bot_id : Option ℕ
  pub actor_telegram_id : Option ℕ
  pub details : Option String

pub record AdminRole : Type 0 where
  pub id : ℕ
  pub telegram_id : ℕ
  pub role : AdminRoleType
  pub granted_by_telegram_id : ℕ

instance abbrev pub SubscriptionPlan-Keyed : Keyed SubscriptionPlan
SubscriptionPlan-Keyed = record { key = λ r. r.id }

instance abbrev pub OtpCode-Keyed : Keyed OtpCode
OtpCode-Keyed = record { key = λ r. r.id }

instance abbrev pub ModerationRule-Keyed : Keyed ModerationRule
ModerationRule-Keyed = record { key = λ r. r.id }

instance abbrev pub AiApiKeyPoolEntry-Keyed : Keyed AiApiKeyPoolEntry
AiApiKeyPoolEntry-Keyed = record { key = λ r. r.id }

instance abbrev pub AuditLogEntry-Keyed : Keyed AuditLogEntry
AuditLogEntry-Keyed = record { key = λ r. r.id }

instance abbrev pub AdminRole-Keyed : Keyed AdminRole
AdminRole-Keyed = record { key = λ r. r.id }
