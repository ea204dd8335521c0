-- ===== src/Models/Database.antt =====
-- The database as the services see it within one session: a record of tables.
-- A service either returns with the tables changed or raises; a raise reaches the session's owner
-- (`DbSessionMiddleware` in app/bots/common/middlewares.py, `session_scope` in
-- app/database/session.py), which rolls the whole session back, so no tables come with it.
use kasb_o_kar_hoshmand.Base.{List, [], ◌∷◌, Option, none, some, ◌≡◌, refl, ◌⊎◌, inl, inr, arith}
use kasb_o_kar_hoshmand.Models.Settings.{AdminSettings}
use kasb_o_kar_hoshmand.Models.Wallet.{ShopOwner, WalletCharge, WalletTransaction}
use kasb_o_kar_hoshmand.Models.Orders.{Product, OrderConsultation}
use kasb_o_kar_hoshmand.Models.Chat.{Customer, ConversationMessage}
use kasb_o_kar_hoshmand.Models.Shops.{ShopBot, MandatoryChannel, ChannelKnowledge, BotErrorEvent}
use kasb_o_kar_hoshmand.Models.Platform.{
  SubscriptionPlan, OtpCode, ModerationRule, AiApiKeyPoolEntry, AuditLogEntry, AdminRole,
}
use kasb_o_kar_hoshmand.Models.Billing.{
  Payment, Subscription, DiscountCode, DiscountCodeUsage, Referral,
}

pub record Db : Type 0 where
  pub settings : Option AdminSettings
  pub owners : List ShopOwner
  pub charges : List WalletCharge
  pub transactions : List WalletTransaction
  pub payments : List Payment
  pub subscriptions : List Subscription
  pub discounts : List DiscountCode
  pub usages : List DiscountCodeUsage
  pub referrals : List Referral
  pub products : List Product
  pub orders : List OrderConsultation
  pub customers : List Customer
  pub messages : List ConversationMessage
  pub shop_bots : List ShopBot
  pub channels : List MandatoryChannel
  pub knowledge : List ChannelKnowledge
  pub bot_errors : List BotErrorEvent
  pub plans : List SubscriptionPlan
  pub otp_codes : List OtpCode
  pub rules : List ModerationRule
  pub ai_keys : List AiApiKeyPoolEntry
  pub audit_log : List AuditLogEntry
  pub admin_roles : List AdminRole

-- a database with no rows
abbrev pub empty_db : Db
empty_db = record {
  settings = none;
  owners = [];
  charges = [];
  transactions = [];
  payments = [];
  subscriptions = [];
  discounts = [];
  usages = [];
  referrals = [];
  products = [];
  orders = [];
  customers = [];
  messages = [];
  shop_bots = [];
  channels = [];
  knowledge = [];
  bot_errors = [];
  plans = [];
  otp_codes = [];
  rules = [];
  ai_keys = [];
  audit_log = [];
  admin_roles = [];
}

-- The exceptions that the modelled code raises.
pub data Exn : Type 0 where
  value_error runtime_error key_error attribute_error type_error telegram_error : Exn
  ai_service_error index_error : Exn
  no_result_found multiple_results_found integrity_error : Exn

pub data Result {ℓ} (A : Type ℓ) : Type ℓ where
  ok : A → Result A
  raised : Exn → Result A

infixl 5 ◌>>=◌
abbrev pub ◌>>=◌ {ℓ κ} : {A : Type ℓ} {B : Type κ} → Result A → (A → Result B) → Result B
ok a >>= f = f a
raised e >>= f = raised e

-- `result.scalar_one_or_none()`
abbrev pub scalar_one_or_none {ℓ} : {A : Type ℓ} → List A → Result (Option A)
scalar_one_or_none [] = ok none
scalar_one_or_none (x ∷ []) = ok (some x)
scalar_one_or_none (x ∷ y ∷ rest) = raised multiple_results_found

pub Result-cases {ℓ} :
    {A : Type ℓ} (r : Result A) → ((a : A) × (r ≡ ok a)) ⊎ ((e : Exn) × (r ≡ raised e))
Result-cases (ok a) = inl (a, refl)
Result-cases (raised e) = inr (e, refl)

-- A query that gives a row selects that row alone, and one that gives none selects none.
pub scalar_one :
    {A : Type 0} (xs : List A) {x : A} → scalar_one_or_none xs ≡ ok (some x) → xs ≡ x ∷ []
scalar_one [] e = absurd (ground arith)
scalar_one (y ∷ []) e = ground arith
scalar_one (y ∷ z ∷ zs) e = absurd (ground arith)

pub scalar_empty : {A : Type 0} (xs : List A) → scalar_one_or_none xs ≡ ok none → xs ≡ []
scalar_empty [] e = refl
scalar_empty (y ∷ []) e = absurd (ground arith)
scalar_empty (y ∷ z ∷ zs) e = absurd (ground arith)
