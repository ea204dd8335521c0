-- ===== src/Models/Settings.antt =====
-- `AdminSettings` of app/database/models.py: the single row of platform settings.
use kasb_o_kar_hoshmand.Base.{ℕ, String, Bool, true, false, Option, none}

pub data ReferralRewardType : Type 0 where
  free_days discount_percent : ReferralRewardType

pub record AdminSettings : Type 0 where
  pub sms_api_key : Option String
  pub ai_api_key : Option String
  pub ai_model : String
  pub ai_base_url : String
  pub ai_fallback_api_key : Option String
  pub ai_fallback_model : Option String
  pub ai_fallback_base_url : Option String
  pub zarinpal_merchant_id : Option String
  pub platform_card_number : Option String
  pub bale_provider_token : Option String
  pub platform_card_holder_name : Option String
  pub referral_reward_type : ReferralRewardType
  pub referral_reward_value : ℕ  -- Numeric(10, 2), in hundredths
  pub referral_reward_wallet_toman : ℕ
  pub grace_period_hours : ℕ
  pub rate_limit_max_messages : ℕ
  pub zarinpal_enabled : Bool
  pub bale_pay_enabled : Bool
  pub rate_limit_window_seconds : ℕ
  pub payment_reservation_minutes : ℕ
  pub order_reservation_minutes : ℕ
  pub order_customer_confirmation_timeout_minutes : ℕ
  pub allow_new_registrations : Bool
  pub allow_wallet_topups : Bool
  pub maintenance_mode : Bool
  pub periodic_report_frequency_days : ℕ
  pub conversation_history_limit : ℕ
  pub conversation_retention_days : ℕ
  pub knowledge_items_limit : ℕ
  pub global_ai_system_prompt : Option String
  pub reference_channel_link : Option String
  pub wallet_topup_validity_months : ℕ
  pub wallet_cost_per_1k_tokens_toman : ℕ
  pub ai_cost_usd_per_1m_tokens : ℕ  -- Numeric(10, 4), in ten-thousandths
  pub usd_to_toman_rate : ℕ
  pub wallet_markup_multiplier : ℕ  -- Numeric(5, 2), in hundredths
  pub wallet_cost_photo_analysis_toman : ℕ
  pub wallet_cost_voice_transcription_toman : ℕ
  pub wallet_cost_order_detection_toman : ℕ
  pub wallet_low_balance_warning_toman : ℕ
  pub wallet_trial_credit_toman : ℕ

-- The row that the column defaults give: `AdminSettings(id=1)`.
abbrev pub default_settings : AdminSettings
default_settings = record {
  sms_api_key = none;
  ai_api_key = none;
  ai_model = "grok-4-1-fast-non-reasoning";
  ai_base_url = "https://api.x.ai/v1/chat/completions";
  ai_fallback_api_key = none;
  ai_fallback_model = none;
  ai_fallback_base_url = none;
  zarinpal_merchant_id = none;
  platform_card_number = none;
  bale_provider_token = none;
  platform_card_holder_name = none;
  referral_reward_type = free_days;
  referral_reward_value = 1000;
  referral_reward_wallet_toman = 20000;
  grace_period_hours = 48;
  rate_limit_max_messages = 15;
  zarinpal_enabled = true;
  bale_pay_enabled = false;
  rate_limit_window_seconds = 60;
  payment_reservation_minutes = 60;
  order_reservation_minutes = 60;
  order_customer_confirmation_timeout_minutes = 60;
  allow_new_registrations = true;
  allow_wallet_topups = true;
  maintenance_mode = false;
  periodic_report_frequency_days = 7;
  conversation_history_limit = 20;
  conversation_retention_days = 90;
  knowledge_items_limit = 15;
  global_ai_system_prompt = none;
  reference_channel_link = none;
  wallet_topup_validity_months = 12;
  wallet_cost_per_1k_tokens_toman = 50;
  ai_cost_usd_per_1m_tokens = 140;
  usd_to_toman_rate = 100000;
  wallet_markup_multiplier = 500;
  wallet_cost_photo_analysis_toman = 500;
  wallet_cost_voice_transcription_toman = 300;
  wallet_cost_order_detection_toman = 100;
  wallet_low_balance_warning_toman = 20000;
  wallet_trial_credit_toman = 50000;
}
