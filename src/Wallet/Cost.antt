-- ===== src/Wallet/Cost.antt =====
-- The prices of app/services/wallet_service.py.
-- `round(tokens * cost / 1000)` goes through a double; below 2 ^ 50 it is the exact quotient
-- rounded, since no double lies between a value and the half that it is on one side of.
-- The formula of the price per 1000 tokens is computed in `Decimal`, at 28 digits, and is exact.
use kasb_o_kar_hoshmand.Base.{ℕ, ◌*◌, max, Option, none, some}
use kasb_o_kar_hoshmand.Base.Rounding.{round_div}
use kasb_o_kar_hoshmand.Models.{AdminSettings}

unfoldable pub token_cost : AdminSettings → ℕ → ℕ
token_cost settings total_tokens =
    max 1 (round_div (total_tokens * settings.wallet_cost_per_1k_tokens_toman) 1000)

unfoldable pub estimate_chat_cost : AdminSettings → Option ℕ → ℕ
unfolding token_cost
estimate_chat_cost settings none = token_cost settings 800
estimate_chat_cost settings (some total_tokens) = token_cost settings total_tokens

unfoldable pub estimate_photo_cost : AdminSettings → ℕ
estimate_photo_cost settings = settings.wallet_cost_photo_analysis_toman

unfoldable pub estimate_voice_cost : AdminSettings → ℕ
estimate_voice_cost settings = settings.wallet_cost_voice_transcription_toman

unfoldable pub estimate_order_detection_cost : AdminSettings → Option ℕ → ℕ
unfolding token_cost
estimate_order_detection_cost settings none = settings.wallet_cost_order_detection_toman
estimate_order_detection_cost settings (some total_tokens) = token_cost settings total_tokens

-- cost (1 / 10^4 dollars for 10^6 tokens) / 1000 * rate * multiplier (1 / 100)
unfoldable pub compute_cost_per_1k_tokens_from_formula : AdminSettings → ℕ
compute_cost_per_1k_tokens_from_formula settings = max 1 (
    round_div
      (settings.ai_cost_usd_per_1m_tokens * settings.usd_to_toman_rate
        * settings.wallet_markup_multiplier)
      1_000_000_000)
