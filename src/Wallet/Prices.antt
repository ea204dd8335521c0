-- ===== src/Wallet/Prices.antt =====
-- The prices of app/services/wallet_service.py, `estimate_chat_cost` and the others.
use kasb_o_kar_hoshmand.Base.{ℕ, ◌+◌, ◌*◌, ◌≤◌, ◌≡◌, ◌⊎◌, some, arith}
use kasb_o_kar_hoshmand.Base.Rounding.{round_div}
use kasb_o_kar_hoshmand.Models.{AdminSettings}
use kasb_o_kar_hoshmand.Wallet.Cost.{token_cost, estimate_chat_cost}

-- The price of an answer of `n` tokens is at least one toman. It is one toman where the exact
-- price is less than one and a half, and otherwise differs from the exact price by half a toman at
-- most (all sides are taken 2000 times).
pub estimate_chat_cost_nearest :
    (settings : AdminSettings) (n : ℕ)
    → let cost = estimate_chat_cost settings (some n) in
      let exact = n * settings.wallet_cost_per_1k_tokens_toman in
      (1 ≤ cost)
      × (((cost ≡ 1) × (2 * exact ≤ 3000))
          ⊎ ((2 * exact ≤ 2000 * cost + 1000) × (2000 * cost ≤ 2 * exact + 1000)))
unfolding estimate_chat_cost token_cost round_div
estimate_chat_cost_nearest settings n = ground arith
