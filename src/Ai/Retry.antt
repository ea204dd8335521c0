-- ===== src/Ai/Retry.antt =====
-- The attempts of one call, in app/services/ai_service.py.
use kasb_o_kar_hoshmand.Base.{
  ℕ, zero, suc, ◌+◌, ◌≤◌, ◌<◌, ◌≡◌, inl, inr, Bool, true, false, ◌==◌, if◌then◌else◌, arith, ==_iff,
  Bool-cases,
}
use kasb_o_kar_hoshmand.Base.Json.{Json}
use kasb_o_kar_hoshmand.Models.{Result, ok, raised, ai_service_error}
use kasb_o_kar_hoshmand.Ai.Client.{Response, failed, replied, is_retryable, attempts, post_chat}

-- A reply that may be another at the next attempt.
abbrev pub is_temporary : Response → Bool
is_temporary failed = true
is_temporary (replied status body) = is_retryable status

-- What the caller has of a reply that is not temporary.
abbrev pub outcome : Response → Result Json
outcome failed = raised ai_service_error
outcome (replied status body) = if status == 200 then ok body else raised ai_service_error

module _ (http : ℕ → Response) where
  attempts_settle :
      (left k n : ℕ)
      → k ≤ n
      → n < k + left
      → ((j : ℕ) → k ≤ j → j < n → is_temporary (http j) ≡ true)
      → is_temporary (http n) ≡ false
      → attempts http left k ≡ (n + 1, outcome (http n))
  unfolding attempts
  attempts_settle zero k n le lt before here = absurd (omega arith)
  attempts_settle (suc left) k n le lt before here = elim (Bool-cases (k == n)) [
    | inl same ↦ rw ((==_iff k n).0 same) (ground (arith, here))
    | inr other ↦ ground (
      arith,
      before k,
      attempts_settle left (k + 1) n (ground arith) (omega arith)
          (λ j q r. before j (omega arith) r) here,
    )
  ]

  attempts_exhausted :
      (left k : ℕ)
      → ((j : ℕ) → k ≤ j → j < k + left → is_temporary (http j) ≡ true)
      → attempts http left k ≡ (k + left, raised ai_service_error)
  unfolding attempts
  attempts_exhausted zero k all = ground arith
  attempts_exhausted (suc left) k all =
      ground
        (arith, all k, attempts_exhausted left (k + 1) (λ j q r. all j (omega arith) (omega arith)))

  -- A call takes the first reply, among its three attempts, that is not temporary, and sends no
  -- request after it: a reply of status 200 gives its body, and any other an `AiServiceError`.
  pub post_chat_settles :
      (n : ℕ)
      → n < 3
      → ((j : ℕ) → j < n → is_temporary (http j) ≡ true)
      → is_temporary (http n) ≡ false
      → post_chat http ≡ (n + 1, outcome (http n))
  unfolding post_chat
  post_chat_settles n lt before here =
      attempts_settle 3 0 n (omega arith) (omega arith) (λ j q r. before j r) here

  -- Three attempts that meet something temporary are all that is made.
  pub post_chat_exhausted :
      ((j : ℕ) → j < 3 → is_temporary (http j) ≡ true)
      → post_chat http ≡ (3, raised ai_service_error)
  unfolding post_chat
  post_chat_exhausted all = attempts_exhausted 3 0 (λ j q r. all j r)
