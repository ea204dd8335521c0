-- ===== src/Ai/Examples.antt =====
-- Runs of the calls of AI services.
use kasb_o_kar_hoshmand.Base.{
  ℕ, ◌+◌, ◌≡◌, refl, inl, inr, true, false, none, some, [], ◌∷◌, ◌==◌, if◌then◌else◌, arith,
}
use kasb_o_kar_hoshmand.Base.Int.{pos, negsuc}
use kasb_o_kar_hoshmand.Base.Json.{Json, str, arr, obj, int, nil, cons, end, field}
use kasb_o_kar_hoshmand.Base.Texts.{same_text}
use kasb_o_kar_hoshmand.Base.Time.{Instant, seconds}
use kasb_o_kar_hoshmand.Models.{Result, ok, raised, Exn, ai_service_error}
use kasb_o_kar_hoshmand.Ai.Client.{
  OpenAiCompatibleAiService, Response, failed, replied, post_chat, get_reply, AiCallResult,
}
use kasb_o_kar_hoshmand.Ai.Circuit.{Circuits, circuit_is_open}
use kasb_o_kar_hoshmand.Ai.Pool.{Entries, pooled, is_service_error, run}
use kasb_o_kar_hoshmand.Ai.Breaker.{failure, success, after, circuit_is_open_exact}
use kasb_o_kar_hoshmand.Ai.Answers.{run_answers}

abbrev hello : Json
hello = obj (
    field "choices"
      (arr (cons (obj (field "message" (obj (field "content" (str "hello") end)) end)) nil))
      (field "usage" (obj (field "total_tokens" (int (pos 31)) end)) end))

-- the network fails, then the service is busy, then it answers
abbrev busy_then_hello : ℕ → Response
busy_then_hello k =
    if k == 0 then failed else if k == 1 then replied 429 hello else replied 200 hello

replied_hello :
    get_reply busy_then_hello ≡ ok (record { text = str "hello"; total_tokens = some (pos 31) })
unfolding get_reply kasb_o_kar_hoshmand.Ai.Client.attempts
replied_hello = refl

abbrev good_service : OpenAiCompatibleAiService
good_service = record { api_key = "good"; model = "m"; base_url = "u" }

abbrev bad_service : OpenAiCompatibleAiService
bad_service = record { api_key = "bad"; model = "m"; base_url = "u" }

-- one of the keys works; a call takes a second
abbrev one_works : Instant → OpenAiCompatibleAiService → Result ℕ × Instant
one_works t s =
    (if same_text s.api_key "good" then ok 7 else raised ai_service_error, t + seconds 1)

one_works_mannered :
    (t : Instant) (s : OpenAiCompatibleAiService) (e : Exn)
    → (one_works t s).0 ≡ raised e
    → is_service_error e ≡ true
one_works_mannered t s e h = ground arith

abbrev three_keys : Entries
three_keys = (pos 0, bad_service) ∷ (negsuc 0, bad_service) ∷ (pos 5, good_service) ∷ []

abbrev all_closed : Circuits
all_closed k = none

five_closed : circuit_is_open 0 (pos 5) all_closed ≡ false
unfolding circuit_is_open
five_closed = refl

run_answers_example : (a : ℕ) × ((run one_works (pooled three_keys) 1 0 all_closed).0 ≡ ok a)
run_answers_example =
    run_answers one_works good_service (λ t s. omega arith) one_works_mannered (λ t. (7, refl))
      (pos 5) three_keys 1 0 all_closed (inr (inr (inl refl))) (λ h. cc, (λ h. cc, (λ h. refl, tt)))
      five_closed

circuit_is_open_exact_example :
    circuit_is_open (seconds 70) (pos 5) (
      after (
        failure (seconds 20) (pos 5)
        ∷ failure (seconds 19) (pos 5)
        ∷ failure (seconds 18) (pos 5)
        ∷ failure (seconds 17) (pos 5)
        ∷ failure (seconds 16) (pos 5)
        ∷ success (pos 5)
        ∷ []))
    ≡ true
circuit_is_open_exact_example = circuit_is_open_exact (seconds 70) (pos 5) (
    failure (seconds 20) (pos 5)
    ∷ failure (seconds 19) (pos 5)
    ∷ failure (seconds 18) (pos 5)
    ∷ failure (seconds 17) (pos 5)
    ∷ failure (seconds 16) (pos 5)
    ∷ success (pos 5)
    ∷ [])
