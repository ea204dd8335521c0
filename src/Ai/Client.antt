-- ===== src/Ai/Client.antt =====
-- `OpenAiCompatibleAiService` of app/services/ai_service.py: one service with its key. The network
-- is a parameter: what each attempt of a call meets.
use kasb_o_kar_hoshmand.Base.{
  ℕ, zero, suc, ◌+◌, String, Bool, ◌||◌, Option, none, some, leb, ◌==◌, if◌then◌else◌,
}
use kasb_o_kar_hoshmand.Base.Int.{ℤ}
use kasb_o_kar_hoshmand.Base.Json.{Json, str, arr, obj, nil, cons, get_field, find_field, as_number}
use kasb_o_kar_hoshmand.Models.{
  Result, ok, raised, ai_service_error, key_error, index_error, type_error, attribute_error,
  value_error, ◌>>=◌,
}

pub record OpenAiCompatibleAiService : Type 0 where
  pub api_key : String
  pub model : String
  pub base_url : String

abbrev pub default_ai_base_url : String
default_ai_base_url = "https://api.x.ai/v1/chat/completions"

-- The content comes from the service, so it may be no text.
pub record AiCallResult : Type 0 where
  pub text : Json
  pub total_tokens : Option ℤ

-- What an attempt meets: an exception of any kind, or a reply with its status and its body.
pub data Response : Type 0 where
  failed : Response
  replied : ℕ → Json → Response

abbrev pub max_retries : ℕ
max_retries = 2

-- `resp.status == 429 or resp.status >= 500`
abbrev pub is_retryable : ℕ → Bool
is_retryable status = status == 429 || leb 500 status

-- The loop over the attempts, from attempt `k` with `left` of them left. It also counts the
-- requests sent. The pauses between attempts only take time.
unfoldable pub attempts : (ℕ → Response) → ℕ → ℕ → ℕ × Result Json
attempts http zero k = (k, raised ai_service_error)
attempts http (suc left) k =
    let again = attempts http left (k + 1) in
    elim (http k) [
      | failed ↦ again
      | replied status body ↦
          if is_retryable status
          then again
          else if status == 200
          then (k + 1, ok body)
          else (k + 1, raised ai_service_error)
    ]

unfoldable pub post_chat : (ℕ → Response) → ℕ × Result Json
unfolding attempts
post_chat http = attempts http (max_retries + 1) 0

-- `data[name]`
abbrev pub item : String → Json → Result Json
item name (obj fields) = elim (find_field name fields) [ none ↦ raised key_error | some v ↦ ok v ]
item name _ = raised type_error

abbrev pub first_character : String → Result Json
first_character String.[] = raised index_error
first_character (String.◌∷◌ c rest) = ok (str (String.◌∷◌ c String.[]))

-- `data[0]`
abbrev pub first_item : Json → Result Json
first_item (arr nil) = raised index_error
first_item (arr (cons x rest)) = ok x
first_item (obj fields) = raised key_error
first_item (str s) = first_character s
first_item _ = raised type_error

-- `except (KeyError, IndexError)`
abbrev pub as_service_error : Result Json → Result Json
as_service_error (ok v) = ok v
as_service_error (raised key_error) = raised ai_service_error
as_service_error (raised index_error) = raised ai_service_error
as_service_error (raised e) = raised e

unfoldable pub extract_text : Json → Result Json
extract_text reply = as_service_error (do
  choices ← item "choices" reply
  first ← first_item choices
  message ← item "message" first
  item "content" message)

-- `int(total) if isinstance(total, (int, float)) else None`
abbrev pub to_tokens : Option (Option ℤ × Bool) → Result (Option ℤ)
to_tokens none = ok none
to_tokens (some (none, above)) = raised value_error
to_tokens (some (some n, above)) = ok (some n)

abbrev pub usage_total : Json → Result (Option ℤ)
usage_total (obj usage) = to_tokens (as_number (get_field "total_tokens" usage))
usage_total _ = ok none

unfoldable pub extract_usage : Json → Result (Option ℤ)
extract_usage (obj reply) = usage_total (get_field "usage" reply)
extract_usage _ = raised attribute_error

-- `get_reply` and `analyze_image`: they differ in what is sent
unfoldable pub get_reply : (ℕ → Response) → Result AiCallResult
unfolding post_chat extract_text extract_usage
get_reply http = do
  reply ← (post_chat http).1
  text ← extract_text reply
  total_tokens ← extract_usage reply
  ok (record { text = text; total_tokens = total_tokens })

-- `data.get("text")`, which has to be a text
abbrev pub transcript : Json → Result String
transcript (obj fields) = elim (get_field "text" fields) [
  | str s ↦ ok s
  | _ ↦ raised ai_service_error
]
transcript _ = raised attribute_error

unfoldable pub transcribe_audio : (ℕ → Response) → Result String
unfolding attempts
transcribe_audio http = do reply ← (attempts http (max_retries + 1) 0).1; transcript reply
