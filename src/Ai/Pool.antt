-- ===== src/Ai/Pool.antt =====
-- `PooledAiService`, `FallbackAiService` and `get_ai_service` of app/services/ai_service.py.
use kasb_o_kar_hoshmand.Base.{
  ℕ, zero, suc, String, Bool, true, false, Option, none, some, List, [], ◌∷◌, ◌++◌, if◌then◌else◌,
  take,
}
use kasb_o_kar_hoshmand.Base.Int.{ℤ}
use kasb_o_kar_hoshmand.Base.Texts.{same_text}
use kasb_o_kar_hoshmand.Base.Time.{Instant}
use kasb_o_kar_hoshmand.Models.{Result, ok, raised, Exn, ai_service_error}
use kasb_o_kar_hoshmand.Ai.Client.{OpenAiCompatibleAiService, default_ai_base_url}
use kasb_o_kar_hoshmand.Ai.Circuit.{
  Circuits, circuit_is_open, record_circuit_success, record_circuit_failure,
}

abbrev pub Entries : Type 0
Entries = List (ℤ × OpenAiCompatibleAiService)

-- The kinds of service that the program builds.
pub data AiService : Type 0 where
  one_key : OpenAiCompatibleAiService → AiService
  fallback : OpenAiCompatibleAiService → OpenAiCompatibleAiService → AiService
  pooled : Entries → AiService

abbrev pub drop {ℓ} : {A : Type ℓ} → ℕ → List A → List A
drop zero xs = xs
drop (suc n) [] = []
drop (suc n) (x ∷ xs) = drop n xs

-- `start` is the position that `random.randrange` drew
unfoldable pub ordered_entries : ℕ → Entries → Entries
ordered_entries start entries = drop start entries ++ take start entries

-- A text that is neither None nor empty.
abbrev pub given : Option String → Option String
given none = none
given (some s) = if same_text s "" then none else some s

abbrev pub or_text : Option String → String → String
or_text o d = elim (given o) [ none ↦ d | some s ↦ s ]

unfoldable pub get_ai_service :
    String → String → String → Option String → Option String → Option String → AiService
get_ai_service api_key model base_url fallback_api_key fallback_model fallback_base_url =
    let primary : OpenAiCompatibleAiService = record {
      api_key = api_key;
      model = model;
      base_url = base_url;
    } in
    elim (given fallback_api_key) [
      | none ↦ one_key primary
      | some key ↦ elim (given fallback_model) [
        | none ↦ one_key primary
        | some second ↦ fallback primary (record {
          api_key = key;
          model = second;
          base_url = or_text fallback_base_url default_ai_base_url;
        })
      ]
    ]

-- whether an exception is an `AiServiceError`
abbrev pub is_service_error : Exn → Bool
is_service_error ai_service_error = true
is_service_error _ = false

-- A call of one service, begun at an instant: its result, and when it ends.
module _ {A : Type 0} (call : Instant → OpenAiCompatibleAiService → Result A × Instant) where
  -- the loop of `_run`; both of its errors at the end are an `AiServiceError`
  unfoldable pub run_entries : Entries → Instant → Circuits → Result A × Circuits × Instant
  run_entries [] now circuits = (raised ai_service_error, circuits, now)
  run_entries ((key_id, service) ∷ rest) now circuits = elim (circuit_is_open now key_id circuits) [
    | true ↦ run_entries rest now circuits
    | false ↦
        let later = (call now service).1 in
        elim (call now service).0 [
          | ok a ↦ (ok a, record_circuit_success key_id circuits, later)
          | raised e ↦ elim (is_service_error e) [
            | true ↦ run_entries rest later (record_circuit_failure later key_id circuits)
            | false ↦ (raised e, circuits, later)
          ]
        ]
  ]

  -- a method of a service, called at an instant
  unfoldable pub run : AiService → ℕ → Instant → Circuits → Result A × Circuits × Instant
  unfolding run_entries ordered_entries
  run (one_key service) start now circuits = ((call now service).0, circuits, (call now service).1)
  run (fallback primary second) start now circuits =
      let later = (call now primary).1 in
      elim (call now primary).0 [
        | ok a ↦ (ok a, circuits, later)
        | raised e ↦
            if is_service_error e
            then ((call later second).0, circuits, (call later second).1)
            else (raised e, circuits, later)
      ]
  run (pooled entries) start now circuits = run_entries (ordered_entries start entries) now circuits
