-- ===== src/Ai/Circuit.antt =====
-- The circuit breakers of app/services/ai_service.py: a key that fails again and again rests. The
-- clock is monotonic, from 0, and `open_until` is 0 while a circuit has not opened.
use kasb_o_kar_hoshmand.Base.{
  ℕ, ◌+◌, Bool, false, ◌&&◌, Option, none, some, leb, ltb, ◌==◌, if◌then◌else◌,
}
use kasb_o_kar_hoshmand.Base.Int.{ℤ, pos_part, neg_part}
use kasb_o_kar_hoshmand.Base.Time.{Instant, seconds}

pub record CircuitState : Type 0 where
  pub consecutive_failures : ℕ
  pub open_until : Instant

-- `_circuit_states`
abbrev pub Circuits : Type 0
Circuits = ℤ → Option CircuitState

abbrev pub failure_threshold : ℕ
failure_threshold = 5

abbrev pub cooldown : ℕ
cooldown = seconds 60

abbrev pub same_key : ℤ → ℤ → Bool
same_key a b = pos_part a == pos_part b && neg_part a == neg_part b

-- the states with the one of a key replaced
abbrev pub with_state : ℤ → Option CircuitState → Circuits → Circuits
with_state key_id state circuits k = if same_key k key_id then state else circuits k

unfoldable pub circuit_is_open : Instant → ℤ → Circuits → Bool
circuit_is_open now key_id circuits = elim (circuits key_id) [
  | none ↦ false
  | some state ↦ ltb now state.open_until
]

unfoldable pub record_circuit_success : ℤ → Circuits → Circuits
record_circuit_success key_id circuits = with_state key_id none circuits

-- `_circuit_states.setdefault(key_id, _CircuitState())`
abbrev pub or_closed : Option CircuitState → CircuitState
or_closed none = record { consecutive_failures = 0; open_until = 0 }
or_closed (some state) = state

unfoldable pub record_circuit_failure : Instant → ℤ → Circuits → Circuits
record_circuit_failure now key_id circuits =
    let state = or_closed (circuits key_id) in
    let failures = state.consecutive_failures + 1 in
    with_state key_id
      (some (record {
        consecutive_failures = failures;
        open_until = if leb failure_threshold failures then now + cooldown else state.open_until;
      }))
      circuits
