-- ===== src/Ai/Breaker.antt =====
-- The circuit breakers of app/services/ai_service.py against the history of a key's calls.
use kasb_o_kar_hoshmand.Base.{
  ℕ, ◌+◌, ◌≡◌, refl, inl, inr, true, ◌&&◌, Option, none, some, List, [], ◌∷◌, leb, ltb,
  if◌then◌else◌, arith, Bool-cases, Option-cases,
}
use kasb_o_kar_hoshmand.Base.Int.{ℤ, eq_of_parts}
use kasb_o_kar_hoshmand.Base.Time.{Instant}
use kasb_o_kar_hoshmand.Ai.Circuit.{
  CircuitState, Circuits, cooldown, same_key, circuit_is_open, record_circuit_success,
  record_circuit_failure,
}

-- A call of a key that failed, with when it ended, or that succeeded.
pub data Event : Type 0 where
  failure : Instant → ℤ → Event
  success : ℤ → Event

-- the states after a history, its latest event first
unfoldable pub after : List Event → Circuits
after [] k = none
after (failure t j ∷ older) k = record_circuit_failure t j (after older) k
after (success j ∷ older) k = record_circuit_success j (after older) k

-- The failures of a key since its last success.
abbrev pub failures_in_row : ℤ → List Event → ℕ
failures_in_row k [] = 0
failures_in_row k (failure t j ∷ older) =
    let n = failures_in_row k older in if same_key k j then n + 1 else n
failures_in_row k (success j ∷ older) =
    let n = failures_in_row k older in if same_key k j then 0 else n

-- When the latest failure of a key ended.
abbrev pub last_failure : ℤ → List Event → Instant
last_failure k [] = 0
last_failure k (failure t j ∷ older) =
    let earlier = last_failure k older in if same_key k j then t else earlier
last_failure k (success j ∷ older) = last_failure k older

pub same_key-eq : (k j : ℤ) → same_key k j ≡ true → k ≡ j
same_key-eq k j h = ground (arith, eq_of_parts k j)

-- What the state of a key holds after a history.
abbrev Tracks : ℤ → List Event → Option CircuitState → Type 0
Tracks k es none = failures_in_row k es ≡ 0
Tracks k es (some state) =
    (state.consecutive_failures ≡ failures_in_row k es)
    × (state.open_until
        ≡ (if leb 5 (failures_in_row k es) then last_failure k es + cooldown else 0))

after-Tracks : (k : ℤ) (es : List Event) → Tracks k es (after es k)
unfolding after record_circuit_failure record_circuit_success
after-Tracks k [] = refl
after-Tracks k (success j ∷ older) = elim (Bool-cases (same_key k j)) [
  | inl same ↦ ground (arith, same)
  | inr other ↦ elim (Option-cases (after older k)) [
    | inl fresh ↦ ground (arith, other, fresh, after-Tracks k older)
    | inr (st, kept) ↦ ground (arith, other, kept, after-Tracks k older)
  ]
]
after-Tracks k (failure t j ∷ older) = elim (Bool-cases (same_key k j)) [
  | inl same ↦ rw (← same_key-eq k j same) (elim (Option-cases (after older k)) [
    | inl fresh ↦ ground (arith, fresh, after-Tracks k older)
    | inr (st, kept) ↦ ground (arith, kept, after-Tracks k older)
  ])
  | inr other ↦ elim (Option-cases (after older k)) [
    | inl fresh ↦ ground (arith, other, fresh, after-Tracks k older)
    | inr (st, kept) ↦ ground (arith, other, kept, after-Tracks k older)
  ]
]

-- A key rests at an instant exactly if it failed at least five times in a row since it last
-- succeeded, and the last of these failures is less than 60 seconds ago.
pub circuit_is_open_exact :
    (now : Instant) (k : ℤ) (es : List Event)
    → circuit_is_open now k (after es)
      ≡ leb 5 (failures_in_row k es) && ltb now (last_failure k es + cooldown)
unfolding circuit_is_open
circuit_is_open_exact now k es = elim (Option-cases (after es k)) [
  | inl fresh ↦ ground (arith, fresh, after-Tracks k es)
  | inr (st, kept) ↦ ground (arith, kept, after-Tracks k es)
]
