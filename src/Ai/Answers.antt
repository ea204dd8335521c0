-- ===== src/Ai/Answers.antt =====
-- When the pool of app/services/ai_service.py gets an answer.
use kasb_o_kar_hoshmand.Base.{
  ℕ, zero, suc, ◌≤◌, ◌≡◌, ◌⊎◌, refl, ap, inl, inr, true, false, Option, none, some, [], ◌∷◌, ◌++◌,
  ltb, arith, Bool-cases, All, All-append, take,
}
use kasb_o_kar_hoshmand.Base.Int.{ℤ}
use kasb_o_kar_hoshmand.Base.Time.{Instant}
use kasb_o_kar_hoshmand.Models.{Result, Result-cases, ok, raised, Exn}
use kasb_o_kar_hoshmand.Ai.Client.{OpenAiCompatibleAiService}
use kasb_o_kar_hoshmand.Ai.Circuit.{
  CircuitState, Circuits, same_key, circuit_is_open, record_circuit_failure,
}
use kasb_o_kar_hoshmand.Ai.Pool.{
  Entries, pooled, drop, ordered_entries, is_service_error, run_entries, run,
}

-- The entry of a key is among the entries.
abbrev pub Holds : ℤ → OpenAiCompatibleAiService → Entries → Type 0
Holds k c [] = ⊥
Holds k c (e ∷ es) = (e ≡ (k, c)) ⊎ Holds k c es

-- No other service has the key.
abbrev pub Owns : ℤ → OpenAiCompatibleAiService → Entries → Type 0
Owns k c = All (λ e. same_key k e.0 ≡ true → e.1 ≡ c)

module _ (k : ℤ) (c : OpenAiCompatibleAiService) where
  Holds-append_right : (xs ys : Entries) → Holds k c ys → Holds k c (xs ++ ys)
  Holds-append_right [] ys h = h
  Holds-append_right (x ∷ xs) ys h = inr (Holds-append_right xs ys h)

  Holds-append_left : (xs ys : Entries) → Holds k c xs → Holds k c (xs ++ ys)
  Holds-append_left [] ys h = elim h [ ]
  Holds-append_left (x ∷ xs) ys (inl h) = inl h
  Holds-append_left (x ∷ xs) ys (inr h) = inr (Holds-append_left xs ys h)

  Holds-split :
      (n : ℕ) (xs : Entries) → Holds k c xs → Holds k c (drop n xs) ⊎ Holds k c (take n xs)
  Holds-split zero xs h = inl h
  Holds-split (suc n) [] h = elim h [ ]
  Holds-split (suc n) (x ∷ xs) (inl h) = inr (inl h)
  Holds-split (suc n) (x ∷ xs) (inr h) = elim (Holds-split n xs h) [
    | inl d ↦ inl d
    | inr t ↦ inr (inr t)
  ]

  Holds-turn : (n : ℕ) (xs : Entries) → Holds k c xs → Holds k c (drop n xs ++ take n xs)
  Holds-turn n xs h = elim (Holds-split n xs h) [
    | inl d ↦ Holds-append_left (drop n xs) (take n xs) d
    | inr t ↦ Holds-append_right (drop n xs) (take n xs) t
  ]

module _ (P : ℤ × OpenAiCompatibleAiService → Type 0) where
  All-drop : (n : ℕ) (xs : Entries) → All P xs → All P (drop n xs)
  All-drop zero xs h = h
  All-drop (suc n) [] h = tt
  All-drop (suc n) (x ∷ xs) h = All-drop n xs h.1

  All-take : (n : ℕ) (xs : Entries) → All P xs → All P (take n xs)
  All-take zero xs h = tt
  All-take (suc n) [] h = tt
  All-take (suc n) (x ∷ xs) h = (h.0, All-take n xs h.1)

  All-turn : (n : ℕ) (xs : Entries) → All P xs → All P (drop n xs ++ take n xs)
  All-turn n xs h = All-append P (drop n xs) (take n xs) (All-drop n xs h) (All-take n xs h)

failure_other :
    (t : Instant) (k j : ℤ) (circuits : Circuits)
    → same_key k j ≡ false
    → record_circuit_failure t j circuits k ≡ circuits k
unfolding record_circuit_failure
failure_other t k j circuits other = rw other

still_closed :
    (now later : Instant) (state : Option CircuitState)
    → now ≤ later
    → (elim state [ none ↦ false | some st ↦ ltb now st.open_until ]) ≡ false
    → (elim state [ none ↦ false | some st ↦ ltb later st.open_until ]) ≡ false
still_closed now later none le closed = refl
still_closed now later (some st) le closed = ground arith

later_closed :
    (now later t : Instant) (k j : ℤ) (circuits : Circuits)
    → now ≤ later
    → same_key k j ≡ false
    → circuit_is_open now k circuits ≡ false
    → circuit_is_open later k (record_circuit_failure t j circuits) ≡ false
unfolding circuit_is_open
later_closed now later t k j circuits le other closed =
    rw (failure_other t k j circuits other, circuit_is_open)
      (still_closed now later (circuits k) le closed)

not_self : {j k : ℤ} → j ≡ k → same_key k j ≡ false → ⊥
not_self {j} {k} e other = ground arith

open_at :
    {j k : ℤ} (now : Instant) (circuits : Circuits)
    → j ≡ k
    → circuit_is_open now j circuits ≡ true
    → circuit_is_open now k circuits ≡ false
    → ⊥
open_at now circuits e resting closed = cc

-- What is relied on of the calls: they take time, fail only as a service does, and those of one
-- service succeed.
module _ {A : Type 0} (call : Instant → OpenAiCompatibleAiService → Result A × Instant)
    (c : OpenAiCompatibleAiService)
    (forward : (t : Instant) (s : OpenAiCompatibleAiService) → t ≤ (call t s).1)
    (mannered : (t : Instant) (s : OpenAiCompatibleAiService) (e : Exn)
      → (call t s).0 ≡ raised e
      → is_service_error e ≡ true)
    (works : (t : Instant) → (a : A) × ((call t c).0 ≡ ok a)) where
  not_both :
      {t : Instant} {s : OpenAiCompatibleAiService} {e : Exn}
      → s ≡ c
      → (a : A) × ((call t c).0 ≡ ok a)
      → (call t s).0 ≡ raised e
      → ⊥
  not_both same (a, answered) failed = cc

  run_entries_answers :
      (k : ℤ) (entries : Entries) (now : Instant) (circuits : Circuits)
      → Holds k c entries
      → Owns k c entries
      → circuit_is_open now k circuits ≡ false
      → (a : A) × ((run_entries call entries now circuits).0 ≡ ok a)
  unfolding run_entries
  run_entries_answers k [] now circuits h o closed = elim h [ ]
  run_entries_answers k ((j, s) ∷ rest) now circuits h o closed =
      elim (Bool-cases (circuit_is_open now j circuits)) [
        | inl resting ↦
            rw (resting, run_entries)
              (run_entries_answers k rest now circuits
                (elim h [
                  | inl here ↦ absurd (open_at now circuits (ap (λ e. e.0) here) resting closed)
                  | inr more ↦ more
                ])
                o.1 closed)
        | inr free ↦
            rw (free, run_entries)
              (elim (Result-cases (call now s).0) [
                | inl (a, answered) ↦ (a, rw answered)
                | inr (e, failed) ↦
                    rw (failed, mannered now s e failed)
                      (elim (Bool-cases (same_key k j)) [
                        | inl same ↦ absurd (not_both (o.0 same) (works now) failed)
                        | inr other ↦
                            run_entries_answers k rest (call now s).1
                              (record_circuit_failure (call now s).1 j circuits)
                              (elim h [
                                | inl here ↦ absurd (not_self (ap (λ e. e.0) here) other)
                                | inr more ↦ more
                              ])
                              o.1
                              (later_closed now (call now s).1 (call now s).1 k j circuits
                                (forward now s) other closed)
                      ])
              ])
      ]

  -- The pool gives an answer, wherever it starts, if one of its keys is not resting and the calls of
  -- that key's service succeed; the other keys may fail, as long as they fail as a service does.
  pub run_answers :
      (k : ℤ) (entries : Entries) (start : ℕ) (now : Instant) (circuits : Circuits)
      → Holds k c entries
      → Owns k c entries
      → circuit_is_open now k circuits ≡ false
      → (a : A) × ((run call (pooled entries) start now circuits).0 ≡ ok a)
  unfolding run ordered_entries
  run_answers k entries start now circuits h o closed =
      run_entries_answers k (ordered_entries start entries) now circuits
        (Holds-turn k c start entries h)
        (All-turn (λ e. same_key k e.0 ≡ true → e.1 ≡ c) start entries o) closed
