-- ===== src/Answer/Buffered.antt =====
-- The buffers of app/bots/shop_bot/handlers/customer.py over a history of messages and wakings.
use kasb_o_kar_hoshmand.Base.{
  ℕ, ◌+◌, ◌≤◌, max, ◌≡◌, refl, inl, inr, String, Bool, true, false, ◌&&◌, Option, none, some, List,
  [], ◌∷◌, ◌++◌, leb, ◌==◌, if◌then◌else◌, arith, Bool-cases,
}
use mathlib.Core.List.{append_assoc, append-nil}
use kasb_o_kar_hoshmand.Base.Time.{Instant, seconds}
use kasb_o_kar_hoshmand.Answer.Debounce.{
  Pending, delay_after, schedule_debounced_processing, take_buffer,
}

-- A message of a customer of a shop bot, or the clock at an instant, for the task of a key.
pub data Event : Type 0 where
  message : Instant → ℕ → ℕ → String → Event
  clock : Instant → ℕ → ℕ → Event

abbrev pub nothing_pending : Pending
nothing_pending = record { buffers = λ s c. []; started_at = λ s c. none; tasks = λ s c. none }

-- whether the task of a key wakes
abbrev pub is_due : Instant → Option Instant → Bool
is_due now none = false
is_due now (some t) = leb t now

-- what a waking hands over: nothing, if the task waits longer
unfoldable pub wake : Instant → ℕ → ℕ → Pending → List String × Pending
unfolding take_buffer
wake now shop customer p =
    if is_due now (p.tasks shop customer) then take_buffer shop customer p else ([], p)

-- the buffers after a history, its latest event first
unfoldable pub after : List Event → Pending
after [] = nothing_pending
after (message now shop customer text ∷ older) =
    schedule_debounced_processing now shop customer text (after older)
after (clock now shop customer ∷ older) = (wake now shop customer (after older)).1

-- What was handed over of a key's messages, in order.
unfoldable pub handed : ℕ → ℕ → List Event → List String
handed s c [] = []
handed s c (message now shop customer text ∷ older) = handed s c older
handed s c (clock now shop customer ∷ older) =
    let before = handed s c older in
    if s == shop && c == customer
    then before ++ (wake now shop customer (after older)).0
    else before

-- The messages of a key, in the order in which they came.
abbrev pub sent : ℕ → ℕ → List Event → List String
sent s c [] = []
sent s c (message now shop customer text ∷ older) =
    let before = sent s c older in
    if s == shop && c == customer then before ++ text ∷ [] else before
sent s c (clock now shop customer ∷ older) = sent s c older

schedule-buffers :
    (s c : ℕ) (now : Instant) (text : String) (p : Pending)
    → (schedule_debounced_processing now s c text p).buffers s c ≡ p.buffers s c ++ text ∷ []
unfolding schedule_debounced_processing
schedule-buffers s c now text p = ground arith

schedule-buffers_other :
    (s c shop customer : ℕ) (now : Instant) (text : String) (p : Pending)
    → (s == shop && c == customer) ≡ false
    → (schedule_debounced_processing now shop customer text p).buffers s c ≡ p.buffers s c
unfolding schedule_debounced_processing
schedule-buffers_other s c shop customer now text p other = rw other

wake-buffers :
    (s c : ℕ) (now : Instant) (p : Pending)
    → (wake now s c p).0 ++ (wake now s c p).1.buffers s c ≡ p.buffers s c
unfolding wake
wake-buffers s c now p = elim (Bool-cases (is_due now (p.tasks s c))) [
  | inl due ↦ ground (arith, due, append-nil (p.buffers s c))
  | inr early ↦ ground (arith, early)
]

wake-buffers_other :
    (s c shop customer : ℕ) (now : Instant) (p : Pending)
    → (s == shop && c == customer) ≡ false
    → (wake now shop customer p).1.buffers s c ≡ p.buffers s c
unfolding wake
wake-buffers_other s c shop customer now p other =
    elim (Bool-cases (is_due now (p.tasks shop customer))) [
      | inl due ↦ rw (due, other)
      | inr early ↦ rw early
    ]

same_key :
    (s c shop customer : ℕ) → (s == shop && c == customer) ≡ true → (shop ≡ s) × (customer ≡ c)
same_key s c shop customer same = ground arith

-- No message is lost, repeated or moved: what was handed over of a customer's messages, with what is
-- still gathered, is what the customer sent, in order.
pub handed-sent :
    (s c : ℕ) (es : List Event) → handed s c es ++ (after es).buffers s c ≡ sent s c es
unfolding handed after
handed-sent s c [] = refl
handed-sent s c (message now shop customer text ∷ older) =
    elim (Bool-cases (s == shop && c == customer)) [
      | inl same ↦
          let (at_shop, at_customer) = same_key s c shop customer same in
          rw (at_shop, at_customer)
            (ground (
              arith,
              schedule-buffers s c now text (after older),
              append_assoc (handed s c older) ((after older).buffers s c) (text ∷ []),
              handed-sent s c older,
            ))
      | inr other ↦
          rw (other, schedule-buffers_other s c shop customer now text (after older) other)
            (handed-sent s c older)
    ]
handed-sent s c (clock now shop customer ∷ older) = elim (Bool-cases (s == shop && c == customer)) [
  | inl same ↦
      let (at_shop, at_customer) = same_key s c shop customer same in
      rw (at_shop, at_customer)
        (ground (
          arith,
          wake-buffers s c now (after older),
          append_assoc (handed s c older) (wake now s c (after older)).0
              ((wake now s c (after older)).1.buffers s c),
          handed-sent s c older,
        ))
  | inr other ↦
      rw (other, wake-buffers_other s c shop customer now (after older) other)
        (handed-sent s c older)
]

-- A message waits at least 0.3 and at most 3 seconds for the next one, and no task waits past ten
-- seconds from the first message of its batch, unless a message comes in the last 0.3 of them or later.
pub delay_after_bounds :
    (started now : Instant)
    → started ≤ now
    → (now + 300_000 ≤ now + delay_after started now)
      × (now + delay_after started now ≤ now + seconds 3)
      × (now + delay_after started now ≤ max (started + seconds 10) (now + 300_000))
unfolding delay_after
delay_after_bounds started now h = omega arith
