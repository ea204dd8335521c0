-- ===== src/Answer/Debounce.antt =====
-- `_schedule_debounced_processing` and `_wait_then_process` of
-- app/bots/shop_bot/handlers/customer.py: the messages of a customer that come one after the other
-- are gathered, and answered together when the customer pauses. The dictionaries are functions of the
-- shop bot and the customer, and a task is the instant at which it wakes.
use Prim.Native.String as Str
use kasb_o_kar_hoshmand.Base.{
  ℕ, ◌+◌, ◌-◌, min, max, String, Bool, ◌&&◌, Option, none, some, List, [], ◌∷◌, ◌++◌, ◌==◌,
  if◌then◌else◌,
}
use kasb_o_kar_hoshmand.Base.Time.{Instant, seconds}
use kasb_o_kar_hoshmand.Models.{ModerationRule, Db, Result, ok, raised}
use kasb_o_kar_hoshmand.Moderation.{Engine}
use kasb_o_kar_hoshmand.Chat.Prompt.{Sentences}
use kasb_o_kar_hoshmand.Ai.Circuit.{Circuits}
use kasb_o_kar_hoshmand.Answer.Turn.{Reply, Ask, generate_and_send_reply}

abbrev pub debounce : ℕ
debounce = seconds 3

abbrev pub max_buffer_wait : ℕ
max_buffer_wait = seconds 10

abbrev pub least_delay : ℕ
least_delay = 300_000

pub record Pending : Type 0 where
  pub buffers : ℕ → ℕ → List String
  pub started_at : ℕ → ℕ → Option Instant
  pub tasks : ℕ → ℕ → Option Instant

-- a dictionary with the value of one key replaced
abbrev pub put {ℓ} : {A : Type ℓ} → ℕ → ℕ → A → (ℕ → ℕ → A) → ℕ → ℕ → A
put shop customer a f s c = if s == shop && c == customer then a else f s c

abbrev pub or_now : Instant → Option Instant → Instant
or_now now none = now
or_now now (some t) = t

-- `min(DEBOUNCE_SECONDS, max(0.3, MAX_BUFFER_WAIT_SECONDS - elapsed))`; where more than the longest
-- wait has passed the difference is negative in the source and 0 here, and 0.3 is taken either way
unfoldable pub delay_after : Instant → Instant → ℕ
delay_after started now = min debounce (max least_delay (max_buffer_wait - (now - started)))

-- the task that waits for the key is cancelled, and another takes its place
unfoldable pub schedule_debounced_processing : Instant → ℕ → ℕ → String → Pending → Pending
unfolding delay_after
schedule_debounced_processing now shop customer text p =
    let started = or_now now (p.started_at shop customer) in
    record {
      buffers = put shop customer (p.buffers shop customer ++ text ∷ []) p.buffers;
      started_at = put shop customer (some started) p.started_at;
      tasks = put shop customer (some (now + delay_after started now)) p.tasks;
    }

-- what a task does first when it wakes
unfoldable pub take_buffer : ℕ → ℕ → Pending → List String × Pending
take_buffer shop customer p = (
  p.buffers shop customer,
  record {
    buffers = put shop customer [] p.buffers;
    started_at = put shop customer none p.started_at;
    tasks = put shop customer none p.tasks;
  },
)

-- `"\n".join(messages)`
abbrev pub join_lines : List String → String
join_lines [] = ""
join_lines (m ∷ []) = m
join_lines (m ∷ n ∷ ms) = Str.◌++◌ m (Str.◌++◌ "\n" (join_lines (n ∷ ms)))

-- `session_scope`: an exception rolls the session back, and is logged
abbrev pub committed : Db → Result (Reply × Db) → Db
committed db (ok (reply, db')) = db'
committed db (raised e) = db

module _ (say : Sentences) (ask : Ask) (answers : Bool) (engine : Engine)
    (details : ModerationRule → String) where
  -- the batch is answered in a session of its own
  unfoldable pub process_batch : Instant → ℕ → ℕ → ℕ → List String → Db → Circuits → Db × Circuits
  process_batch now start shop customer [] db circuits = (db, circuits)
  process_batch now start shop customer (m ∷ ms) db circuits =
      let outcome =
        generate_and_send_reply say ask answers engine details now start shop customer
          (join_lines (m ∷ ms)) db circuits in
      (committed db outcome.0, outcome.1)

  -- The task of a key, when its instant has come.
  unfoldable pub wait_then_process :
      Instant → ℕ → ℕ → ℕ → Pending → Db → Circuits → Pending × Db × Circuits
  unfolding take_buffer process_batch
  wait_then_process now start shop customer p db circuits =
      let (messages, p1) = take_buffer shop customer p in
      let (db1, circuits1) = process_batch now start shop customer messages db circuits in
      (p1, db1, circuits1)
