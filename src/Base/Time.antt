-- ===== src/Base/Time.antt =====
-- Instants and lengths of time, as whole microseconds: the resolution of Python's `datetime`, of
-- `timedelta` and of the database's timestamps. An instant counts from `datetime.min`.
use Prim.Native.Nat.{ℕ, ◌*◌, ◌/◌}

abbrev pub Instant : Type 0
Instant = ℕ

abbrev pub seconds : ℕ → ℕ
seconds n = n * 1_000_000

abbrev pub minutes : ℕ → ℕ
minutes n = n * 60_000_000

abbrev pub hours : ℕ → ℕ
hours n = n * 3_600_000_000

abbrev pub days : ℕ → ℕ
days n = n * 86_400_000_000

-- `delta.days` of a length that is not negative
abbrev pub whole_days : ℕ → ℕ
whole_days d = d / 86_400_000_000
