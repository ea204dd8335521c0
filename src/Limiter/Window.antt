-- ===== src/Limiter/Window.antt =====
-- `InMemoryRateLimiter.check_and_record` of app/services/rate_limiter.py.
use kasb_o_kar_hoshmand.Base.{
  ℕ, ◌+◌, Bool, true, false, ◌&&◌, List, [], ◌∷◌, ◌++◌, leb, ltb, ◌==◌, if◌then◌else◌, length,
}
use kasb_o_kar_hoshmand.Base.Time.{Instant, seconds}

-- `_windows`: the instants recorded for a shop bot and a customer, oldest first
abbrev pub Windows : Type 0
Windows = ℕ → ℕ → List Instant

-- `while window and now - window[0] > window_seconds: window.popleft()`
unfoldable pub drop_old : Instant → ℕ → List Instant → List Instant
drop_old now span [] = []
drop_old now span (t ∷ ts) =
    let rest = drop_old now span ts in if ltb (t + span) now then rest else t ∷ ts

-- the windows with the one of a key replaced
abbrev pub with_window : ℕ → ℕ → List Instant → Windows → Windows
with_window shop customer window windows s c =
    if s == shop && c == customer then window else windows s c

unfoldable pub check_and_record : Instant → ℕ → ℕ → ℕ → ℕ → Windows → Bool × Windows
check_and_record now shop customer max_messages window_seconds windows =
    let window = drop_old now (seconds window_seconds) (windows shop customer) in
    if leb max_messages (length window)
    then (false, with_window shop customer window windows)
    else (true, with_window shop customer (window ++ now ∷ []) windows)
