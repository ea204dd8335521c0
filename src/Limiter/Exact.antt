-- ===== src/Limiter/Exact.antt =====
-- The limiter of app/services/rate_limiter.py against a count of the messages in its window.
use kasb_o_kar_hoshmand.Base.{
  ℕ, ◌+◌, ◌≤◌, ◌≡◌, refl, subst, ap, sym, inl, inr, ◌∙◌, Bool, true, false, ◌&&◌, List, [], ◌∷◌,
  ◌++◌, arith, leb, ltb, ◌==◌, if◌then◌else◌, length, Bool-cases, All, All-append, IsSortedOn,
}
use kasb_o_kar_hoshmand.Base.Time.{Instant, seconds}
use kasb_o_kar_hoshmand.Limiter.Window.{Windows, drop_old, check_and_record}

-- how many of the instants are not more than `span` before `t`
abbrev pub count_within : ℕ → Instant → List Instant → ℕ
count_within span t [] = 0
count_within span t (g ∷ gs) = (if ltb (g + span) t then 0 else 1) + count_within span t gs

count_within-append :
    (span : ℕ) (t : Instant) (gs : List Instant) (g : Instant)
    → count_within span t (gs ++ g ∷ [])
      ≡ count_within span t gs + (if ltb (g + span) t then 0 else 1)
count_within-append span t [] g = ground arith
count_within-append span t (x ∷ gs) g = ground (arith, count_within-append span t gs g)

-- what is dropped is too old from then on
drop_old-count :
    (span : ℕ) (now t : Instant) (gs : List Instant)
    → now ≤ t
    → count_within span t (drop_old now span gs) ≡ count_within span t gs
unfolding drop_old
drop_old-count span now t [] h = refl
drop_old-count span now t (g ∷ gs) h = ground (arith, drop_old-count span now t gs h)

-- ascending, and not after `last`
abbrev IsOrdered : Instant → List Instant → Type 0
IsOrdered last gs = IsSortedOn (λ g. g) gs × All (λ g. g ≤ last) gs

drop_old-IsOrdered :
    (span : ℕ) (now last : Instant) (gs : List Instant)
    → IsOrdered last gs
    → IsOrdered last (drop_old now span gs)
unfolding drop_old
drop_old-IsOrdered span now last [] h = h
drop_old-IsOrdered span now last (g ∷ gs) h = elim (Bool-cases (ltb (g + span) now)) [
  | inl old ↦ rw old (drop_old-IsOrdered span now last gs (h.0.1, h.1.1))
  | inr young ↦ rw young h
]

-- from a first instant that is within the span, all are
All-within :
    (span : ℕ) (now g : Instant) (gs : List Instant)
    → ltb (g + span) now ≡ false
    → All (λ x. g ≤ x) gs
    → count_within span now gs ≡ length gs
All-within span now g [] young h = refl
All-within span now g (x ∷ gs) young h = ground (arith, All-within span now g gs young h.1)

drop_old-length :
    (span : ℕ) (now last : Instant) (gs : List Instant)
    → IsOrdered last gs
    → length (drop_old now span gs) ≡ count_within span now gs
unfolding drop_old
drop_old-length span now last [] h = refl
drop_old-length span now last (g ∷ gs) h = elim (Bool-cases (ltb (g + span) now)) [
  | inl old ↦ ground (arith, old, drop_old-length span now last gs (h.0.1, h.1.1))
  | inr young ↦ ground (arith, young, All-within span now g gs young h.0.0)
]

append-IsOrdered :
    (last now : Instant) (gs : List Instant)
    → last ≤ now
    → IsOrdered last gs
    → IsOrdered now (gs ++ now ∷ [])
append-IsOrdered last now [] h k = ground arith
append-IsOrdered last now (g ∷ gs) h k =
    let rest = append-IsOrdered last now gs h (k.0.1, k.1.1) in
    ((All-append (λ x. g ≤ x) gs (now ∷ []) k.0.0 (ground arith), rest.0), (ground arith, rest.1))

IsOrdered-later :
    (last now : Instant) (gs : List Instant) → last ≤ now → IsOrdered last gs → IsOrdered now gs
IsOrdered-later last now [] h k = k
IsOrdered-later last now (g ∷ gs) h k =
    let rest = IsOrdered-later last now gs h (k.0.1, k.1.1) in
    ((k.0.0, rest.0), (ground arith, rest.1))

-- Runs of the limiter, as one key sees them: `granted` are the instants of the calls for `shop` and
-- `customer` that were let through, and `last` that of the last call. Calls for other keys come
-- between them. The clock is monotonic, and the limits of the key stay the same.
module _ (shop customer max_messages window_seconds : ℕ) where
  pub data LimiterReach : List Instant → Instant → Windows → Type 0 where
    empty : LimiterReach [] 0 (λ s c. [])
    own :
        {granted : List Instant} {last : Instant} {windows windows' : Windows} (now : Instant)
        (done : Bool)
        → LimiterReach granted last windows
        → last ≤ now
        → check_and_record now shop customer max_messages window_seconds windows ≡ (done, windows')
        → LimiterReach (if done then granted ++ now ∷ [] else granted) now windows'
    other :
        {granted : List Instant} {last : Instant} {windows : Windows} (now : Instant)
        (s c limit span : ℕ)
        → LimiterReach granted last windows
        → (s == shop && c == customer) ≡ false
        → LimiterReach granted last (check_and_record now s c limit span windows).1

  -- What the window of the key knows of the calls that were let through.
  abbrev Tells : List Instant → Instant → List Instant → Type 0
  Tells granted last window =
      IsOrdered last window
      × ((t : Instant)
          → last ≤ t
          → count_within (seconds window_seconds) t window
            ≡ count_within (seconds window_seconds) t granted)

  own_window :
      (now : Instant) (windows : Windows)
      → (check_and_record now shop customer max_messages window_seconds windows).1 shop customer ≡ (
          let window = drop_old now (seconds window_seconds) (windows shop customer) in
          if leb max_messages (length window) then window else window ++ now ∷ [])
  unfolding check_and_record
  own_window now windows = ground arith

  own_done :
      (now : Instant) (windows : Windows)
      → (check_and_record now shop customer max_messages window_seconds windows).0
        ≡ ltb (length (drop_old now (seconds window_seconds) (windows shop customer))) max_messages
  unfolding check_and_record
  own_done now windows = ground arith

  other_window :
      (now : Instant) (s c limit span : ℕ) (windows : Windows)
      → (s == shop && c == customer) ≡ false
      → (check_and_record now s c limit span windows).1 shop customer ≡ windows shop customer
  unfolding check_and_record
  other_window now s c limit span windows h = ground arith

  own-Tells :
      (granted : List Instant) (last now : Instant) (windows : Windows)
      → last ≤ now
      → Tells granted last (windows shop customer)
      → let (done, windows') =
          check_and_record now shop customer max_messages window_seconds windows in
        Tells (if done then granted ++ now ∷ [] else granted) now (windows' shop customer)
  own-Tells granted last now windows h (ordered, told) =
      let span = seconds window_seconds in
      let window = drop_old now span (windows shop customer) in
      let kept = drop_old-IsOrdered span now last (windows shop customer) ordered in
      rw (own_done now windows, own_window now windows)
        (elim (Bool-cases (leb max_messages (length window))) [
          | inl full ↦
              let shut : ltb (length window) max_messages ≡ false = ground arith in
              rw (full, shut)
                (
                  IsOrdered-later last now window h kept,
                  λ t later.
                      drop_old-count span now t (windows shop customer) later
                      ∙ told t (omega arith),
                )
          | inr room ↦
              let free : ltb (length window) max_messages ≡ true = ground arith in
              rw (room, free)
                (
                  append-IsOrdered last now window h kept,
                  λ t later. omega (
                    arith,
                    count_within-append span t window now,
                    count_within-append span t granted now,
                    drop_old-count span now t (windows shop customer) later,
                    told t (omega arith),
                  ),
                )
        ])

  pub LimiterReach-Tells :
      {granted : List Instant} {last : Instant} {windows : Windows}
      → LimiterReach granted last windows
      → Tells granted last (windows shop customer)
  LimiterReach-Tells empty = ((tt, tt), λ t h. refl)
  LimiterReach-Tells (own {granted} {last} {windows} {windows'} now done r h e) =
      subst (λ x. Tells (if x.0 then granted ++ now ∷ [] else granted) now (x.1 shop customer)) e
        (own-Tells granted last now windows h (LimiterReach-Tells r))
  LimiterReach-Tells (other {granted} {last} {windows} now s c limit span r apart) =
      subst (Tells granted last) (sym (other_window now s c limit span windows apart))
        (LimiterReach-Tells r)

  -- However the calls went before, a call for the key is let through exactly if fewer than the
  -- limit of its calls were let through within the window before it.
  pub check_and_record_exact :
      {granted : List Instant} {last : Instant} {windows : Windows} (now : Instant)
      → LimiterReach granted last windows
      → last ≤ now
      → (check_and_record now shop customer max_messages window_seconds windows).0
        ≡ ltb (count_within (seconds window_seconds) now granted) max_messages
  check_and_record_exact {granted} {last} {windows} now r h =
      let (ordered, told) = LimiterReach-Tells r in
      own_done now windows
      ∙ ap (λ n. ltb n max_messages)
          (drop_old-length (seconds window_seconds) now last (windows shop customer) ordered
            ∙ told now h)

  count_within_later :
      (span : ℕ) (t t' : Instant) (gs : List Instant)
      → t ≤ t'
      → count_within span t' gs ≤ count_within span t gs
  count_within_later span t t' [] h = omega arith
  count_within_later span t t' (g ∷ gs) h = ground (arith, count_within_later span t t' gs h)

  -- At no time more than the limit of the calls for the key have been let through within the window.
  pub LimiterReach-bounded :
      {granted : List Instant} {last : Instant} {windows : Windows} (t : Instant)
      → LimiterReach granted last windows
      → last ≤ t
      → count_within (seconds window_seconds) t granted ≤ max_messages
  LimiterReach-bounded t empty h = omega arith
  LimiterReach-bounded t (own {granted} {last} {windows} {windows'} now done r early e) h = ground (
    arith,
    check_and_record_exact now r early,
    e,
    count_within-append (seconds window_seconds) t granted now,
    count_within_later (seconds window_seconds) now t granted h,
    LimiterReach-bounded t r (omega arith),
  )
  LimiterReach-bounded t (other {granted} {last} {windows} now s c limit span r apart) h =
      LimiterReach-bounded t r h
