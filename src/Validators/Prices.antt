-- ===== src/Validators/Prices.antt =====
-- A printed amount, read again by `parse_price_toman` of app/utils/validators.py.
use mathlib.Core.List.{reverse, reverse-cons}
use kasb_o_kar_hoshmand.Base.{
  ℕ, zero, suc, ◌+◌, ◌*◌, ◌/◌, ◌%◌, ◌<◌, ◌≡◌, refl, ap, ◌∙◌, inl, inr, true, false, not, some, [],
  ◌∷◌, ◌++◌, ◌==◌, arith, All, where_rows, Bool-cases, Option-cases,
}
use kasb_o_kar_hoshmand.Base.Chars.{
  Text, Unicode, all_chars, int_from, strip, All-reverse, where_rows-reverse, strip_none,
}
use kasb_o_kar_hoshmand.Models.{ok}
use kasb_o_kar_hoshmand.Validators.{
  digits_from_low, commas_from_low, grouped, is_separator, clean, is_digits, parse_price_toman,
}

abbrev IsAsciiDigit : ℕ → Type 0
IsAsciiDigit c = (d : ℕ) × ((d < 10) × (c ≡ 48 + d))

digits_from_low-IsAsciiDigit : (f n : ℕ) → All IsAsciiDigit (digits_from_low f n)
unfolding digits_from_low
digits_from_low-IsAsciiDigit zero n = tt
digits_from_low-IsAsciiDigit (suc f) n = elim (Bool-cases (n / 10 == 0)) [
  | inl last ↦ rw last ((n % 10, (omega arith, refl)), tt)
  | inr more ↦ rw more ((n % 10, (omega arith, refl)), digits_from_low-IsAsciiDigit f (n / 10))
]

int_from-snoc :
    (u : Unicode) (acc c d : ℕ) (t : Text) {v : ℕ}
    → int_from u acc t ≡ some v
    → u.decimal c ≡ some d
    → int_from u acc (t ++ c ∷ []) ≡ some (v * 10 + d)
int_from-snoc u acc c d [] {v} e h = ground (arith, h)
int_from-snoc u acc c d (x ∷ xs) {v} e h = elim (Option-cases (u.decimal x)) [
  | inl bad ↦ absurd (ground (arith, bad))
  | inr (k, good) ↦ ground (arith, good, int_from-snoc u (acc * 10 + k) c d xs {v = v})
]

module _ (u : Unicode) where
  -- The digits of a number stand for it.
  int_from-digits : (f n : ℕ) → n < f → int_from u 0 (reverse (digits_from_low f n)) ≡ some n
  unfolding digits_from_low
  int_from-digits zero n h = absurd (omega arith)
  int_from-digits (suc f) n h = elim (Bool-cases (n / 10 == 0)) [
    | inl last ↦ rw last (ground (arith, u.ascii_decimal (n % 10)))
    | inr more ↦ rw more (
        rw (reverse-cons (48 + n % 10) (digits_from_low f (n / 10))) (
          int_from-snoc u 0 (48 + n % 10) (n % 10) (reverse (digits_from_low f (n / 10)))
            (int_from-digits f (n / 10) (ground arith)) (u.ascii_decimal (n % 10) (omega arith))
          ∙ ap some (omega arith)))
  ]

  is_separator-digit : (c : ℕ) → IsAsciiDigit c → is_separator u c ≡ false
  is_separator-digit c (d, (small, e)) = ground (arith, u.ascii_decimal d, u.decimal_not_space c d)

  is_space-digit : (c : ℕ) → IsAsciiDigit c → u.is_space c ≡ false
  is_space-digit c (d, (small, e)) = ground (arith, u.ascii_decimal d, u.decimal_not_space c d)

  commas-NotSpace :
      (t : Text) → All IsAsciiDigit t → All (λ c. u.is_space c ≡ false) (commas_from_low t)
  unfolding commas_from_low
  commas-NotSpace [] h = tt
  commas-NotSpace (a ∷ []) h = (is_space-digit a h.0, tt)
  commas-NotSpace (a ∷ b ∷ []) h = (is_space-digit a h.0, (is_space-digit b h.1.0, tt))
  commas-NotSpace (a ∷ b ∷ c ∷ []) h =
      (is_space-digit a h.0, (is_space-digit b h.1.0, (is_space-digit c h.1.1.0, tt)))
  commas-NotSpace (a ∷ b ∷ c ∷ d ∷ t) h = (
    is_space-digit a h.0,
    (
      is_space-digit b h.1.0,
      (is_space-digit c h.1.1.0, (u.ascii_separators.2, commas-NotSpace (d ∷ t) h.1.1.1)),
    ),
  )

  -- Without its separators the text is the digits again.
  commas-clean :
      (t : Text)
      → All IsAsciiDigit t
      → where_rows (λ c. not (is_separator u c)) (commas_from_low t) ≡ t
  unfolding commas_from_low
  commas-clean [] h = refl
  commas-clean (a ∷ []) h = ground (arith, is_separator-digit a h.0)
  commas-clean (a ∷ b ∷ []) h = ground (arith, is_separator-digit a h.0, is_separator-digit b h.1.0)
  commas-clean (a ∷ b ∷ c ∷ []) h =
      ground
        (arith, is_separator-digit a h.0, is_separator-digit b h.1.0, is_separator-digit c h.1.1.0)
  commas-clean (a ∷ b ∷ c ∷ d ∷ t) h = ground (
    arith,
    is_separator-digit a h.0,
    is_separator-digit b h.1.0,
    is_separator-digit c h.1.1.0,
    commas-clean (d ∷ t) h.1.1.1,
  )

  All-digits : (t : Text) → All IsAsciiDigit t → all_chars u.is_digit t ≡ true
  All-digits [] h = refl
  All-digits (c ∷ cs) ((d, (small, e)), h) =
      ground (arith, u.ascii_decimal d, u.decimal_is_digit c d, All-digits cs h)

  is_digits-snoc :
      (t : Text) (c : ℕ)
      → all_chars u.is_digit (t ++ c ∷ []) ≡ true
      → is_digits u (t ++ c ∷ []) ≡ true
  is_digits-snoc [] c h = h
  is_digits-snoc (x ∷ xs) c h = h

  is_digits-reverse :
      (c : ℕ) (t : Text) → All IsAsciiDigit (c ∷ t) → is_digits u (reverse (c ∷ t)) ≡ true
  is_digits-reverse c t h =
      let digits = All-digits (reverse (c ∷ t)) (All-reverse IsAsciiDigit (c ∷ t) h) in
      rw (reverse-cons c t) (is_digits-snoc (reverse t) c (rw (reverse-cons c t) at digits))

  printed_digits : (n : ℕ) → is_digits u (reverse (digits_from_low (suc n) n)) ≡ true
  unfolding digits_from_low
  printed_digits n = is_digits-reverse (48 + n % 10) _ (digits_from_low-IsAsciiDigit (suc n) n)

  clean-grouped : (n : ℕ) → clean u (strip u (grouped n)) ≡ reverse (digits_from_low (suc n) n)
  unfolding grouped
  clean-grouped n =
      let low = digits_from_low (suc n) n in
      let ascii = digits_from_low-IsAsciiDigit (suc n) n in
      rw
        (strip_none u (reverse (commas_from_low low))
          (All-reverse _ (commas_from_low low) (commas-NotSpace low ascii)))
        (where_rows-reverse _ (commas_from_low low) ∙ ap reverse (commas-clean low ascii))

  -- An amount above zero, printed in groups of three digits, is read back as that amount.
  pub parse_price_toman-grouped : (n : ℕ) → 0 < n → parse_price_toman u (grouped n) ≡ ok (some n)
  unfolding parse_price_toman
  parse_price_toman-grouped n h =
      rw (clean-grouped n)
        (ground (arith, int_from-digits (suc n) n (omega arith), printed_digits n))
