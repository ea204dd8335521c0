-- ===== src/Validators/Phones.antt =====
-- The forms of a mobile number that `normalize_iran_phone` of app/utils/validators.py takes.
use kasb_o_kar_hoshmand.Base.{
  ℕ, ◌≡◌, ◌≢◌, refl, subst, sym, inl, inr, true, false, none, some, [], ◌∷◌, ◌++◌, arith, is_some,
  length, All, Option-cases,
}
use kasb_o_kar_hoshmand.Base.Chars.{Text, codes, Unicode, all_chars, strip, strip_none}
use kasb_o_kar_hoshmand.Validators.{decimals_of, with_zero, is_mobile, normalize_iran_phone}

-- Nine characters, each a decimal digit.
abbrev pub IsTail : Unicode → Text → Type 0
IsTail u t = (length t ≡ 9) × (all_chars (λ c. is_some (u.decimal c)) t ≡ true)

module _ (u : Unicode) where
  IsDecimal : ℕ → Type 0
  IsDecimal c = is_some (u.decimal c) ≡ true

  decimals-NotSpace :
      (t : Text)
      → all_chars (λ c. is_some (u.decimal c)) t ≡ true
      → All (λ c. u.is_space c ≡ false) t
  decimals-NotSpace [] h = tt
  decimals-NotSpace (c ∷ cs) h = elim (Option-cases (u.decimal c)) [
    | inl bad ↦ absurd (ground (arith, bad))
    | inr (d, good) ↦ (u.decimal_not_space c d good, decimals-NotSpace cs (ground (arith, good)))
  ]

  decimals_kept : (t : Text) → all_chars (λ c. is_some (u.decimal c)) t ≡ true → decimals_of u t ≡ t
  decimals_kept [] h = refl
  decimals_kept (c ∷ cs) h = ground (arith, decimals_kept cs)

  -- what is left of a text that starts with digits, or with a plus and digits
  decimals_of_digits :
      (t : Text) → all_chars (λ c. is_some (u.decimal c)) t ≡ true → decimals_of u (strip u t) ≡ t
  decimals_of_digits t h = rw (strip_none u t (decimals-NotSpace t h)) (decimals_kept t h)

  decimals_of_plus :
      (t : Text)
      → all_chars (λ c. is_some (u.decimal c)) t ≡ true
      → decimals_of u (strip u (43 ∷ t)) ≡ t
  decimals_of_plus t h =
      rw (strip_none u (43 ∷ t) (u.ascii_plus.2, decimals-NotSpace t h))
        (ground (arith, u.ascii_plus, decimals_kept t h))

  module _ (tail : Text) (h : IsTail u tail) where
    local_digits : all_chars (λ c. is_some (u.decimal c)) (codes "09" ++ tail) ≡ true
    local_digits = ground (arith, u.ascii_decimal 0, u.ascii_decimal 9)

    -- A mobile number is given back in its local form, 09 and nine digits, whether it is written
    -- so, with +98 or with 0098 in place of the 0.
    pub normalize_iran_phone_forms :
        (normalize_iran_phone u (codes "09" ++ tail) ≡ some (codes "09" ++ tail))
        × (normalize_iran_phone u (codes "+989" ++ tail) ≡ some (codes "09" ++ tail))
        × (normalize_iran_phone u (codes "00989" ++ tail) ≡ some (codes "09" ++ tail))
    unfolding normalize_iran_phone
    normalize_iran_phone_forms = (
      rw (decimals_of_digits (codes "09" ++ tail) local_digits) (ground arith),
      rw
          (decimals_of_plus (codes "989" ++ tail)
            (ground (arith, u.ascii_decimal 9, u.ascii_decimal 8)))
          (ground arith),
      rw
          (decimals_of_digits (codes "00989" ++ tail)
            (ground (arith, u.ascii_decimal 0, u.ascii_decimal 9, u.ascii_decimal 8)))
          (ground arith),
    )

  -- Without its zero a number is taken too, unless an 8 follows the 9.
  pub normalize_iran_phone_bare :
      (c : ℕ) (tail : Text)
      → IsTail u (c ∷ tail)
      → c ≢ 56
      → normalize_iran_phone u (codes "9" ++ c ∷ tail) ≡ some (codes "09" ++ c ∷ tail)
  unfolding normalize_iran_phone
  normalize_iran_phone_bare c tail h other =
      rw (decimals_of_digits (codes "9" ++ c ∷ tail) (ground (arith, u.ascii_decimal 9)))
        (ground arith)

  eight_short : (t : Text) → length t ≡ 8 → is_mobile u (with_zero u t) ≡ false
  unfolding is_mobile with_zero
  eight_short [] e = ground arith
  eight_short (c ∷ []) e = ground arith
  eight_short (c ∷ d ∷ cs) e = ground arith

  is_mobile-IsTail :
      (t : Text) → is_mobile u t ≡ true → (tail : Text) × ((t ≡ codes "09" ++ tail) × IsTail u tail)
  unfolding is_mobile
  is_mobile-IsTail [] e = absurd (ground arith)
  is_mobile-IsTail (c ∷ []) e = absurd (ground arith)
  is_mobile-IsTail (c ∷ d ∷ cs) e = (cs, (ground arith, (ground arith, ground arith)))

  -- With an 8 after the 9, the two are taken for the country's code, and the number is refused.
  pub normalize_iran_phone_taken :
      (tail : Text) → IsTail u (56 ∷ tail) → normalize_iran_phone u (codes "98" ++ tail) ≡ none
  unfolding normalize_iran_phone
  normalize_iran_phone_taken tail h =
      rw
        (decimals_of_digits (codes "98" ++ tail)
          (ground (arith, u.ascii_decimal 9, u.ascii_decimal 8)))
        (rw (eight_short tail (omega (arith, h.0))))

  -- What is given back is a mobile number, and is given back as it is when it is normalized again.
  pub normalize_iran_phone_again :
      (raw_phone : Text) {t : Text}
      → normalize_iran_phone u raw_phone ≡ some t
      → (is_mobile u t ≡ true) × (normalize_iran_phone u t ≡ some t)
  unfolding normalize_iran_phone
  normalize_iran_phone_again raw_phone {t} e =
      let mobile : is_mobile u t ≡ true = ground arith in
      let (tail, (same, nine)) = is_mobile-IsTail t mobile in
      (
        mobile,
        subst (λ s. normalize_iran_phone u s ≡ some s) {x = codes "09" ++ tail} (sym same)
            (normalize_iran_phone_forms tail nine).0,
      )
