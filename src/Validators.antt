-- ===== src/Validators.antt =====
-- app/utils/validators.py: amounts, e-mail addresses and phone numbers that users type.
-- `int` refuses a text of more than 4300 digits, which no message of Telegram holds.
pub mod Prices
pub mod Phones
mod Examples
use mathlib.Core.List.{reverse}
use kasb_o_kar_hoshmand.Base.{
  ℕ, zero, suc, ◌+◌, ◌*◌, ◌/◌, ◌%◌, Bool, true, false, not, ◌&&◌, ◌||◌, Option, none, some, List,
  [], ◌∷◌, ◌++◌, leb, ◌==◌, if◌then◌else◌, is_some, length, where_rows,
}
use kasb_o_kar_hoshmand.Base.Int.{ℤ, pos, neg}
use kasb_o_kar_hoshmand.Base.Chars.{
  Text, codes, Unicode, drop_while, all_chars, after_prefix, int_from, strip,
}
use kasb_o_kar_hoshmand.Models.{Result, ok, raised, value_error, ◌>>=◌}

-- the decimal digits of a number, lowest first; `fuel` is above the number
unfoldable pub digits_from_low : ℕ → ℕ → Text
digits_from_low zero n = []
digits_from_low (suc fuel) n =
    let rest = digits_from_low fuel (n / 10) in (48 + n % 10) ∷ (if n / 10 == 0 then [] else rest)

-- `f"{n}"`
unfoldable pub printed : ℕ → Text
unfolding digits_from_low
printed n = reverse (digits_from_low (suc n) n)

-- a comma after every third digit from the low end
unfoldable pub commas_from_low : Text → Text
commas_from_low (a ∷ b ∷ c ∷ d ∷ rest) = a ∷ b ∷ c ∷ 44 ∷ commas_from_low (d ∷ rest)
commas_from_low t = t

-- `f"{amount:,}"`
unfoldable pub grouped : ℕ → Text
unfolding digits_from_low commas_from_low
grouped n = reverse (commas_from_low (digits_from_low (suc n) n))

-- the grouped number, a space, and the name of the currency
unfoldable pub format_toman : ℕ → Text
unfolding grouped
format_toman amount = grouped amount ++ (0x20 ∷ 0x62A ∷ 0x648 ∷ 0x645 ∷ 0x627 ∷ 0x646 ∷ [])

-- a dot with at least one character after it
abbrev pub dot_before_end : Text → Bool
dot_before_end [] = false
dot_before_end (c ∷ []) = false
dot_before_end (c ∷ d ∷ cs) = c == 46 || dot_before_end (d ∷ cs)

-- the characters that a separator of thousands or white space is
abbrev pub is_separator : Unicode → ℕ → Bool
is_separator u c = c == 44 || (c == 0x60C || u.is_space c)

-- `re.sub(r"[,\u060C\s]", "", text)`
abbrev pub clean : Unicode → Text → Text
clean u t = where_rows (λ c. not (is_separator u c)) t

-- `text.isdigit()`
abbrev pub is_digits : Unicode → Text → Bool
is_digits u [] = false
is_digits u (c ∷ cs) = all_chars u.is_digit (c ∷ cs)

-- `int(text)`
abbrev pub to_int : Unicode → Text → Result ℕ
to_int u t = elim (int_from u 0 t) [ none ↦ raised value_error | some n ↦ ok n ]

module _ (u : Unicode) where
  -- `[^@\s]`
  abbrev pub is_plain : ℕ → Bool
  is_plain c = not (c == 64) && not (u.is_space c)

  -- `[^@\s]*@` and what follows it
  abbrev pub after_at : Text → Option Text
  after_at [] = none
  after_at (c ∷ cs) =
      let more = after_at cs in if c == 64 then some cs else if is_plain c then more else none

  -- `[^@\s]+\.[^@\s]+$`
  abbrev pub is_domain : Text → Bool
  is_domain [] = false
  is_domain (c ∷ cs) = all_chars is_plain (c ∷ cs) && dot_before_end cs

  -- `[^@\s]+@` and then the domain; no character but `@` ends the first run
  abbrev pub is_address : Text → Bool
  is_address [] = false
  is_address (c ∷ cs) =
      is_plain c && elim (after_at cs) [ none ↦ false | some domain ↦ is_domain domain ]

  unfoldable pub is_valid_email : Text → Bool
  is_valid_email email = is_address (strip u email)

  -- `re.sub(r"\D", "", text)`
  abbrev pub decimals_of : Text → Text
  decimals_of t = where_rows (λ c. is_some (u.decimal c)) t

  -- the international prefix goes
  unfoldable pub without_prefix : Text → Text
  without_prefix t = elim (after_prefix (codes "0098") t) [
    | some rest ↦ rest
    | none ↦ elim (after_prefix (codes "98") t) [ some rest ↦ rest | none ↦ t ]
  ]

  -- ten digits from a 9 get their zero
  unfoldable pub with_zero : Text → Text
  with_zero t = if is_some (after_prefix (codes "9") t) && length t == 10 then codes "0" ++ t else t

  -- `^09\d{9}$`
  unfoldable pub is_mobile : Text → Bool
  is_mobile t = elim (after_prefix (codes "09") t) [
    | none ↦ false
    | some rest ↦ length rest == 9 && all_chars (λ c. is_some (u.decimal c)) rest
  ]

  unfoldable pub normalize_iran_phone : Text → Option Text
  unfolding without_prefix with_zero is_mobile
  normalize_iran_phone raw_phone =
      let digits = with_zero (without_prefix (decimals_of (strip u raw_phone))) in
      if is_mobile digits then some digits else none

  unfoldable pub parse_price_toman : Text → Result (Option ℕ)
  parse_price_toman raw_text =
      let cleaned = clean u (strip u raw_text) in
      if is_digits u cleaned
      then (do value ← to_int u cleaned; ok (if value == 0 then none else some value))
      else ok none

  -- the number after the sign
  unfoldable pub parse_amount : Bool → Text → Result (Option ℤ)
  parse_amount negative cleaned =
      if is_digits u cleaned
      then (do
        value ← to_int u cleaned
        ok (if value == 0 then none else some (if negative then neg value else pos value)))
      else ok none

  -- an optional sign, and the number
  unfoldable pub parse_signed : Text → Result (Option ℤ)
  parse_signed [] = ok none
  parse_signed (c ∷ cs) =
      if c == 43 || c == 45 then parse_amount (c == 45) cs else parse_amount false (c ∷ cs)

  unfoldable pub parse_signed_toman_amount : Text → Result (Option ℤ)
  unfolding parse_amount parse_signed
  parse_signed_toman_amount raw_text = parse_signed (clean u (strip u raw_text))
