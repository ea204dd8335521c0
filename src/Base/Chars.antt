-- ===== src/Base/Chars.antt =====
-- Texts as lists of code points, where the code reads them character by character, and the tables
-- of Unicode that Python's `str` and `re` consult.
use Prim.Native.Nat.{ℕ, ◌+◌, ◌*◌, ◌<◌}
use Prim.Native.Char.{code}
use Prim.Native.String.{String}
use mathlib.Core.Path.{◌≡◌, refl, ◌∙◌, ap}
use mathlib.Core.Logic.{inl, inr}
use mathlib.Core.Bool.{Bool, true, false, ◌&&◌}
use mathlib.Core.List.{List, [], ◌∷◌, ◌++◌, reverse, reverse-cons, reverse-reverse, append-nil}
use mathlib.Core.Option.{Option, none, some}
use native.Mathlib.Omega.{arith}
use kasb_o_kar_hoshmand.Base.Tests.{if◌then◌else◌, ◌==◌, Bool-cases}
use kasb_o_kar_hoshmand.Base.Lists.{All, All-append, where_rows}

abbrev pub Text : Type 0
Text = List ℕ

-- the code points of a literal
abbrev pub codes : String → Text
codes String.[] = []
codes (String.◌∷◌ c s) = code c ∷ codes s

-- The character database: `is_digit` is `str.isdigit` of one character, which superscripts pass
-- too; `decimal` gives the value of a character of category Nd, which are the ones that `\d` matches
-- and that `int` accepts; `is_space` is `str.isspace` and `\s`.
pub record Unicode : Type 0 where
  pub is_digit : ℕ → Bool
  pub decimal : ℕ → Option ℕ
  pub is_space : ℕ → Bool
  pub ascii_decimal : (d : ℕ) → d < 10 → decimal (48 + d) ≡ some d
  pub ascii_separators : (is_digit 44 ≡ false) × (decimal 44 ≡ none) × (is_space 44 ≡ false)
  pub ascii_plus : (is_digit 43 ≡ false) × (decimal 43 ≡ none) × (is_space 43 ≡ false)
  pub decimal_is_digit : (c d : ℕ) → decimal c ≡ some d → is_digit c ≡ true
  pub decimal_not_space : (c d : ℕ) → decimal c ≡ some d → is_space c ≡ false

abbrev pub drop_while : (ℕ → Bool) → Text → Text
drop_while p [] = []
drop_while p (c ∷ cs) = let rest = drop_while p cs in if p c then rest else c ∷ cs

abbrev pub all_chars : (ℕ → Bool) → Text → Bool
all_chars p [] = true
all_chars p (c ∷ cs) = p c && all_chars p cs

-- `text.startswith(prefix)`, with what follows the prefix
abbrev pub after_prefix : Text → Text → Option Text
after_prefix [] t = some t
after_prefix (p ∷ ps) [] = none
after_prefix (p ∷ ps) (c ∷ cs) = let rest = after_prefix ps cs in if c == p then rest else none

-- `int(text)`, for a text with no sign; `none` is the ValueError
abbrev pub int_from : Unicode → ℕ → Text → Option ℕ
int_from u acc [] = some acc
int_from u acc (c ∷ cs) = elim (u.decimal c) [ none ↦ none | some d ↦ int_from u (acc * 10 + d) cs ]

-- `text.strip()`
abbrev pub strip : Unicode → Text → Text
strip u t = reverse (drop_while u.is_space (reverse (drop_while u.is_space t)))

pub All-reverse {ℓ} : (P : ℕ → Type ℓ) (t : Text) → All P t → All P (reverse t)
All-reverse P [] h = tt
All-reverse P (c ∷ cs) h =
    rw (reverse-cons c cs) (All-append P (reverse cs) (c ∷ []) (All-reverse P cs h.1) (h.0, tt))

pub where_rows-append :
    (p : ℕ → Bool) (s t : Text) → where_rows p (s ++ t) ≡ where_rows p s ++ where_rows p t
where_rows-append p [] t = refl
where_rows-append p (c ∷ s) t = ground (arith, where_rows-append p s t)

pub where_rows-reverse :
    (p : ℕ → Bool) (t : Text) → where_rows p (reverse t) ≡ reverse (where_rows p t)
where_rows-reverse p [] = refl
where_rows-reverse p (c ∷ cs) =
    let last : where_rows p (reverse (c ∷ cs))
        ≡ reverse (where_rows p cs) ++ where_rows p (c ∷ []) =
      ap (where_rows p) (reverse-cons c cs)
      ∙ where_rows-append p (reverse cs) (c ∷ [])
      ∙ ap (λ r. r ++ where_rows p (c ∷ [])) (where_rows-reverse p cs) in
    elim (Bool-cases (p c)) [
      | inl kept ↦ ground (arith, last, kept, reverse-cons c (where_rows p cs))
      | inr dropped ↦ ground (arith, last, dropped, append-nil (reverse (where_rows p cs)))
    ]

drop_while_none : (p : ℕ → Bool) (t : Text) → All (λ c. p c ≡ false) t → drop_while p t ≡ t
drop_while_none p [] h = refl
drop_while_none p (c ∷ cs) h = rw h.0

-- A text with no white space is stripped to itself.
pub strip_none : (u : Unicode) (t : Text) → All (λ c. u.is_space c ≡ false) t → strip u t ≡ t
strip_none u t h =
    rw (drop_while_none u.is_space t h)
      (rw (drop_while_none u.is_space (reverse t) (All-reverse _ t h)) (reverse-reverse t))
