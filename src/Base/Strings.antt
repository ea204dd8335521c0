-- ===== src/Base/Strings.antt =====
-- Python's operations on texts, character by character, for results that are texts again.
use Prim.Native.Nat.{ℕ, zero, suc}
use Prim.Native.Char.{code}
use Prim.Native.String.{String}
use mathlib.Core.Bool.{Bool, not}
use mathlib.Core.Option.{Option, none, some}
use kasb_o_kar_hoshmand.Base.Tests.{if◌then◌else◌, ◌==◌}
use kasb_o_kar_hoshmand.Base.Texts.{same_text}
use kasb_o_kar_hoshmand.Base.Chars.{Unicode}

abbrev pub drop_chars : (ℕ → Bool) → String → String
drop_chars p String.[] = ""
drop_chars p (String.◌∷◌ c s) =
    let rest = drop_chars p s in if p (code c) then rest else String.◌∷◌ c s

abbrev pub reverse_onto : String → String → String
reverse_onto String.[] out = out
reverse_onto (String.◌∷◌ c s) out = reverse_onto s (String.◌∷◌ c out)

-- the characters of a class, taken off both ends
abbrev pub strip_both : (ℕ → Bool) → String → String
strip_both p s = reverse_onto (drop_chars p (reverse_onto (drop_chars p s) "")) ""

-- `text.strip()`
abbrev pub stripped : Unicode → String → String
stripped u s = strip_both u.is_space s

-- `text[:n]`
abbrev pub first_chars : ℕ → String → String
first_chars zero s = ""
first_chars (suc n) String.[] = ""
first_chars (suc n) (String.◌∷◌ c s) = String.◌∷◌ c (first_chars n s)

-- `text.startswith(start)`, with what follows the start
abbrev pub without_prefix : String → String → Option String
without_prefix String.[] s = some s
without_prefix (String.◌∷◌ p ps) String.[] = none
without_prefix (String.◌∷◌ p ps) (String.◌∷◌ c s) =
    let rest = without_prefix ps s in if code c == code p then rest else none

-- `text.removeprefix(start)`
abbrev pub remove_prefix : String → String → String
remove_prefix start s = elim (without_prefix start s) [ none ↦ s | some rest ↦ rest ]

-- the search for `\{.*\}` with DOTALL: from the first `{` to the last `}`
abbrev pub braced : String → Option String
braced s =
    let from_end =
      drop_chars (λ c. not (c == 125)) (reverse_onto (drop_chars (λ c. not (c == 123)) s) "") in
    if same_text from_end "" then none else some (reverse_onto from_end "")
