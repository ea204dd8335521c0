-- ===== src/Base/Texts.antt =====
-- Equality of texts.
use Prim.Native.String.{String}
use Prim.Native.String.{compare}
use Prim.Native.Nat.{Ordering}
use mathlib.Core.Bool.{Bool, true}
use mathlib.Core.Path.{◌≡◌, refl}
use native.Mathlib.Omega.{arith}
use text.Mathlib.Text.{◌==◌, is_eq}
use text.Mathlib.TextEquality.{path_by_compare}

abbrev pub same_text : String → String → Bool
same_text s t = s == t

is_eq-eq : (o : Ordering) → is_eq o ≡ true → o ≡ Ordering.eq
is_eq-eq Ordering.lt h = ground (arith, h)
is_eq-eq Ordering.eq h = refl
is_eq-eq Ordering.gt h = ground (arith, h)

pub same_text_path : (s t : String) → same_text s t ≡ true → s ≡ t
same_text_path s t h = path_by_compare s t (is_eq-eq (compare s t) h)
