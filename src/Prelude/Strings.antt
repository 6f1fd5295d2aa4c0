-- ===== src/Prelude/Strings.antt =====
-- Python's `==` and `in` on strings, and texts as lists of code points.
use Prim.Native.Nat.{Ordering}
use Prim.Native.String.{String, compare}
use mathlib.Core.Bool.{Bool, true, false, ◌||◌}
use mathlib.Core.List.{List, [], ◌∷◌}
use text.Mathlib.Text.{◌==◌ as str_eq}
use text.Mathlib.TextEquality.{eq_iff}
pub use text.Mathlib.Text.{◌==◌ as str_eq}
pub use text.Mathlib.TextEquality.{eq_iff}

-- `s in names`
abbrev pub str_in : String → List String → Bool
str_in s [] = false
str_in s (n ∷ ns) = str_eq n s || str_in s ns

-- `s <= t` on strings: the order of the code points is that of the UTF-8 bytes.
abbrev pub string_le : String → String → Bool
string_le s t = elim (compare s t) [ Ordering.gt ↦ false | _ ↦ true ]
