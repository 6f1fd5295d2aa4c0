-- ===== src/Prelude/Sets.antt =====
-- Python's sets of strings, as lists without repetition, and `sorted`.
use Prim.Native.String.{String}
use mathlib.Core.Path.{◌≡◌, refl}
use mathlib.Core.Bool.{Bool, true, ◌||◌}
use mathlib.Core.List.{List, [], ◌∷◌, ◌++◌}
use native.Mathlib.Omega.{arith}
use calibre_bookwarden.Prelude.Tests.{if◌then◌else◌}
use calibre_bookwarden.Prelude.Lists.{any}
use calibre_bookwarden.Prelude.Strings.{str_in, eq_iff, string_le}

-- `set.add`
abbrev pub set_add : String → List String → List String
set_add s xs = if str_in s xs then xs else xs ++ s ∷ []

-- `set.update`
abbrev pub set_update : List String → List String → List String
set_update xs [] = xs
set_update xs (s ∷ ss) = set_update (set_add s xs) ss

-- `sorted(xs)`
unfoldable pub insert_sorted : String → List String → List String
insert_sorted s [] = s ∷ []
insert_sorted s (t ∷ ts) = if string_le s t then s ∷ t ∷ ts else t ∷ insert_sorted s ts

unfoldable pub sorted : List String → List String
unfolding insert_sorted
sorted [] = []
sorted (s ∷ ss) = insert_sorted s (sorted ss)

pub any-append {ℓ} :
    {A : Type ℓ} (p : A → Bool) (xs ys : List A) → any p (xs ++ ys) ≡ (any p xs || any p ys)
any-append p [] ys = refl
any-append p (x ∷ xs) ys = ground (arith, any-append p xs ys)

any-in :
    (p : String → Bool) (s : String) (xs : List String)
    → str_in s xs ≡ true
    → p s ≡ true
    → any p xs ≡ true
any-in p s [] h q = h
any-in p s (x ∷ xs) h q = ground (arith, any-in p s xs, eq_iff x s)

any-set_add :
    (p : String → Bool) (xs : List String) (s : String) → any p (set_add s xs) ≡ (any p xs || p s)
any-set_add p xs s = ground (arith, any-in p s xs, any-append p xs (s ∷ []))

-- A test on some element of a union is a test on some element of a part.
pub any-set_update :
    (p : String → Bool) (xs ss : List String) → any p (set_update xs ss) ≡ (any p xs || any p ss)
any-set_update p xs [] = ground arith
any-set_update p xs (s ∷ ss) =
    ground (arith, any-set_update p (set_add s xs) ss, any-set_add p xs s)

any-insert_sorted :
    (p : String → Bool) (s : String) (xs : List String)
    → any p (insert_sorted s xs) ≡ (p s || any p xs)
unfolding insert_sorted
any-insert_sorted p s [] = refl
any-insert_sorted p s (x ∷ xs) = ground (arith, any-insert_sorted p s xs)

pub any-sorted : (p : String → Bool) (xs : List String) → any p (sorted xs) ≡ any p xs
unfolding sorted
any-sorted p [] = refl
any-sorted p (x ∷ xs) = ground (arith, any-insert_sorted p x (sorted xs), any-sorted p xs)
