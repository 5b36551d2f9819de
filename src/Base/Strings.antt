-- ===== src/Base/Strings.antt =====
-- Go strings, as the lists of their bytes, and the functions of package strings that are used.
use Prim.Native.Char.{code}
use Prim.Native.String.{String}
use Prim.Native.Nat.{ℕ}
use mathlib.Core.Path.{◌≡◌, refl}
use mathlib.Core.Logic.{◌↔◌, inl, inr}
use mathlib.Core.Bool.{Bool, true, false, ◌&&◌, ◌||◌}
use mathlib.Core.List.{List, [], ◌∷◌, ◌++◌}
use native.Mathlib.Omega.{arith}
use pierre.Base.Tests.{◌==◌, if◌then◌else◌, Bool-cases}
use pierre.Base.Lists.{In, here, there}

abbrev pub Text : Type 0
Text = List ℕ

-- The bytes of a literal, which is ASCII everywhere in the program.
abbrev pub codes : String → Text
codes String.[] = []
codes (String.◌∷◌ c s) = code c ∷ codes s

unfoldable pub eq_text : Text → Text → Bool
eq_text [] [] = true
eq_text (a ∷ s) (b ∷ t) = (a == b) && eq_text s t
eq_text _ _ = false

pub eq_text_iff : (s t : Text) → (eq_text s t ≡ true) ↔ (s ≡ t)
unfolding eq_text
eq_text_iff [] [] = ground arith
eq_text_iff [] (b ∷ t) = ground arith
eq_text_iff (a ∷ s) [] = ground arith
eq_text_iff (a ∷ s) (b ∷ t) = ground (arith, eq_text_iff s t)

pub eq_text_refl : (s : Text) → eq_text s s ≡ true
eq_text_refl s = (eq_text_iff s s).1 refl

-- strings.HasPrefix
unfoldable pub has_prefix : Text → Text → Bool
has_prefix s [] = true
has_prefix [] (p ∷ ps) = false
has_prefix (a ∷ s) (p ∷ ps) = (a == p) && has_prefix s ps

abbrev drop_text : Text → Text → Text
drop_text s [] = s
drop_text [] (p ∷ ps) = []
drop_text (a ∷ s) (p ∷ ps) = drop_text s ps

-- strings.TrimPrefix
unfoldable pub trim_prefix : Text → Text → Text
unfolding has_prefix
trim_prefix s p = if has_prefix s p then drop_text s p else s

pub has_prefix-append : (p s : Text) → has_prefix (p ++ s) p ≡ true
unfolding has_prefix
has_prefix-append [] s = refl
has_prefix-append (a ∷ p) s = ground (arith, has_prefix-append p s)

drop_text-append : (p s : Text) → drop_text (p ++ s) p ≡ s
drop_text-append [] s = refl
drop_text-append (a ∷ p) s = drop_text-append p s

pub trim_prefix-append : (p s : Text) → trim_prefix (p ++ s) p ≡ s
trim_prefix-append p s = unfold trim_prefix in rw (has_prefix-append p s, drop_text-append p s)

-- Go sets of strings, `map[string]bool`: the keys that were stored with `true`.
unfoldable pub contains : List Text → Text → Bool
contains [] a = false
contains (x ∷ xs) a = eq_text x a || contains xs a

pub contains-In : (xs : List Text) (a : Text) → contains xs a ≡ true → In a xs
unfolding contains
contains-In [] a h = cc
contains-In (x ∷ xs) a h = elim (Bool-cases (eq_text x a)) [
  | inl e ↦ here (cc ((eq_text_iff x a).0 e))
  | inr e ↦ there (contains-In xs a (rw e at h))
]

pub In-contains : (xs : List Text) (a : Text) → In a xs → contains xs a ≡ true
unfolding contains
In-contains [] a m = elim m [ ]
In-contains (x ∷ xs) a (here e) = ground (arith, eq_text_iff x a)
In-contains (x ∷ xs) a (there m) = ground (arith, In-contains xs a m)
