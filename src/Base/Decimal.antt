-- ===== src/Base/Decimal.antt =====
-- Decimal numbers: `strconv.Itoa`, the verb `%d`, and `strconv.Atoi` on a 64-bit `int`.
use pierre.Base.Tests.{ltb, leb, ◌==◌, if◌then◌else◌, Bool-cases}
use pierre.Base.Int.{ℤ, pos, negsuc}
use pierre.Base.Strings.{Text}
use pierre.Base.Lists.{All}
use Prim.Native.Nat.{ℕ, zero, suc, ◌+◌, ◌-◌, ◌*◌, ◌/◌, ◌%◌, ◌≤◌, ◌<◌}
use mathlib.Core.Path.{◌≡◌, refl, ◌∙◌}
use mathlib.Core.Logic.{inl, inr}
use mathlib.Core.Bool.{Bool, true, ◌&&◌}
use mathlib.Core.Option.{Option, none, some}
use mathlib.Core.List.{[], ◌∷◌}
use native.Mathlib.Omega.{arith}

-- The digits of `n` before the text `rest`, on fuel above `n`.
render : ℕ → ℕ → Text → Text
render zero n rest = rest
render (suc f) n rest =
    let more = render f (n / 10) ((48 + n % 10) ∷ rest) in
    if ltb n 10 then (48 + n) ∷ rest else more

unfoldable pub itoa_ℕ : ℕ → Text
unfolding render
itoa_ℕ n = render (suc n) n []

-- strconv.Itoa
unfoldable pub itoa : ℤ → Text
unfolding itoa_ℕ
itoa (pos n) = itoa_ℕ n
itoa (negsuc n) = b'-' ∷ itoa_ℕ (suc n)

abbrev is_digit : ℕ → Bool
is_digit c = leb b'0' c && leb c b'9'

parse_digits : ℕ → Text → Option ℕ
parse_digits acc [] = some acc
parse_digits acc (c ∷ cs) =
    let rest = parse_digits (acc * 10 + (c - 48)) cs in if is_digit c then rest else none

-- The digits of a number that has at least one.
parse_ℕ : Text → Option ℕ
unfolding parse_digits
parse_ℕ [] = none
parse_ℕ (c ∷ cs) = parse_digits 0 (c ∷ cs)

abbrev pub max_int : ℕ
max_int = 9223372036854775807

abbrev positive : Option ℕ → Option ℤ
positive none = none
positive (some n) = if leb n max_int then some (pos n) else none

abbrev negative : Option ℕ → Option ℤ
negative none = none
negative (some zero) = some (pos 0)
negative (some (suc n)) = if leb n max_int then some (negsuc n) else none

-- strconv.Atoi: an optional sign, digits, and the range of a 64-bit int.
unfoldable pub atoi : Text → Option ℤ
unfolding parse_ℕ
atoi [] = none
atoi (c ∷ cs) =
    if c == b'-'
    then negative (parse_ℕ cs)
    else if c == b'+'
    then positive (parse_ℕ cs)
    else positive (parse_ℕ (c ∷ cs))

parse_digits-render :
    (f n : ℕ) (rest : Text) → n < f → parse_digits 0 (render f n rest) ≡ parse_digits n rest
unfolding render parse_digits
parse_digits-render zero n rest h = absurd (omega arith)
parse_digits-render (suc f) n rest h = elim (Bool-cases (ltb n 10)) [
  | inl e ↦ rw e (ground arith)
  | inr e ↦
      rw (e, parse_digits-render f (n / 10) ((48 + n % 10) ∷ rest) (ground arith)) (ground arith)
]

-- Printing a number begins with a digit.
render_head :
    (f n : ℕ) (rest : Text)
    → n < f
    → (c : ℕ) × (cs : Text) × (render f n rest ≡ c ∷ cs) × (is_digit c ≡ true)
unfolding render
render_head zero n rest h = absurd (omega arith)
render_head (suc f) n rest h = elim (Bool-cases (ltb n 10)) [
  | inl e ↦ (48 + n, rest, rw e refl, ground arith)
  | inr e ↦
      let (c, cs, p, q) = render_head f (n / 10) ((48 + n % 10) ∷ rest) (ground arith) in
      (c, cs, rw e p, q)
]

itoa_ℕ_head : (n : ℕ) → (c : ℕ) × (cs : Text) × (itoa_ℕ n ≡ c ∷ cs) × (is_digit c ≡ true)
unfolding itoa_ℕ
itoa_ℕ_head n = render_head (suc n) n [] (omega arith)

render_digits :
    (f n : ℕ) (rest : Text) → n < f → All (λ c. 48 ≤ c) rest → All (λ c. 48 ≤ c) (render f n rest)
unfolding render
render_digits zero n rest h a = absurd (omega arith)
render_digits (suc f) n rest h a = elim (Bool-cases (ltb n 10)) [
  | inl e ↦ rw e (omega arith, a)
  | inr e ↦ rw e (render_digits f (n / 10) ((48 + n % 10) ∷ rest) (ground arith) (omega arith, a))
]

-- A number is printed with digits only.
pub itoa_ℕ_digits : (n : ℕ) → All (λ c. 48 ≤ c) (itoa_ℕ n)
unfolding itoa_ℕ
itoa_ℕ_digits n = render_digits (suc n) n [] (omega arith) tt

parse_ℕ-cons : (s : Text) {c : ℕ} {cs : Text} → s ≡ c ∷ cs → parse_ℕ s ≡ parse_digits 0 s
unfolding parse_ℕ
parse_ℕ-cons [] e = cc
parse_ℕ-cons (c ∷ cs) e = refl

parse_digits-itoa_ℕ : (n : ℕ) → parse_digits 0 (itoa_ℕ n) ≡ some n
unfolding itoa_ℕ
parse_digits-itoa_ℕ n =
    parse_digits-render (suc n) n [] (omega arith) ∙ (unfold parse_digits in refl)

parse_ℕ-itoa_ℕ : (n : ℕ) → parse_ℕ (itoa_ℕ n) ≡ some n
parse_ℕ-itoa_ℕ n =
    let (c, cs, p, q) = itoa_ℕ_head n in parse_ℕ-cons (itoa_ℕ n) p ∙ parse_digits-itoa_ℕ n

abbrev pub InInt : ℤ → Type 0
InInt (pos n) = n ≤ max_int
InInt (negsuc n) = n ≤ max_int

atoi_unsigned :
    (s : Text) (c : ℕ) (cs : Text) → s ≡ c ∷ cs → is_digit c ≡ true → atoi s ≡ positive (parse_ℕ s)
unfolding atoi
atoi_unsigned [] c cs e d = cc
atoi_unsigned (a ∷ s) c cs e d = ground arith

positive_lem : (n : ℕ) → n ≤ max_int → positive (some n) ≡ some (pos n)
positive_lem n h = ground arith

negative_lem : (n : ℕ) → n ≤ max_int → negative (some (suc n)) ≡ some (negsuc n)
negative_lem n h = ground arith

atoi_minus : (s : Text) → atoi (b'-' ∷ s) ≡ negative (parse_ℕ s)
unfolding atoi
atoi_minus s = refl

-- Every 64-bit int is read back from its decimal form.
pub atoi-itoa : (n : ℤ) → InInt n → atoi (itoa n) ≡ some n
unfolding itoa
atoi-itoa (pos n) h =
    let (c, cs, p, q) = itoa_ℕ_head n in
    atoi_unsigned (itoa_ℕ n) c cs p q ∙ rw (parse_ℕ-itoa_ℕ n) (positive_lem n h)
atoi-itoa (negsuc n) h =
    atoi_minus (itoa_ℕ (suc n)) ∙ rw (parse_ℕ-itoa_ℕ (suc n)) (negative_lem n h)
