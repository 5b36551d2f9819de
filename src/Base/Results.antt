-- ===== src/Base/Results.antt =====
-- Go's `(value, error)` results, and functions that change the state of the machine.
use mathlib.Core.Path.{◌≡◌, refl, subst}
use mathlib.Core.Logic.{◌⊎◌, inl, inr}
use mathlib.Core.Bool.{Bool, true, false}
use native.Mathlib.Omega.{arith}
use mathlib.Core.List.{List, [], ◌∷◌}
use Prim.Native.String.{String}
use pierre.Base.Lists.{All₂}

-- An error by the constant text of its message; `wrap` is a message with `%w`, which `errors.As`
-- and `errors.Is` see through.
pub data Error : Type 0 where
  link_not_found : Error  -- netlink.LinkNotFoundError
  file_exists : Error  -- an error for which os.IsExist holds
  errorf : String → Error
  wrap : String → Error → Error

-- errors.As for a *netlink.LinkNotFoundError
abbrev pub is_not_found : Error → Bool
is_not_found link_not_found = true
is_not_found (wrap _ e) = is_not_found e
is_not_found _ = false

-- os.IsExist, which does not unwrap
abbrev pub is_exist : Error → Bool
is_exist file_exists = true
is_exist _ = false

pub data Result {ℓ} (A : Type ℓ) : Type ℓ where
  ok : A → Result A
  err : Error → Result A

pub ok-injective {ℓ} : {A : Type ℓ} {a b : A} → ok a ≡ ok b → a ≡ b
ok-injective h = cc

pub ok≢err {ℓ} : {A : Type ℓ} {a : A} {e : Error} → ok a ≡ err e → ⊥
ok≢err h = cc

pub Result-cases {ℓ} :
    {A : Type ℓ} (r : Result A) → ((a : A) × (r ≡ ok a)) ⊎ ((e : Error) × (r ≡ err e))
Result-cases (ok a) = inl (a, refl)
Result-cases (err e) = inr (e, refl)

module _ {ℓ κ} {A : Type ℓ} {B : Type κ} where
  infixl 5 ◌>>=◌
  abbrev pub ◌>>=◌ : Result A → (A → Result B) → Result B
  ◌>>=◌ (ok value) next = next value
  ◌>>=◌ (err problem) next = err problem

  -- What went on after a success.
  pub >>=-eq-ok :
      (first : Result A) (next : A → Result B) {value : B}
      → (first >>= next) ≡ ok value
      → (a : A) × (first ≡ ok a) × (next a ≡ ok value)
  >>=-eq-ok (ok a) next h = (a, refl, h)
  >>=-eq-ok (err problem) next h = cc

-- `if err != nil { return fmt.Errorf("… %w", err) }`, and the same with `%v` or no verb.
abbrev pub wrapping {ℓ} : {A : Type ℓ} → String → Result A → Result A
wrapping s (ok a) = ok a
wrapping s (err e) = err (wrap s e)

abbrev pub or_else {ℓ} : {A : Type ℓ} → String → Result A → Result A
or_else s (ok a) = ok a
or_else s (err e) = err (errorf s)

abbrev pub is_ok {ℓ} : {A : Type ℓ} → Result A → Bool
is_ok (ok _) = true
is_ok (err _) = false

pub wrapping-eq-ok {ℓ} :
    {A : Type ℓ} (s : String) (m : Result A) {a : A} → wrapping s m ≡ ok a → m ≡ ok a
wrapping-eq-ok s (ok a) h = h
wrapping-eq-ok s (err e) h = cc

pub or_else-eq-ok {ℓ} :
    {A : Type ℓ} (s : String) (m : Result A) {a : A} → or_else s m ≡ ok a → m ≡ ok a
or_else-eq-ok s (ok a) h = h
or_else-eq-ok s (err e) h = cc

-- `for _, x := range xs { y, err := f(x); if err != nil { return err }; ys = append(ys, y) }`
unfoldable pub traverse {ℓ κ} :
    {A : Type ℓ} {B : Type κ} → (A → Result B) → List A → Result (List B)
traverse f [] = ok []
traverse f (x ∷ xs) = f x >>= λ y. traverse f xs >>= λ ys. ok (y ∷ ys)

pub traverse-All₂ {ℓ κ} :
    {A : Type ℓ} {B : Type κ} (f : A → Result B) (xs : List A) (ys : List B)
    → traverse f xs ≡ ok ys
    → All₂ (λ x y. f x ≡ ok y) xs ys
unfolding traverse
traverse-All₂ f [] [] h = tt
traverse-All₂ f [] (y ∷ ys) h = cc
traverse-All₂ f (x ∷ xs) [] h = ground arith
traverse-All₂ f (x ∷ xs) (y ∷ ys) h = ground (arith, traverse-All₂ f xs ys)

-- Where each call of `f` that succeeds goes with one of `g` that succeeds, so do the loops.
pub traverse_agree {ℓ κ μ ν} :
    {A : Type ℓ} {B : Type κ} {C : Type μ} (R : B → C → Type ν) (f : A → Result B)
    (g : A → Result C)
    → ((x : A) (y : B) → f x ≡ ok y → (z : C) × (g x ≡ ok z) × R y z)
    → (xs : List A) (ys : List B) → traverse f xs ≡ ok ys
    → (zs : List C) × (traverse g xs ≡ ok zs) × All₂ R ys zs
unfolding traverse
traverse_agree R f g step [] [] h = ([], refl, tt)
traverse_agree R f g step [] (y ∷ ys) h = cc
traverse_agree R f g step (x ∷ xs) ys h =
    let (y, fx, rest) = >>=-eq-ok (f x) (λ y. traverse f xs >>= λ ys. ok (y ∷ ys)) h in
    let (ys', fxs, e) = >>=-eq-ok (traverse f xs) (λ ys. ok (y ∷ ys)) rest in
    let (z, gx, r) = step x y fx in
    let (zs, gxs, rs) = traverse_agree R f g step xs ys' fxs in
    (z ∷ zs, rw (gx, gxs) refl, subst (λ l. All₂ R l (z ∷ zs)) (ok-injective e) (r, rs))
