-- ===== src/Base/Exec.antt =====
-- Functions that change the state of the machine and return a value or an error. What was changed
-- before an error stays changed.
use mathlib.Core.Path.{◌≡◌, refl, subst}
use mathlib.Core.List.{List, [], ◌∷◌}
use Prim.Native.String.{String}
use pierre.Base.Results.{Error, errorf, wrap, Result, ok, err}

abbrev pub Exec {ℓ} : Type ℓ → Type ℓ → Type ℓ
Exec S A = S → Result A × S

module _ {ℓ} {S A : Type ℓ} where
  abbrev pub pure : A → Exec S A
  pure a s = (ok a, s)

  abbrev pub raise : Error → Exec S A
  raise e s = (err e, s)

  abbrev pub lift : Result A → Exec S A
  lift r s = (r, s)

  -- `v, err := m()`, with the error left to the code that follows.
  abbrev pub attempt : Exec S A → Exec S (Result A)
  attempt m s = let (r, s') = m s in (ok r, s')

  abbrev marked : String → Result A × S → Result A × S
  marked text (ok a, s) = (ok a, s)
  marked text (err e, s) = (err (wrap text e), s)

  -- `if err != nil { return fmt.Errorf("… %w", err) }`
  abbrev pub annotate : String → Exec S A → Exec S A
  annotate text m s = marked text (m s)

  abbrev replaced : String → Result A × S → Result A × S
  replaced text (ok a, s) = (ok a, s)
  replaced text (err e, s) = (err (errorf text), s)

  -- The same with a message that does not wrap the error.
  abbrev pub replace : String → Exec S A → Exec S A
  replace text m s = replaced text (m s)

module _ {ℓ} {S A B : Type ℓ} where
  abbrev pub continue : Result A × S → (A → Exec S B) → Result B × S
  continue (ok a, s) f = f a s
  continue (err e, s) f = (err e, s)

  infixl 5 ◌>>=◌ ◌>>◌
  abbrev pub ◌>>=◌ : Exec S A → (A → Exec S B) → Exec S B
  ◌>>=◌ m f s = continue (m s) f

  abbrev pub ◌>>◌ : Exec S A → Exec S B → Exec S B
  m >> n = m >>= λ _. n

-- `for _, x := range xs { if err := f(x); err != nil { return err } }`
unfoldable pub each {ℓ} : {S A : Type ℓ} → (A → Exec S Unit) → List A → Exec S Unit
each f [] = pure tt
each f (x ∷ xs) = f x >> each f xs

-- Inversion of successful runs.
module _ {ℓ} {S A B : Type ℓ} where
  continue-eq-ok :
      (r : Result A) (s : S) (f : A → Exec S B) {b : B} {u : S}
      → continue (r, s) f ≡ (ok b, u)
      → (a : A) × (r ≡ ok a) × (f a s ≡ (ok b, u))
  continue-eq-ok (ok a) s f h = (a, refl, h)
  continue-eq-ok (err e) s f h = cc

  pub >>=-eq-ok :
      (m : Exec S A) (f : A → Exec S B) (s : S) {b : B} {u : S}
      → (m >>= f) s ≡ (ok b, u)
      → (a : A) × (t : S) × (m s ≡ (ok a, t)) × (f a t ≡ (ok b, u))
  >>=-eq-ok m f s h =
      let (a, p, q) = continue-eq-ok (m s).0 (m s).1 f h in (a, (m s).1, λ i. (p i, (m s).1), q)

module _ {ℓ} {S A : Type ℓ} where
  marked-eq-ok :
      (text : String) (r : Result A) (s : S) {a : A} {t : S}
      → marked text (r, s) ≡ (ok a, t)
      → ◌≡◌ {A = Result A × S} (r, s) (ok a, t)
  marked-eq-ok text (ok a) s h = h
  marked-eq-ok text (err e) s h = cc

  pub annotate-eq-ok :
      (text : String) (m : Exec S A) (s : S) {a : A} {t : S}
      → annotate text m s ≡ (ok a, t)
      → m s ≡ (ok a, t)
  annotate-eq-ok text m s h = marked-eq-ok text (m s).0 (m s).1 h

  replaced-eq-ok :
      (text : String) (r : Result A) (s : S) {a : A} {t : S}
      → replaced text (r, s) ≡ (ok a, t)
      → ◌≡◌ {A = Result A × S} (r, s) (ok a, t)
  replaced-eq-ok text (ok a) s h = h
  replaced-eq-ok text (err e) s h = cc

  pub replace-eq-ok :
      (text : String) (m : Exec S A) (s : S) {a : A} {t : S}
      → replace text m s ≡ (ok a, t)
      → m s ≡ (ok a, t)
  replace-eq-ok text m s h = replaced-eq-ok text (m s).0 (m s).1 h

-- What a function returns, where it returns anything, has the property `P`.
pub record Ensures {ℓ κ} {S A : Type ℓ} (P : A → Type κ) (m : Exec S A) : Type (ℓ ⊔ κ) where
  pub at : (s t : S) (a : A) → m s ≡ (ok a, t) → P a

module _ {ℓ κ} {S A B : Type ℓ} {P : B → Type κ} where
  pub Ensures-bind :
      (m : Exec S A) (f : A → Exec S B) → ((a : A) → Ensures P (f a)) → Ensures P (m >>= f)
  Ensures-bind m f rest = record {
    at = λ s t b h. let (a, u, _, q) = >>=-eq-ok m f s h in (rest a).at u t b q;
  }

module _ {ℓ κ} {S A : Type ℓ} {P : A → Type κ} where
  pub Ensures-annotate : (text : String) (m : Exec S A) → Ensures P m → Ensures P (annotate text m)
  Ensures-annotate text m e = record { at = λ s t a h. e.at s t a (annotate-eq-ok text m s h) }

  pub Ensures-replace : (text : String) (m : Exec S A) → Ensures P m → Ensures P (replace text m)
  Ensures-replace text m e = record { at = λ s t a h. e.at s t a (replace-eq-ok text m s h) }

  pub Ensures-pure : (a : A) → P a → Ensures {S = S} P (pure a)
  Ensures-pure a p = record { at = λ s t b h. subst P (cc) p }
