-- ===== src/Base/Gives.antt =====
-- Functions that keep a property of the state, whether they fail or not, and what they return where
-- they do not fail.
use mathlib.Core.Path.{◌≡◌, refl, subst}
use Prim.Native.String.{String}
use mathlib.Core.Bool.{Bool, true, false}
use pierre.Base.Tests.{if◌then◌else◌}
use pierre.Base.Results.{Result, ok, err, ok-injective}
use pierre.Base.Exec.{Exec, pure, lift, attempt, annotate, replace, continue, ◌>>=◌}
use pierre.Base.Keeps.{Keeps, Keeps-annotate, Keeps-replace}

pub record Gives {ℓ κ μ} {S A : Type ℓ} (I : S → Type κ) (P : A → Type μ) (m : Exec S A)
    : Type (ℓ ⊔ κ ⊔ μ) where
  pub at : (s : S) → I s → I (m s).1 × ((a : A) → (m s).0 ≡ ok a → P a)

module _ {ℓ κ μ ν} {S A B : Type ℓ} {I : S → Type κ} {P : A → Type μ} {Q : B → Type ν} where
  continued :
      (r : Result A) (s : S) (f : A → Exec S B)
      → ((a : A) → r ≡ ok a → P a)
      → ((a : A) → P a → Gives I Q (f a))
      → I s
      → I (continue (r, s) f).1 × ((b : B) → (continue (r, s) f).0 ≡ ok b → Q b)
  continued (ok a) s f p rest i = (rest a (p a refl)).at s i
  continued (err e) s f p rest i = (i, λ b h. cc)

  pub Gives-bind :
      (m : Exec S A) (f : A → Exec S B)
      → Gives I P m
      → ((a : A) → P a → Gives I Q (f a))
      → Gives I Q (m >>= f)
  Gives-bind m f first rest = record {
    at = λ s i. let (j, p) = first.at s i in continued (m s).0 (m s).1 f p rest j;
  }

module _ {ℓ μ} {S A : Type ℓ} {P : A → Type μ} where
  annotated :
      (text : String) (r : Result A) (s : S)
      → ((a : A) → r ≡ ok a → P a)
      → (a : A) → (annotate text (lift r) s).0 ≡ ok a
      → P a
  annotated text (ok b) s p a h = p a h
  annotated text (err e) s p a h = cc

  replaced :
      (text : String) (r : Result A) (s : S)
      → ((a : A) → r ≡ ok a → P a)
      → (a : A) → (replace text (lift r) s).0 ≡ ok a
      → P a
  replaced text (ok b) s p a h = p a h
  replaced text (err e) s p a h = cc

module _ {ℓ κ μ} {S A : Type ℓ} {I : S → Type κ} {P : A → Type μ} where
  pub Gives-pure : (a : A) → P a → Gives {S = S} I P (pure a)
  Gives-pure a p = record { at = λ s i. (i, λ b h. subst P (ok-injective h) p) }

  pub Gives-if :
      (b : Bool) (m n : Exec S A) → Gives I P m → Gives I P n → Gives I P (if b then m else n)
  Gives-if true m n k l = k
  Gives-if false m n k l = l

  kept : (m : Exec S A) → Gives I P m → Keeps I m
  kept m g = record { after = λ s i. (g.at s i).0 }

  pub Gives-annotate : (text : String) (m : Exec S A) → Gives I P m → Gives I P (annotate text m)
  Gives-annotate text m g = record {
    at = λ s i.
        ((Keeps-annotate text m (kept m g)).after s i, annotated text (m s).0 (m s).1 (g.at s i).1);
  }

  pub Gives-replace : (text : String) (m : Exec S A) → Gives I P m → Gives I P (replace text m)
  Gives-replace text m g = record {
    at = λ s i.
        ((Keeps-replace text m (kept m g)).after s i, replaced text (m s).0 (m s).1 (g.at s i).1);
  }

module _ {ℓ κ μ} {S A : Type ℓ} {I : S → Type κ} {P : Result A → Type μ} where
  pub Gives-attempt :
      (m : Exec S A) → ((s : S) → I s → I (m s).1 × P (m s).0) → Gives I P (attempt m)
  Gives-attempt m k = record {
    at = λ s i. let (j, p) = k s i in (j, λ r h. subst P (ok-injective h) p);
  }

module _ {ℓ κ} {S A : Type ℓ} {I : S → Type κ} where
  -- Where nothing is said of the value.
  pub Gives-keeps : (m : Exec S A) → Keeps I m → Gives I (λ a. Unit {0}) m
  Gives-keeps m k = record { at = λ s i. (k.after s i, λ a h. tt) }

  pub Keeps-gives : {P : A → Type 0} (m : Exec S A) → Gives I P m → Keeps I m
  Keeps-gives m g = record { after = λ s i. (g.at s i).0 }
