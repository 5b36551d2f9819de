-- ===== src/Base/Triple.antt =====
-- What holds of the state after a successful run, given what held before.
use mathlib.Core.Path.{◌≡◌, ap, subst}
use mathlib.Core.Bool.{Bool, true, false}
use Prim.Native.String.{String}
use pierre.Base.Tests.{if◌then◌else◌}
use pierre.Base.Results.{Result, ok}
use pierre.Base.Exec.{
  Exec, lift, annotate, replace, ◌>>=◌, >>=-eq-ok, annotate-eq-ok, replace-eq-ok,
}
use pierre.Base.Keeps.{Keeps}

pub record Triple {ℓ κ μ} {S A : Type ℓ} (P : S → Type κ) (m : Exec S A) (Q : A → S → Type μ)
    : Type (ℓ ⊔ κ ⊔ μ) where
  pub after : (s t : S) (a : A) → P s → m s ≡ (ok a, t) → Q a t

module _ {ℓ κ μ ν} {S A B : Type ℓ} {P : S → Type κ} {R : B → S → Type ν} where
  pub Triple-bind :
      (Q : A → S → Type μ) (m : Exec S A) (f : A → Exec S B)
      → Triple P m Q
      → ((a : A) → Triple (Q a) (f a) R)
      → Triple P (m >>= f) R
  Triple-bind Q m f first rest = record {
    after = λ s t b p h.
        let (a, u, e, g) = >>=-eq-ok m f s h in (rest a).after u t b (first.after s u a p e) g;
  }

module _ {ℓ} {S A : Type ℓ} where
  pair :
      (a b : A) (s t : S)
      → ◌≡◌ {A = Result A × S} (ok a, s) (ok b, t)
      → ◌≡◌ {A = A × S} (a, s) (b, t)
  pair a b s t h = cc

module _ {ℓ κ μ} {S A : Type ℓ} {P : S → Type κ} {Q : A → S → Type μ} where
  pub Triple-annotate : (text : String) (m : Exec S A) → Triple P m Q → Triple P (annotate text m) Q
  Triple-annotate text m k = record {
    after = λ s t a p h. k.after s t a p (annotate-eq-ok text m s h);
  }

  pub Triple-replace : (text : String) (m : Exec S A) → Triple P m Q → Triple P (replace text m) Q
  Triple-replace text m k = record {
    after = λ s t a p h. k.after s t a p (replace-eq-ok text m s h);
  }

  pub Triple-if :
      (b : Bool) (m n : Exec S A) → Triple P m Q → Triple P n Q → Triple P (if b then m else n) Q
  Triple-if true m n k l = k
  Triple-if false m n k l = l

  pub Triple-pure : (a : A) → ((s : S) → P s → Q a s) → Triple P (lift (ok a)) Q
  Triple-pure a q = record {
    after = λ s t b p h. subst (λ (x : A × S). Q x.0 x.1) (pair a b s t h) (q s p);
  }

module _ {ℓ κ μ ν} {S A : Type ℓ} {P : S → Type κ} {P' : S → Type ν} {Q : A → S → Type μ} where
  -- A fact that does not depend on the state may be used before the run.
  pub Triple-given :
      {F : Type ν} (m : Exec S A) → ((s : S) → P' s → F × P s) → (F → Triple P m Q) → Triple P' m Q
  Triple-given m w k = record { after = λ s t a p h. let (f, q) = w s p in (k f).after s t a q h }

  pub Triple-weaken : (m : Exec S A) → ((s : S) → P' s → P s) → Triple P m Q → Triple P' m Q
  Triple-weaken m w k = record { after = λ s t a p h. k.after s t a (w s p) h }

module _ {ℓ κ} {S A : Type ℓ} {I : S → Type κ} where
  -- What is kept holds afterwards.
  pub Triple-keeps : (m : Exec S A) → Keeps I m → Triple I m (λ a. I)
  Triple-keeps m k = record {
    after = λ s t a i h. subst I (ap (λ (p : Result A × S). p.1) h) (k.after s i);
  }
