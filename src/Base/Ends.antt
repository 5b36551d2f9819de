-- ===== src/Base/Ends.antt =====
-- A run from one state that succeeds, with what holds of its value and of the state afterwards.
use Prim.Native.String.{String}
use mathlib.Core.Path.{◌≡◌, refl, ap, ◌∙◌}
use mathlib.Core.Bool.{Bool, true, false}
use pierre.Base.Tests.{if◌then◌else◌}
use pierre.Base.Results.{Result, ok}
use pierre.Base.Exec.{Exec, pure, annotate, replace, ◌>>=◌}

pub record Ends {ℓ κ} {S A : Type ℓ} (Q : A → S → Type κ) (m : Exec S A) (s : S)
    : Type (ℓ ⊔ κ) where
  pub value : A
  pub final : S
  pub runs : m s ≡ (ok value, final)
  pub holds : Q value final

module _ {ℓ κ μ} {S A B : Type ℓ} {R : B → S → Type μ} where
  pub Ends-bind :
      (Q : A → S → Type κ) (m : Exec S A) (f : A → Exec S B) (s : S)
      → Ends Q m s
      → ((a : A) (t : S) → Q a t → Ends R (f a) t)
      → Ends R (m >>= f) s
  Ends-bind Q m f s first rest =
      let next = rest first.value first.final first.holds in
      record {
        value = next.value;
        final = next.final;
        runs = ap (λ (p : Result A × S). ((λ (_ : S). p) >>= f) s) first.runs ∙ next.runs;
        holds = next.holds;
      }

module _ {ℓ κ} {S A : Type ℓ} {Q : A → S → Type κ} where
  pub Ends-annotate :
      (text : String) (m : Exec S A) (s : S) → Ends Q m s → Ends Q (annotate text m) s
  Ends-annotate text m s e = record {
    value = e.value;
    final = e.final;
    runs = ap (λ (p : Result A × S). annotate text (λ (_ : S). p) s) e.runs;
    holds = e.holds;
  }

  pub Ends-replace : (text : String) (m : Exec S A) (s : S) → Ends Q m s → Ends Q (replace text m) s
  Ends-replace text m s e = record {
    value = e.value;
    final = e.final;
    runs = ap (λ (p : Result A × S). replace text (λ (_ : S). p) s) e.runs;
    holds = e.holds;
  }

  -- A call that succeeds.
  pub Ends-call : (m : Exec S A) (s : S) (a : A) → (m s).0 ≡ ok a → Q a (m s).1 → Ends Q m s
  Ends-call m s a e q = record { value = a; final = (m s).1; runs = λ i. (e i, (m s).1); holds = q }

  pub Ends-pure : (a : A) (s : S) → Q a s → Ends Q (pure a) s
  Ends-pure a s q = record { value = a; final = s; runs = refl; holds = q }

  pub Ends-if :
      (b : Bool) (m n : Exec S A) (s : S) → Ends Q m s → Ends Q n s → Ends Q (if b then m else n) s
  Ends-if true m n s k l = k
  Ends-if false m n s k l = l
