-- ===== src/Base/Keeps.antt =====
-- Functions that keep a property of the state, whether they fail or not.
use mathlib.Core.List.{List, [], ◌∷◌}
use Prim.Native.String.{String}
use mathlib.Core.Bool.{Bool, true, false}
use pierre.Base.Tests.{if◌then◌else◌}
use pierre.Base.Results.{Result, ok, err}
use pierre.Base.Exec.{Exec, lift, attempt, annotate, replace, each, ◌>>=◌}

pub record Keeps {ℓ κ} {S A : Type ℓ} (I : S → Type κ) (m : Exec S A) : Type (ℓ ⊔ κ) where
  pub after : (s : S) → I s → I (m s).1

module _ {ℓ κ} {S A B : Type ℓ} {I : S → Type κ} where
  continued :
      (r : Result A) (s : S) (f : A → Exec S B)
      → ((a : A) → Keeps I (f a))
      → I s
      → I ((lift r >>= f) s).1
  continued (ok a) s f rest i = (rest a).after s i
  continued (err e) s f rest i = i

  pub Keeps-bind :
      (m : Exec S A) (f : A → Exec S B) → Keeps I m → ((a : A) → Keeps I (f a)) → Keeps I (m >>= f)
  Keeps-bind m f first rest = record {
    after = λ s i. continued (m s).0 (m s).1 f rest (first.after s i);
  }

module _ {ℓ κ} {S A : Type ℓ} (I : S → Type κ) where
  annotated : (text : String) (r : Result A) (s : S) → I s → I (annotate text (lift r) s).1
  annotated text (ok a) s i = i
  annotated text (err e) s i = i

  replaced : (text : String) (r : Result A) (s : S) → I s → I (replace text (lift r) s).1
  replaced text (ok a) s i = i
  replaced text (err e) s i = i

module _ {ℓ κ} {S A : Type ℓ} {I : S → Type κ} where
  pub Keeps-lift : (r : Result A) → Keeps {S = S} I (lift r)
  Keeps-lift r = record { after = λ s i. i }

  pub Keeps-if : (b : Bool) (m n : Exec S A) → Keeps I m → Keeps I n → Keeps I (if b then m else n)
  Keeps-if true m n k l = k
  Keeps-if false m n k l = l

  pub Keeps-attempt : (m : Exec S A) → Keeps I m → Keeps I (attempt m)
  Keeps-attempt m k = record { after = k.after }

  pub Keeps-annotate : (text : String) (m : Exec S A) → Keeps I m → Keeps I (annotate text m)
  Keeps-annotate text m k = record { after = λ s i. annotated I text (m s).0 (m s).1 (k.after s i) }

  pub Keeps-replace : (text : String) (m : Exec S A) → Keeps I m → Keeps I (replace text m)
  Keeps-replace text m k = record { after = λ s i. replaced I text (m s).0 (m s).1 (k.after s i) }

module _ {ℓ κ} {S A : Type ℓ} {I : S → Type κ} where
  pub Keeps-each :
      (f : A → Exec S Unit) (xs : List A) → ((x : A) → Keeps I (f x)) → Keeps I (each f xs)
  unfolding each
  Keeps-each f [] k = Keeps-lift (ok tt)
  Keeps-each f (x ∷ xs) k = Keeps-bind (f x) (λ _. each f xs) (k x) (λ _. Keeps-each f xs k)
