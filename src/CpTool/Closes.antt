-- ===== src/CpTool/Closes.antt =====
-- cmd/cp-tool/main.go: the files that are opened are closed.
use pierre.Base.{◌≡◌, refl, ◌∙◌, ap, ℕ, List, [], ◌∷◌, Text, Result, ok, err, Error}
use Prim.Native.String.{String}
use pierre.Base.Exec.{Exec, lift, annotate, replace, ◌>>=◌, ◌>>◌}
use pierre.Base.Keeps.{Keeps, Keeps-bind, Keeps-annotate, Keeps-replace}
use pierre.CpTool.{Files, deferred, copy_file, main}

-- What the program relies on of package os: `opened` are the handles of the files that are open, the
-- last first. A handle is closed even if Close returns an error.
pub record Handles {State : Type 0} (f : Files State) (opened : State → List ℕ) : Type 0 where
  pub open_ok :
      (path : Text) (s : State) (h : ℕ)
      → (f.open_file path s).0 ≡ ok h
      → opened (f.open_file path s).1 ≡ h ∷ opened s
  pub open_err :
      (path : Text) (s : State) (e : Error)
      → (f.open_file path s).0 ≡ err e
      → opened (f.open_file path s).1 ≡ opened s
  pub create_ok :
      (path : Text) (s : State) (h : ℕ)
      → (f.create path s).0 ≡ ok h
      → opened (f.create path s).1 ≡ h ∷ opened s
  pub create_err :
      (path : Text) (s : State) (e : Error)
      → (f.create path s).0 ≡ err e
      → opened (f.create path s).1 ≡ opened s
  pub stat_mode : (path : Text) (s : State) → opened (f.stat_mode path s).1 ≡ opened s
  pub copy : (to from : ℕ) (s : State) → opened (f.copy to from s).1 ≡ opened s
  pub chmod : (path : Text) (mode : ℕ) (s : State) → opened (f.chmod path mode s).1 ≡ opened s
  pub close : (h : ℕ) (hs : List ℕ) (s : State) → opened s ≡ h ∷ hs → opened (f.close h s).1 ≡ hs

module _ {State : Type 0} (f : Files State) (opened : State → List ℕ)
    (handles : Handles f opened) where
  -- The files that are open.
  abbrev Open : List ℕ → State → Type 0
  Open hs s = opened s ≡ hs

  quiet :
      {A : Type 0} (hs : List ℕ) (m : Exec State A)
      → ((s : State) → opened (m s).1 ≡ opened s)
      → Keeps (Open hs) m
  quiet hs m q = record { after = λ s e. q s ∙ e }

  closed :
      (text : String) (r : Result ℕ) (s : State) (hs : List ℕ) (k : ℕ → Exec State Unit)
      → ((h : ℕ) → r ≡ ok h → opened s ≡ h ∷ hs)
      → ((e : Error) → r ≡ err e → opened s ≡ hs)
      → ((h : ℕ) (t : State) → opened t ≡ h ∷ hs → opened (k h t).1 ≡ hs)
      → opened ((annotate text (lift r) >>= k) s).1 ≡ hs
  closed text (ok h) s hs k a b c = c h s (a h refl)
  closed text (err e) s hs k a b c = b e refl

  -- A file that is opened, and closed by what follows.
  opened_lem :
      (text : String) (m : Exec State ℕ) (hs : List ℕ) (k : ℕ → Exec State Unit)
      → ((s : State) (h : ℕ) → (m s).0 ≡ ok h → opened (m s).1 ≡ h ∷ opened s)
      → ((s : State) (e : Error) → (m s).0 ≡ err e → opened (m s).1 ≡ opened s)
      → ((h : ℕ) (t : State) → opened t ≡ h ∷ hs → opened (k h t).1 ≡ hs)
      → Keeps (Open hs) (annotate text m >>= k)
  opened_lem text m hs k a b c = record {
    after = λ s e.
        closed text (m s).0 (m s).1 hs k (λ h g. a s h g ∙ ap (λ hs. h ∷ hs) e) (λ x g. b s x g ∙ e)
          c;
  }

  deferred_lem :
      (h : ℕ) (hs : List ℕ) (body : Exec State Unit)
      → Keeps (Open (h ∷ hs)) body
      → (s : State) → opened s ≡ h ∷ hs
      → opened (deferred f h body s).1 ≡ hs
  unfolding deferred
  deferred_lem h hs body k s e = handles.close h hs (body s).1 (k.after s e)

  written :
      (dst : Text) (to from mode : ℕ) (hs : List ℕ)
      → Keeps (Open hs) (
          annotate "failed to copy" (f.copy to from)
          >> replace "failed to apply permission" (f.chmod (f.clean dst) mode))
  written dst to from mode hs =
      Keeps-bind (annotate "failed to copy" (f.copy to from)) _
        (Keeps-annotate _ _ (quiet hs (f.copy to from) (handles.copy to from)))
        (λ _.
          Keeps-replace _ _
            (quiet hs (f.chmod (f.clean dst) mode) (handles.chmod (f.clean dst) mode)))

  copy_file_lem : (src dst : Text) (hs : List ℕ) → Keeps (Open hs) (copy_file f src dst)
  unfolding copy_file
  copy_file_lem src dst hs =
      opened_lem "failed to open source file" (f.open_file (f.clean src)) hs _
        (handles.open_ok (f.clean src)) (handles.open_err (f.clean src))
        (λ source t e.
          deferred_lem source hs _
            (Keeps-bind (annotate "failed to check stats" (f.stat_mode (f.clean src))) _
              (Keeps-annotate _ _
                (quiet (source ∷ hs) (f.stat_mode (f.clean src)) (handles.stat_mode (f.clean src))))
              (λ mode.
                opened_lem "failed to create destination file" (f.create (f.clean dst))
                  (source ∷ hs) _ (handles.create_ok (f.clean dst))
                  (handles.create_err (f.clean dst))
                  (λ destination u g.
                    deferred_lem destination (source ∷ hs) _
                      (written dst destination source mode (destination ∷ source ∷ hs)) u g)))
            t e)

  -- The copying tool closes what it opens: after main, the same files are open as before, for whatever
  -- arguments, and whichever of opening, Stat, Create, Copy and Chmod fails. The files keep the laws
  -- `Handles`.
  pub main_lem : (args : List Text) (s : State) → opened (main f args s).1 ≡ opened s
  unfolding main
  main_lem [] s = refl
  main_lem (a ∷ []) s = refl
  main_lem (a ∷ b ∷ []) s = (copy_file_lem a b (opened s)).after s refl
  main_lem (a ∷ b ∷ c ∷ args) s = refl
