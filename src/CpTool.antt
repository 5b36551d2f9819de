-- ===== src/CpTool.antt =====
-- cmd/cp-tool/main.go: a file is copied with its permissions.
pub mod Closes
use pierre.Base.{ℕ, List, [], ◌∷◌, Text}
use pierre.Base.Exec.{Exec, pure, lift, attempt, annotate, replace, ◌>>=◌, ◌>>◌}

-- The functions of packages os, io and path/filepath that are called. A file is open at a handle.
pub record Files (State : Type 0) : Type 0 where
  pub clean : Text → Text
  pub open_file : Text → Exec State ℕ
  pub stat_mode : Text → Exec State ℕ
  pub create : Text → Exec State ℕ
  pub copy : ℕ → ℕ → Exec State Unit  -- destination, source
  pub chmod : Text → ℕ → Exec State Unit
  pub close : ℕ → Exec State Unit

module _ {State : Type 0} (f : Files State) where
  open f use {clean, open_file, stat_mode, create, copy, chmod, close}

  -- `defer file.Close()`, whose error is dropped.
  unfoldable pub deferred : ℕ → Exec State Unit → Exec State Unit
  deferred file body = do r ← attempt body; _ ← attempt (close file); lift r

  unfoldable pub copy_file : Text → Text → Exec State Unit
  unfolding deferred
  copy_file src dst = do
    source ← annotate "failed to open source file" (open_file (clean src))
    deferred source (do
      mode ← annotate "failed to check stats" (stat_mode (clean src))
      destination ← annotate "failed to create destination file" (create (clean dst))
      deferred destination (do
        annotate "failed to copy" (copy destination source)
        replace "failed to apply permission" (chmod (clean dst) mode)))

  -- main: the program's arguments behind its name. Errors are printed.
  unfoldable pub main : List Text → Exec State Unit
  unfolding copy_file
  main (source_file ∷ destination_file ∷ []) = copy_file source_file destination_file
  main _ = pure tt
