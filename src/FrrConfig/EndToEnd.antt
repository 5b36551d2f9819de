-- ===== src/FrrConfig/EndToEnd.antt =====
-- internal/frrconfig and cmd/reloader: the controller's updater and the reloader together.
use pierre.Base.{ℕ, ◌≡◌, ◌↔◌, Text, List, ok, arith}
use pierre.Base.Exec.{Exec, ◌>>◌}
use pierre.FrrConfig.{
  updater_for_address, test, reload, reload_action, update, reload_handler, method_post,
}

-- A post that reaches the reloader: the answer is that of its handler.
abbrev pub answered : {S : Type 0} → (S → ℕ × S) → Text → Exec S ℕ
answered handler url s = let (status, s') = handler s in (ok status, s')

-- What the update amounts to: the file is written, tested and loaded.
abbrev pub direct :
    {S : Type 0}
    → (Text → Text → ℕ → Exec S Unit)
    → (Text → List Text → Exec S Unit)
    → Text
    → Text
    → Text
    → Exec S Unit
direct write_file exec_command file path config = do
  write_file file config 384
  reload_action exec_command path test
  reload_action exec_command path reload

module _ {S : Type 0} (write_file : Text → Text → ℕ → Exec S Unit)
    (exec_command : Text → List Text → Exec S Unit) where
  -- With the reloader at the other end, the updater does what writing, testing and loading the
  -- configuration in one place would do: it succeeds in the same cases, and leaves the same state,
  -- whatever fails.
  pub updater_direct :
      (address file path config : Text) (s : S)
      → let remote =
          updater_for_address write_file
            (answered (reload_handler (update exec_command path) method_post))
            address
            file
            config
            s in
        ((remote.0 ≡ ok tt) ↔ ((direct write_file exec_command file path config s).0 ≡ ok tt))
        × (remote.1 ≡ (direct write_file exec_command file path config s).1)
  unfolding updater_for_address update reload_handler
  updater_direct address file path config s = ground arith
