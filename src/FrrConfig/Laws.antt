-- ===== src/FrrConfig/Laws.antt =====
-- internal/frrconfig and cmd/reloader: a configuration that does not pass the test is not loaded.
use pierre.Base.{ℕ, ◌≡◌, ◌↔◌, List, ◌++◌, Text, codes, ok, err, Error, arith}
use pierre.Base.Exec.{Exec}
use pierre.FrrConfig.{
  updater_for_address, test, reload, reload_action, update, Method, method_post, method_other,
  reload_handler, status_ok, status_internal_server_error,
}

module _ {S : Type 0} (exec_command : Text → List Text → Exec S Unit) where
  -- The reloader's answer is 200 exactly if the request is a POST, and both the test of the
  -- configuration and its reload succeed.
  pub reload_handler_lem :
      (path : Text) (m : Method) (s : S)
      → (((reload_handler (update exec_command path) m s).0 ≡ status_ok) ↔ (
          (m ≡ method_post)
          × ((reload_action exec_command path test s).0 ≡ ok tt)
          × ((reload_action exec_command path reload (reload_action exec_command path test s).1).0
              ≡ ok tt)))
  unfolding reload_handler update
  reload_handler_lem path method_post s = ground arith
  reload_handler_lem path (method_other t) s = ground arith

  -- After a failed test of the configuration nothing is reloaded: the answer is 500, and the state
  -- is the one that the test leaves.
  reload_handler_untested :
      (path : Text) (s : S) (e : Error)
      → (reload_action exec_command path test s).0 ≡ err e
      → reload_handler (update exec_command path) method_post s
        ≡ (status_internal_server_error, (reload_action exec_command path test s).1)
  unfolding reload_handler update
  reload_handler_untested path s e h = ground arith

module _ {S : Type 0} (write_file : Text → Text → ℕ → Exec S Unit) (post : Text → Exec S ℕ) where
  -- The updater succeeds exactly if the file is written, readable for its owner only (mode 0600),
  -- and the post to the reloader, after that, is answered with 200.
  updater_for_address_lem :
      (address config_file config : Text) (s : S)
      → let written = write_file config_file config 384 s in
        ((updater_for_address write_file post address config_file config s).0 ≡ ok tt)
        ↔ ((written.0 ≡ ok tt) × ((post (codes "http://" ++ address) written.1).0 ≡ ok status_ok))
  unfolding updater_for_address
  updater_for_address_lem address config_file config s = ground arith
