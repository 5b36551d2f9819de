-- ===== src/FrrConfig.antt =====
-- internal/frrconfig and cmd/reloader: the update of FRR's configuration. The controller writes the
-- file and posts to the reloader (updater.go); the reloader runs frr-reload.py (frrconfig.go).
pub mod Laws
pub mod EndToEnd
use pierre.Base.{
  ℕ, ◌==◌, Bool, true, false, Option, none, some, List, [], ◌∷◌, ◌++◌, Text, codes, eq_text, Error,
  errorf, wrap, Result, ok, err, if◌then◌else◌,
}
use pierre.Base.Exec.{Exec, pure, raise, lift, attempt, annotate, replace, ◌>>=◌, ◌>>◌}

abbrev pub status_ok : ℕ
status_ok = 200

-- os.WriteFile, with the path, the contents and the mode; http.Post with no body, which returns
-- the status of the answer.
module _ {S : Type 0} (write_file : Text → Text → ℕ → Exec S Unit) (post : Text → Exec S ℕ) where
  unfoldable pub updater_for_address : Text → Text → Text → Exec S Unit
  updater_for_address address config_file config = do
    replace "failed to write the config" (write_file config_file config 384)
    status ← annotate "failed to reload" (post (codes "http://" ++ address))
    if status == status_ok then pure tt else raise (errorf "failed to reload, status")

pub data Action : Type 0 where
  test reload : Action

unfoldable pub action_string : Action → Text
action_string test = codes "test"
action_string reload = codes "reload"

abbrev pub reloader_path : Text
reloader_path = codes "/usr/lib/frr/frr-reload.py"

-- exec.Command with the name of the program and its arguments, run to its end.
module _ {S : Type 0} (exec_command : Text → List Text → Exec S Unit) where
  unfoldable pub reload_action : Text → Action → Exec S Unit
  unfolding action_string
  reload_action path action = annotate "frr update failed" (
      exec_command (codes "python3")
        (reloader_path ∷ (codes "--" ++ action_string action) ∷ path ∷ []))

  unfoldable pub update : Text → Exec S Unit
  update path = do reload_action path test; reload_action path reload

-- cmd/reloader/main.go. The answer is the status of the response; with nothing written, net/http
-- answers 200.
pub data Method : Type 0 where
  method_post : Method
  method_other : Text → Method

abbrev pub status_bad_request : ℕ
status_bad_request = 400

abbrev pub status_internal_server_error : ℕ
status_internal_server_error = 500

answer : {S : Type 0} → Result (Unit {0}) × S → ℕ × S
answer (ok _, s) = (status_ok, s)
answer (err _, s) = (status_internal_server_error, s)

unfoldable pub reload_handler : {S : Type 0} → Exec S Unit → Method → S → ℕ × S
unfolding answer
reload_handler update_config method_post s = answer (update_config s)
reload_handler update_config (method_other _) s = (status_bad_request, s)
