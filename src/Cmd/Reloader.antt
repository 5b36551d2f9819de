-- ===== src/Cmd/Reloader.antt =====
-- cmd/reloader/main.go: the flags of the reloader, and its start.
use pierre.Base.{Text, codes}
use pierre.Base.Exec.{Exec, attempt, ◌>>=◌}
use pierre.Cmd.Flags.{Flag, string_flag, Values}
use pierre.Logging.{Level, new_logger}
use pierre.FrrConfig.{Method, update, reload_handler}
use pierre.Base.{ℕ, List, [], ◌∷◌}

pub record Flags : Type 0 where
  pub bind_address : Text
  pub frr_config_path : Text
  pub log_level : Text

-- The flags that are registered, with their defaults.
abbrev pub registered : List Flag
registered =
    string_flag (codes "bindaddress") (codes "0.0.0.0:9080")
    ∷ string_flag (codes "frrconfig") (codes "/etc/frr/frr.conf")
    ∷ string_flag (codes "loglevel") (codes "info")
    ∷ []

-- The variables that the flags are stored in.
abbrev pub flags_of : Values → Flags
flags_of v = record {
  bind_address = v.string (codes "bindaddress");
  frr_config_path = v.string (codes "frrconfig");
  log_level = v.string (codes "loglevel");
}

-- The libraries that are called. ListenAndServe serves every path with the handler, and returns an
-- error only.
pub record Wiring (State : Type 0) : Type 0 where
  pub parse : List Flag → Exec State Values
  pub set_default : Level → Exec State Unit
  pub exec_command : Text → List Text → Exec State Unit
  pub listen_and_serve : Text → (Method → State → ℕ × State) → Exec State Unit

module _ {State : Type 0} (w : Wiring State) where
  open w use {parse, set_default, exec_command, listen_and_serve}

  -- main behind the parsing of the flags. An error of the logger is printed, and no more.
  unfoldable pub run : Flags → Exec State Unit
  unfolding new_logger reload_handler update
  run f = do
    _ ← attempt (new_logger set_default f.log_level)
    listen_and_serve f.bind_address (reload_handler (update exec_command f.frr_config_path))

  unfoldable pub main : Exec State Unit
  unfolding run
  main = do values ← parse registered; run (flags_of values)
