-- ===== src/Tests/Start.antt =====
-- The start of the two processes, and the updater with the reloader, on a counter of calls.
use pierre.Base.{
  false, ◌∷◌, ℕ, ◌+◌, ◌≡◌, ◌≢◌, ◌↔◌, refl, List, [], Text, codes, ok, err, errorf, wrap, eq_text,
  ltb, ap, arith, if◌then◌else◌,
}
use pierre.Base.Exec.{Exec, pure}
use pierre.Logging.{
  Level, level_debug, level_info, level_warn, level_error, level_name, level_to_slog, new_logger,
}
use pierre.Pods.{new_runtime}
use pierre.FrrConfig.{update, reload_handler, updater_for_address, method_post}
use pierre.FrrConfig.EndToEnd.{answered, direct, updater_direct}
use pierre.Tests.Watch.{Predicate, predicates}
use pierre.Cmd.Flags.{Flag, string_flag, Values}
use pierre.Cmd.HostController
use pierre.Cmd.Reloader
use pierre.Cmd.Start.{run_invalid_level, run_started}

-- The values of a command line without flags.
abbrev default : Text → Text → Flag → Text
default n later (string_flag m d) = if eq_text m n then d else later
default n later _ = later

abbrev string_of : List Flag → Text → Text
string_of [] n = []
string_of (f ∷ fs) n = default n (string_of fs n) f

abbrev values_of : List Flag → Values
values_of fs = record { string = string_of fs; bool = λ n. false; int = λ n. 9080 }

-- A call that is counted and succeeds.
abbrev called : Exec ℕ Unit
called n = (ok tt, n + 1)

abbrev controller : HostController.Wiring ℕ ℕ Predicate
controller = record {
  predicates = predicates;
  add_client_go_scheme = called;
  add_api_scheme = called;
  parse = λ flags. pure (values_of flags);
  set_default = λ level. called;
  new_manager = λ options. called;
  dial = λ path. pure 5;
  index_field = λ name f. called;
  complete = λ connection r b. called;
  add_healthz_check = λ name. called;
  add_readyz_check = λ name. called;
  start = called;
}

abbrev reloader : Reloader.Wiring ℕ
reloader = record {
  parse = λ flags. pure (values_of flags);
  set_default = λ level. called;
  exec_command = λ program args. called;
  listen_and_serve = λ address handler n. (err (errorf "closed"), n + 1);
}

abbrev loud : HostController.Flags
loud = record (HostController.flags_of (values_of HostController.registered)) {
  log_level = codes "loud";
}

abbrev loud_reloader : Reloader.Flags
loud_reloader = record (Reloader.flags_of (values_of Reloader.registered)) {
  log_level = codes "loud";
}

abbrev first_code : Text → ℕ
first_code [] = 0
first_code (c ∷ t) = c

loud-invalid : (level : Level) → codes "loud" ≢ level_name level
loud-invalid level_debug e = let h : ◌≡◌ {A = ℕ} 108 100 = ap first_code e in absurd (omega arith)
loud-invalid level_info e = let h : ◌≡◌ {A = ℕ} 108 105 = ap first_code e in absurd (omega arith)
loud-invalid level_warn e = let h : ◌≡◌ {A = ℕ} 108 119 = ap first_code e in absurd (omega arith)
loud-invalid level_error e = let h : ◌≡◌ {A = ℕ} 108 101 = ap first_code e in absurd (omega arith)

run_invalid_level_example :
    (HostController.run controller loud 0
      ≡ (err (wrap "unable to init logger" (errorf "invalid log level")), 0))
    × (Reloader.run reloader loud_reloader 0 ≡ (err (errorf "closed"), 1))
run_invalid_level_example =
    run_invalid_level controller reloader loud loud_reloader 0 0 loud-invalid loud-invalid

run_started_example :
    ((level : Level) × (codes "info" ≡ level_name level)
      × (u : ℕ) × (controller.set_default level 0 ≡ (ok tt, u)))
    × (codes "/var/run/containerd/containerd.sock" ≢ [])
    × (u : ℕ) × (controller.start u ≡ (ok tt, 7))
unfolding HostController.run new_logger eq_text level_to_slog new_runtime
run_started_example =
    run_started controller (HostController.flags_of (values_of HostController.registered)) 0 7 refl

abbrev write_file : Text → Text → ℕ → Exec ℕ Unit
write_file path text mode = called

-- The test of the configuration succeeds, as the first call; its reload fails.
abbrev exec_command : Text → List Text → Exec ℕ Unit
exec_command program args n =
    if ltb n 2 then (ok tt, n + 1) else (err (errorf "exit status 1"), n + 1)

updater_direct_example :
    ((updater_for_address write_file
          (answered (reload_handler (update exec_command (codes "/etc/frr/frr.conf")) method_post))
          (codes "10.0.0.1:9080")
          (codes "frr.conf")
          (codes "!")
          0).0
        ≡ ok tt
      ↔ ((direct write_file exec_command
            (codes "frr.conf")
            (codes "/etc/frr/frr.conf")
            (codes "!")
            0).0
          ≡ ok tt))
    × ((updater_for_address write_file
          (answered (reload_handler (update exec_command (codes "/etc/frr/frr.conf")) method_post))
          (codes "10.0.0.1:9080")
          (codes "frr.conf")
          (codes "!")
          0).1
        ≡ (direct write_file exec_command
            (codes "frr.conf")
            (codes "/etc/frr/frr.conf")
            (codes "!")
            0).1)
updater_direct_example =
    updater_direct write_file exec_command (codes "10.0.0.1:9080") (codes "frr.conf")
      (codes "/etc/frr/frr.conf") (codes "!") 0
