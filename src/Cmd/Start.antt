-- ===== src/Cmd/Start.antt =====
-- cmd/hostcontroller and cmd/reloader: what the two processes do with their flags.
use pierre.Base.{◌≡◌, ◌≢◌, [], ◌∷◌, Text, codes, ok, err, errorf, wrap, inl, inr, arith}
use pierre.Base.Exec.{Exec, annotate, >>=-eq-ok, annotate-eq-ok}
use pierre.Pods.{new_runtime}
use pierre.Logging.{Level, level_name, level_to_slog, level_to_slog-cases, new_logger}
use pierre.FrrConfig.{update, reload_handler}
use pierre.Cmd.HostController
use pierre.Cmd.HostController.{TlsConfig, manager_options, disable_http2, reconciler_of}
use pierre.Controller.Manager.{setup_with_manager}
use pierre.Cmd.Reloader

refused :
    (t : Text)
    → ((l : Level) → t ≢ level_name l)
    → level_to_slog t ≡ err (errorf "invalid log level")
refused t h = elim (level_to_slog-cases t) [ inl (l, e, _) ↦ absurd (h l e) | inr e ↦ e ]

-- A log level that is none of debug, info, warn and error ends the controller before the manager is
-- made; the reloader serves all the same, as if there had been no log level.
pub run_invalid_level :
    {S T C P : Type 0} (w : HostController.Wiring S C P) (v : Reloader.Wiring T)
    (f : HostController.Flags) (g : Reloader.Flags) (s : S) (t : T)
    → ((level : Level) → f.log_level ≢ level_name level)
    → ((level : Level) → g.log_level ≢ level_name level)
    → (HostController.run w f s
        ≡ (err (wrap "unable to init logger" (errorf "invalid log level")), s))
      × (Reloader.run v g t
          ≡ v.listen_and_serve g.bind_address
              (reload_handler (update v.exec_command g.frr_config_path))
              t)
unfolding HostController.run Reloader.run new_logger
run_invalid_level w v f g s t h k =
    (ground (arith, refused f.log_level h), ground (arith, refused g.log_level k))

logger_lem :
    {S : Type 0} (set_default : Level → Exec S Unit) (name : Text) (s t : S)
    → new_logger set_default name s ≡ (ok tt, t)
    → (level : Level) × (name ≡ level_name level) × (set_default level s ≡ (ok tt, t))
unfolding new_logger
logger_lem set_default name s t h = elim (level_to_slog-cases name) [
  | inl (level, e, f) ↦ (level, e, ground (arith, f))
  | inr e ↦ ground (arith, e)
]

runtime-non_empty :
    {S C : Type 0} (dial : Text → Exec S C) (socket : Text) (s t : S) (c : C)
    → new_runtime dial socket s ≡ (ok c, t)
    → socket ≢ []
unfolding new_runtime
runtime-non_empty dial [] s t c h e = cc
runtime-non_empty dial (a ∷ rest) s t c h e = cc

-- Where the controller's process runs to its end, its log level was debug, info, warn or error and
-- the first that it did was to set the default logger to that level, the path of the container
-- runtime's socket was not empty, and the last that it did was to run the manager.
pub run_started :
    {S C P : Type 0} (w : HostController.Wiring S C P) (f : HostController.Flags) (s t : S)
    → HostController.run w f s ≡ (ok tt, t)
    → ((level : Level) × (f.log_level ≡ level_name level)
        × (u : S) × (w.set_default level s ≡ (ok tt, u)))
      × (f.cri_socket ≢ [])
      × (u : S) × (w.start u ≡ (ok tt, t))
unfolding HostController.run new_logger new_runtime
run_started {S} w f s t h =
    let (a, s1, e1, h1) =
      >>=-eq-ok (annotate "unable to init logger" (new_logger w.set_default f.log_level)) _ s h in
    let (level, named, set) =
      logger_lem w.set_default f.log_level s s1
        (annotate-eq-ok "unable to init logger" (new_logger w.set_default f.log_level) s e1) in
    let (b, s2, e2, h2) =
      >>=-eq-ok (annotate "unable to start manager" (w.new_manager (manager_options f))) _ s1 h1 in
    let (c, s3, e3, h3) =
      >>=-eq-ok (annotate "connect to crio" (new_runtime w.dial f.cri_socket)) _ s2 h2 in
    let (d, s4, e4, h4) =
      >>=-eq-ok
        (annotate "unable to create controller" (
          setup_with_manager w.predicates w.index_field (w.complete c (reconciler_of f)) f.node_name
            f.namespace))
        _ s3 h3 in
    let (x, s5, e5, h5) =
      >>=-eq-ok (annotate "unable to set up health check" (w.add_healthz_check (codes "healthz"))) _
        s4 h4 in
    let (y, s6, e6, h6) =
      >>=-eq-ok (annotate "unable to set up ready check" (w.add_readyz_check (codes "readyz"))) _ s5
        h5 in
    (
      (level, named, s1, set),
      λ empty.
          runtime-non_empty w.dial f.cri_socket s2 s3 c
            (annotate-eq-ok "connect to crio" (new_runtime w.dial f.cri_socket) s2 e3) empty,
      s6,
      annotate-eq-ok "problem running manager" w.start s6 h6,
    )
