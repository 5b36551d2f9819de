-- ===== src/Frr/Apply.antt =====
-- internal/frr: the application of a configuration (generateAndReloadConfigFile in config.go, and
-- frr.go).
use pierre.Base.{Text, Result, ok, err}
use pierre.Frr.Config.{Config}
use pierre.Frr.Template.{template_config}

-- The updater is a function on the state of the machine. The configuration goes to the updater only when it could be rendered.
module _ {ℓ} {S : Type ℓ} (updater : Text → S → Result (Unit {0}) × S) where
  unfoldable pub generate_and_reload_config_file : Config → S → Result (Unit {0}) × S
  unfolding template_config
  generate_and_reload_config_file config s = elim (template_config config) [
    | err e ↦ (err e, s)
    | ok text ↦ updater text s
  ]

  -- frr.go, ApplyConfig. `os_hostname` is os.Hostname.
  unfoldable pub apply_config : Result Text → Config → S → Result (Unit {0}) × S
  unfolding generate_and_reload_config_file
  apply_config (err e) config s = (err e, s)
  apply_config (ok hostname) config s =
      generate_and_reload_config_file (record config { hostname = hostname }) s
