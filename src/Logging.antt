-- ===== src/Logging.antt =====
-- internal/logging/logging.go: the level of a logger, by its name, and the default logger.
use pierre.Base.{
  ◌≡◌, ◌⊎◌, Text, codes, eq_text, eq_text_iff, Result, ok, err, errorf, if◌then◌else◌, Bool-cases,
  inl, inr, arith,
}
use pierre.Base.Exec.{Exec, lift, ◌>>=◌}

-- slog.Level
pub data Level : Type 0 where
  level_debug level_info level_warn level_error : Level

unfoldable pub level_to_slog : Text → Result Level
level_to_slog level =
    if eq_text level (codes "debug")
    then ok level_debug
    else if eq_text level (codes "info")
    then ok level_info
    else if eq_text level (codes "warn")
    then ok level_warn
    else if eq_text level (codes "error")
    then ok level_error
    else err (errorf "invalid log level")

-- New. `set_default` is slog.SetDefault, of a JSON handler with the level.
unfoldable pub new_logger : {State : Type 0} → (Level → Exec State Unit) → Text → Exec State Unit
unfolding level_to_slog
new_logger set_default level = do log_level ← lift (level_to_slog level); set_default log_level

-- The name of a level on the command line.
abbrev pub level_name : Level → Text
level_name level_debug = codes "debug"
level_name level_info = codes "info"
level_name level_warn = codes "warn"
level_name level_error = codes "error"

-- A text is the name of a level, or it is refused.
pub level_to_slog-cases :
    (t : Text)
    → ((level : Level) × (t ≡ level_name level) × (level_to_slog t ≡ ok level))
      ⊎ (level_to_slog t ≡ err (errorf "invalid log level"))
unfolding level_to_slog
level_to_slog-cases t = elim (Bool-cases (eq_text t (codes "debug"))) [
  | inl a ↦ inl (level_debug, (eq_text_iff _ _).0 a, ground (arith, a))
  | inr a ↦ elim (Bool-cases (eq_text t (codes "info"))) [
    | inl b ↦ inl (level_info, (eq_text_iff _ _).0 b, ground (arith, a, b))
    | inr b ↦ elim (Bool-cases (eq_text t (codes "warn"))) [
      | inl c ↦ inl (level_warn, (eq_text_iff _ _).0 c, ground (arith, a, b, c))
      | inr c ↦ elim (Bool-cases (eq_text t (codes "error"))) [
        | inl d ↦ inl (level_error, (eq_text_iff _ _).0 d, ground (arith, a, b, c, d))
        | inr d ↦ inr (ground (arith, a, b, c, d))
      ]
    ]
  ]
]
