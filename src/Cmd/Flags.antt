-- ===== src/Cmd/Flags.antt =====
-- Package flag, as far as the two processes use it: the flags that are registered with their
-- defaults, and the values that they have once the command line is parsed.
use pierre.Base.{ℕ, Bool, Text}

pub data Flag : Type 0 where
  string_flag : Text → Text → Flag  -- the name and the default
  bool_flag : Text → Bool → Flag
  int_flag : Text → ℕ → Flag

-- The values by the names of the flags.
pub record Values : Type 0 where
  pub string : Text → Text
  pub bool : Text → Bool
  pub int : Text → ℕ
