-- ===== src/Messages.antt =====
-- lib/messages.c and the exit statuses of include/common.h.
pub mod Worst
use nagios_plugins_linux.Base.{String}

pub data NagStatus : Type 0 where
  state_ok state_warning state_critical state_unknown state_dependent : NagStatus

unfoldable pub state_text : NagStatus → String
state_text state_ok = "OK"
state_text state_warning = "WARNING"
state_text state_critical = "CRITICAL"
state_text state_dependent = "DEPENDENT"
state_text _ = "UNKNOWN"

-- What a call does: it returns, or it ends the process through `plugin_error` (or `usage`), which
-- prints a message and calls `exit` with the status given.
pub data Outcome {ℓ} (A : Type ℓ) : Type ℓ where
  returns : A → Outcome A
  exits : NagStatus → Outcome A

infixl 5 ◌>>=◌
abbrev pub ◌>>=◌ {ℓ κ} : {A : Type ℓ} {B : Type κ} → Outcome A → (A → Outcome B) → Outcome B
returns a >>= f = f a
exits s >>= f = exits s

-- The text after the program's name is not modelled.
unfoldable pub plugin_error {ℓ} : {A : Type ℓ} → NagStatus → Outcome A
plugin_error status = exits status
