-- ===== src/Program.antt =====
-- What the programs of plugins/ do alike: the loop of getopt_long, the thresholds of the command
-- line, and two readings in turn.
pub mod Arguments
pub mod Ladder
pub mod Rates
pub mod Options
use nagios_plugins_linux.Base.{
  ℕ, Bool, true, false, [], ◌∷◌, List, Option, none, some, Bytes, ◌==◌, if◌then◌else◌,
}
use nagios_plugins_linux.Base.Double.{Double}
use nagios_plugins_linux.Messages.{state_ok, state_unknown, Outcome, returns, exits, ◌>>=◌}
use nagios_plugins_linux.Thresholds.{Thresholds, set_thresholds, unparseable}

-- The loop over what `getopt_long` returns, with the program's `switch`.
unfoldable pub getopt_loop : {O S : Type 0} → (O → S → Outcome S) → List O → S → Outcome S
getopt_loop switch [] s = returns s
getopt_loop switch (opt ∷ opts) s = switch opt s >>= λ s'. getopt_loop switch opts s'

module _ (d : Double) where
  -- `usage (stderr)` where a range cannot be parsed; `my_threshold` is not null where
  -- `set_thresholds` returns 0.
  known_thresholds : ℕ × Option (Thresholds d) → Outcome (Thresholds d)
  known_thresholds (code, none) = exits state_unknown
  known_thresholds (code, some t) = if code == unparseable then exits state_unknown else returns t

  unfoldable pub thresholds_or_usage : Option Bytes → Option Bytes → Outcome (Thresholds d)
  unfolding set_thresholds known_thresholds
  thresholds_or_usage warning critical =
      set_thresholds d true none warning critical >>= known_thresholds

-- The options of a program that has thresholds and `--verbose` only.
pub record Limits : Type 0 where
  pub verbose : Bool
  pub critical : Option Bytes
  pub warning : Option Bytes

abbrev pub no_limits : Limits
no_limits = record { verbose = false; critical = none; warning = none }

pub data Opt : Type 0 where
  opt_verbose opt_help opt_version opt_unrecognized : Opt
  opt_critical opt_warning : Bytes → Opt

unfoldable pub switch_option : Opt → Limits → Outcome Limits
switch_option (opt_critical optarg) s = returns (record s { critical = some optarg })
switch_option (opt_warning optarg) s = returns (record s { warning = some optarg })
switch_option opt_verbose s = returns (record s { verbose = true })
switch_option opt_help s = exits state_ok
switch_option opt_version s = exits state_ok
switch_option opt_unrecognized s = exits state_unknown

-- An array of two, indexed by the toggle switch.
pub record Slots : Type 0 where
  pub first : ℕ
  pub second : ℕ

abbrev pub slot : Bool → Slots → ℕ
slot false s = s.first
slot true s = s.second

abbrev pub put : Bool → ℕ → Slots → Slots
put false v s = record s { first = v }
put true v s = record s { second = v }
