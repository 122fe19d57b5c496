-- ===== src/Cpu/Options.antt =====
-- plugins/check_cpu.c: the options and the arguments.
use nagios_plugins_linux.Base.{
  Bool, true, false, ◌&&◌, not, [], ◌∷◌, List, Option, none, some, Bytes, codes, starts_with, drop,
  length, ltb, if◌then◌else◌,
}
use nagios_plugins_linux.Messages.{
  state_ok, state_unknown, Outcome, returns, exits, plugin_error, ◌>>=◌,
}
use nagios_plugins_linux.Program.Arguments.{Arguments, read_arguments}
use nagios_plugins_linux.Thresholds.{thresholds_expressed_as_percentages}

-- The variables of `main` that the options set.
pub record Settings : Type 0 where
  pub verbose : Bool
  pub cpu_model : Bool
  pub per_cpu_stats : Bool
  pub critical : Option Bytes
  pub warning : Option Bytes

abbrev pub defaults : Settings
defaults = record {
  verbose = false;
  cpu_model = true;
  per_cpu_stats = false;
  critical = none;
  warning = none;
}

-- What `getopt_long` returns, with `optarg`.
pub data Opt : Type 0 where
  opt_cpuinfo opt_no_cpu_model opt_per_cpu opt_verbose opt_help opt_version : Opt
  opt_unrecognized : Opt
  opt_critical opt_warning : Bytes → Opt

-- `--cpuinfo` prints the description of the processors and returns STATE_UNKNOWN.
switch_option : Opt → Settings → Outcome Settings
switch_option opt_cpuinfo s = exits state_unknown
switch_option opt_no_cpu_model s = returns (record s { cpu_model = false })
switch_option opt_per_cpu s = returns (record s { per_cpu_stats = true })
switch_option (opt_critical optarg) s = returns (record s { critical = some optarg })
switch_option (opt_warning optarg) s = returns (record s { warning = some optarg })
switch_option opt_verbose s = returns (record s { verbose = true })
switch_option opt_help s = exits state_ok
switch_option opt_version s = exits state_ok
switch_option opt_unrecognized s = exits state_unknown

unfoldable pub process_options : List Opt → Settings → Outcome Settings
unfolding switch_option
process_options [] s = returns s
process_options (opt ∷ opts) s = switch_option opt s >>= λ s'. process_options opts s'

-- The name behind `check_`, `p`.
unfoldable pub program_part : Bytes → Outcome Bytes
program_part program_name =
    if ltb 6 (length program_name) && starts_with (codes "check_") program_name
    then returns (drop 6 program_name)
    else plugin_error state_unknown

-- The settings and the arguments, after the test of the thresholds.
unfoldable pub read_command_line : List Opt → List Bytes → Outcome (Settings × Arguments)
unfolding process_options thresholds_expressed_as_percentages read_arguments
read_command_line opts args = process_options opts defaults >>= λ s.
    if not (thresholds_expressed_as_percentages s.warning s.critical)
    then exits state_unknown
    else read_arguments args >>= λ a. returns (s, a)
