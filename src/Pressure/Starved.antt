-- ===== src/Pressure/Starved.antt =====
-- plugins/check_pressure.c: the starvation of a second against the thresholds.
use nagios_plugins_linux.Base.{
  ℕ, Bool, true, false, [], ◌∷◌, List, Option, none, some, Bytes, if◌then◌else◌,
}
use nagios_plugins_linux.Base.Int.{pos, bits64}
use nagios_plugins_linux.Base.Double.{Double}
use nagios_plugins_linux.Messages.{
  NagStatus, state_ok, state_unknown, Outcome, returns, exits, ◌>>=◌,
}
use nagios_plugins_linux.Thresholds.{Thresholds, get_status}
use nagios_plugins_linux.Xstrton.{strtol_or_err}
use nagios_plugins_linux.Program.{getopt_loop, thresholds_or_usage}
use nagios_plugins_linux.Program.Arguments.{checked_delay}
use nagios_plugins_linux.Pressure.{
  ProcPsiOneline, ProcPsiTwolines, proc_psi_read_cpu, proc_psi_read,
}

-- `enum linux_psi_id`
pub data LinuxPsiId : Type 0 where
  linux_psi_none linux_psi_cpu linux_psi_io linux_psi_memory : LinuxPsiId

-- The variables of `main` that the options set; `prefix` and `proc_psi_read` go with the mode.
pub record Settings : Type 0 where
  pub threshold_full : Bool
  pub pressure_mode : LinuxPsiId
  pub critical : Option Bytes
  pub warning : Option Bytes

abbrev pub defaults : Settings
defaults = record {
  threshold_full = false;
  pressure_mode = linux_psi_none;
  critical = none;
  warning = none;
}

pub data Opt : Type 0 where
  opt_cpu opt_full opt_io opt_memory opt_verbose opt_help opt_version opt_unrecognized : Opt
  opt_critical opt_warning : Bytes → Opt

-- There is no case for `--verbose`.
unfoldable pub switch_option : Opt → Settings → Outcome Settings
switch_option opt_cpu s = returns (record s { pressure_mode = linux_psi_cpu })
switch_option (opt_critical optarg) s = returns (record s { critical = some optarg })
switch_option opt_full s = returns (record s { threshold_full = true })
switch_option opt_io s = returns (record s { pressure_mode = linux_psi_io })
switch_option opt_memory s = returns (record s { pressure_mode = linux_psi_memory })
switch_option (opt_warning optarg) s = returns (record s { warning = some optarg })
switch_option opt_verbose s = exits state_unknown
switch_option opt_help s = exits state_ok
switch_option opt_version s = exits state_ok
switch_option opt_unrecognized s = exits state_unknown

unfoldable pub process_options : List Opt → Outcome Settings
unfolding getopt_loop switch_option
process_options opts = getopt_loop switch_option opts defaults

-- `usage (stderr)` for these.
abbrev pub is_usage : LinuxPsiId → Bool → Bool
is_usage linux_psi_none full = true
is_usage linux_psi_cpu full = full
is_usage mode full = false

unfoldable pub read_delay : List Bytes → Outcome ℕ
unfolding strtol_or_err checked_delay
read_delay [] = returns 1
read_delay (arg ∷ args) = strtol_or_err (some arg) >>= λ n. checked_delay (bits64 n)

-- The contents of a file of /proc/pressure at each of the four times it may be read.
pub record Psi : Type 0 where
  pub before : Option (List Bytes)
  pub before_full : Option (List Bytes)
  pub after : Option (List Bytes)
  pub after_full : Option (List Bytes)

module _ (d : Double) where
  -- What is printed and returned; the averages are those of the reader.
  pub data Report : Type 0 where
    cpu_report : NagStatus → ProcPsiOneline d.D → ℕ → Report
    two_report : NagStatus → ProcPsiTwolines d.D → ℕ → ℕ → Report

  -- `scan` is `sscanf` of lib/pressure.c.
  module _ (scan : ℕ → Bytes → Option (ProcPsiOneline d.D)) where
    abbrev pub two_lines : Settings → Thresholds d → ProcPsiTwolines d.D × ℕ × ℕ → Outcome Report
    two_lines s my_threshold (psi, starvation0, starvation1) = returns (
        two_report
          (get_status d (d.of_ℤ (pos (if s.threshold_full then starvation1 else starvation0)))
            my_threshold)
          psi starvation0 starvation1)

    abbrev one_line : Thresholds d → ProcPsiOneline d.D × ℕ → Outcome Report
    one_line my_threshold (psi, starvation) =
        returns (cpu_report (get_status d (d.of_ℤ (pos starvation)) my_threshold) psi starvation)

    unfoldable pub read_mode :
        LinuxPsiId → ℕ → Psi → Psi → Psi → Settings → Thresholds d → Outcome Report
    unfolding proc_psi_read_cpu proc_psi_read get_status
    read_mode linux_psi_none delay cpu io memory s t = exits state_unknown
    read_mode linux_psi_cpu delay cpu io memory s t =
        proc_psi_read_cpu scan delay cpu.before cpu.after >>= λ r. one_line t r
    read_mode linux_psi_io delay cpu io memory s t =
        proc_psi_read scan delay io.before io.before_full io.after io.after_full >>= λ r.
        two_lines s t r
    read_mode linux_psi_memory delay cpu io memory s t =
        proc_psi_read scan delay memory.before memory.before_full memory.after memory.after_full
        >>= λ r. two_lines s t r

    unfoldable pub main : List Opt → List Bytes → Psi → Psi → Psi → Outcome Report
    unfolding process_options thresholds_or_usage read_delay read_mode
    main opts args cpu io memory = process_options opts >>= λ s.
        if is_usage s.pressure_mode s.threshold_full
        then exits state_unknown
        else thresholds_or_usage d s.warning s.critical >>= λ t.
            read_delay args >>= λ delay. read_mode s.pressure_mode delay cpu io memory s t
