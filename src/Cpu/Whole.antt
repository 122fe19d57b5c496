-- ===== src/Cpu/Whole.antt =====
-- plugins/check_cpu.c: the whole run, from the name of the program to the status.
pub mod Worst
use nagios_plugins_linux.Base.{
  ℕ, zero, suc, ◌+◌, ◌-◌, Bool, true, false, not, [], ◌∷◌, List, Option, none, some, Bytes,
  if◌then◌else◌,
}
use nagios_plugins_linux.Base.Int.{ℤ, pos, ◌+ℤ◌, pos_part}
use nagios_plugins_linux.Base.Double.{Double}
use nagios_plugins_linux.Messages.{
  NagStatus, state_unknown, Outcome, returns, exits, plugin_error, ◌>>=◌,
}
use nagios_plugins_linux.Thresholds.{Thresholds}
use nagios_plugins_linux.Program.{thresholds_or_usage}
use nagios_plugins_linux.Program.Arguments.{Arguments}
use nagios_plugins_linux.Cpudesc.{CpuDesc, cpu_desc_new, cpu_desc_read}
use nagios_plugins_linux.Cpu.{Share, Measured, shares, stopped, overrun, measure, cpu_status}
use nagios_plugins_linux.Cpu.Options.{Settings, Opt, program_part, read_command_line}

-- What the program finds: whether sysfs is mounted, the memory for the description, /proc/cpuinfo,
-- the machine of `uname`, the numbers of processors, and /proc/stat at each of its readings.
pub record System : Type 0 where
  pub mounted : Bool
  pub allocated : Bool
  pub cpuinfo : Option (List Bytes)
  pub machine : Option Bytes
  pub total : ℤ
  pub kernel_max : ℤ
  pub stat : ℕ → Option (List Bytes)

-- The texts of /proc/stat at the readings from `i` on, with the number of those left.
abbrev pub stats_from : (ℕ → Option (List Bytes)) → ℕ → ℕ → List (Option (List Bytes))
stats_from stat zero i = []
stats_from stat (suc left) i = stat i ∷ stats_from stat left (suc i)

abbrev pub ncpus_of : Bool → ℤ → ℕ
ncpus_of per_cpu_stats total = if per_cpu_stats then pos_part (◌+ℤ◌ total (pos 1)) else 1

-- The shares are those that the figures are printed from.
pub record Report : Type 0 where
  pub status : NagStatus
  pub model : Option Bytes
  pub shares : List Share

-- What the run comes to: a report, an end of the process, or a write past the end of an array.
pub data Run : Type 0 where
  reports : Report → Run
  ends : NagStatus → Run
  overruns : Run

-- A call that may end the process.
and_then : {A : Type 0} → Outcome A → (A → Run) → Run
and_then (returns a) f = f a
and_then (exits status) f = ends status

and_measured : Measured → (List Share → Run) → Run
and_measured (shares ss) f = f ss
and_measured (stopped status) f = ends status
and_measured overrun f = overruns

abbrev pub model_of : Bool → Option CpuDesc → Option Bytes
model_of true (some cpudesc) = cpudesc.modelname
model_of _ _ = none

module _ (d : Double) (to_float : d.D → d.D) (scan_total scan_cpu : Bytes → List ℕ)
    (cpu_name : ℕ → Bytes) where
  -- The measurement of `main`, one reading at least.
  abbrev pub measured : System → Settings → Arguments → Measured
  measured system s a =
      measure scan_total scan_cpu cpu_name (ncpus_of s.per_cpu_stats system.total) (system.stat 0)
        (stats_from system.stat (a.count - 1) 1)

  decide : System → Bytes → Settings → Thresholds d → List Share → Run
  unfolding and_then cpu_desc_new cpu_desc_read cpu_status
  decide system p s t ss =
      and_then
        (cpu_desc_read system.cpuinfo system.machine system.total system.kernel_max
          (cpu_desc_new true).1)
        λ described. reports (record {
          status = cpu_status d to_float p t ss;
          model = model_of s.cpu_model described;
          shares = ss;
        })

  unfoldable pub main : Bytes → List Opt → List Bytes → System → Run
  unfolding and_then and_measured program_part read_command_line thresholds_or_usage measure decide
  main program_name opts args system = and_then (program_part program_name) λ p.
      if not system.mounted
      then ends state_unknown
      else if not system.allocated
      then ends state_unknown
      else and_then (read_command_line opts args) λ (s, a).
        and_then (thresholds_or_usage d s.warning s.critical)
          λ t. and_measured (measured system s a) λ ss. decide system p s t ss
