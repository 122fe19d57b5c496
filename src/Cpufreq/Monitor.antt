-- ===== src/Cpufreq/Monitor.antt =====
-- plugins/check_cpufreq.c: the current frequency of every processor against the thresholds, over
-- the sysfs parser.
pub mod Worst
use nagios_plugins_linux.Base.{
  ℕ, zero, suc, ◌+◌, Bool, true, false, not, ◌&&◌, [], ◌∷◌, List, Option, none, some, Bytes, ltb,
  ◌==◌, if◌then◌else◌,
}
use nagios_plugins_linux.Base.Int.{ℤ, pos, negsuc, pos_part}
use nagios_plugins_linux.Base.Double.{Double}
use nagios_plugins_linux.Messages.{
  NagStatus, state_ok, state_unknown, Outcome, returns, exits, plugin_error, ◌>>=◌,
}
use nagios_plugins_linux.Messages.Worst.{worse}
use nagios_plugins_linux.Thresholds.{Thresholds, get_status}
use nagios_plugins_linux.Program.{getopt_loop, thresholds_or_usage}
use nagios_plugins_linux.Cpudesc.{CpuDesc, cpu_desc_new, cpu_desc_read}
use nagios_plugins_linux.Sysfs.{File, cpufreq_get_freq_kernel, cpufreq_get_hardware_limits}

-- The unit of the performance data, which `factor` stands for.
pub data Scale : Type 0 where
  hz khz mhz ghz : Scale

-- `unit_convert` of a value by the `float` of a unit.
abbrev UnitConvert : Type 0
UnitConvert = Scale → ℕ → ℕ

-- The variables of `main` that the options set.
pub record Settings : Type 0 where
  pub cpu_model : Bool
  pub critical : Option Bytes
  pub warning : Option Bytes
  pub factor : Scale

abbrev pub defaults : Settings
defaults = record { cpu_model = true; critical = none; warning = none; factor = khz }

pub data Opt : Type 0 where
  opt_no_cpu_model opt_hz opt_khz opt_mhz opt_ghz opt_help opt_version opt_unrecognized : Opt
  opt_critical opt_warning : Bytes → Opt

unfoldable pub switch_option : Opt → Settings → Outcome Settings
switch_option opt_no_cpu_model s = returns (record s { cpu_model = false })
switch_option (opt_critical optarg) s = returns (record s { critical = some optarg })
switch_option (opt_warning optarg) s = returns (record s { warning = some optarg })
switch_option opt_hz s = returns (record s { factor = hz })
switch_option opt_khz s = returns (record s { factor = khz })
switch_option opt_mhz s = returns (record s { factor = mhz })
switch_option opt_ghz s = returns (record s { factor = ghz })
switch_option opt_help s = exits state_ok
switch_option opt_version s = exits state_ok
switch_option opt_unrecognized s = exits state_unknown

-- `cpu%d_freq=%llu;;;%llu;%llu`
pub record Figure : Type 0 where
  pub cpu : ℕ
  pub freq : ℕ
  pub min : ℕ
  pub max : ℕ

-- The figure of a processor, where all three frequencies are known.
figure_of : (ℕ → ℕ) → ℕ → ℕ → ℤ × ℕ × ℕ → List Figure → List Figure
figure_of convert c freq_kernel (negsuc n, freq_min, freq_max) figures = figures
figure_of convert c freq_kernel (pos n, freq_min, freq_max) figures =
    if freq_kernel == 0
    then figures
    else record {
      cpu = c;
      freq = convert freq_kernel;
      min = convert freq_min;
      max = convert freq_max;
    }
      ∷ figures

-- The loop of the performance data, from the processor `c` on, with the number of those left.
unfoldable pub figures_from : (ℕ → ℕ) → (File → Option Bytes) → ℕ → ℕ → List Figure
unfolding figure_of cpufreq_get_freq_kernel cpufreq_get_hardware_limits
figures_from convert sysfs zero c = []
figures_from convert sysfs (suc left) c =
    figure_of convert c (cpufreq_get_freq_kernel sysfs c) (cpufreq_get_hardware_limits sysfs c 0 0)
      (figures_from convert sysfs left (c + 1))

-- The model that is shown; `xasprintf` writes what the field holds.
unfoldable pub model_of : Bool → Option CpuDesc → Option Bytes
model_of true (some cpudesc) = cpudesc.modelname
model_of true none = none
model_of false cpudesc = none

pub record Report : Type 0 where
  pub status : NagStatus
  pub model : Option Bytes
  pub figures : List Figure

-- What the program finds: whether sysfs is mounted, the memory for the description, /proc/cpuinfo,
-- the machine of `uname`, the numbers of processors, and sysfs at its two passes.
pub record System : Type 0 where
  pub mounted : Bool
  pub allocated : Bool
  pub cpuinfo : Option (List Bytes)
  pub machine : Option Bytes
  pub ncpus : ℤ
  pub kernel_max : ℤ
  pub sysfs : File → Option Bytes
  pub sysfs_after : File → Option Bytes

-- `err < 0`
new_or_exit : ℤ × Option CpuDesc → Outcome (Option CpuDesc)
new_or_exit (pos n, cpudesc) = returns cpudesc
new_or_exit (negsuc n, cpudesc) = plugin_error state_unknown

module _ (d : Double) where
  -- The loop of the status, from the processor `c` on, with the number of those left.
  unfoldable pub status_from : Thresholds d → (File → Option Bytes) → ℕ → ℕ → NagStatus → NagStatus
  unfolding cpufreq_get_freq_kernel get_status worse
  status_from t sysfs zero c status = status
  status_from t sysfs (suc left) c status =
      let freq_kernel = cpufreq_get_freq_kernel sysfs c in
      status_from t sysfs left (c + 1) (
        if ltb 0 freq_kernel
        then worse (get_status d (d.of_ℤ (pos freq_kernel)) t) status
        else status)

  report : UnitConvert → System → Settings → Thresholds d → Option CpuDesc → Report
  unfolding status_from figures_from model_of
  report unit_convert system s t cpudesc = record {
    status = status_from t system.sysfs (pos_part system.ncpus) 0 state_ok;
    model = model_of s.cpu_model cpudesc;
    figures = figures_from (unit_convert s.factor) system.sysfs_after (pos_part system.ncpus) 0;
  }

  unfoldable pub main : UnitConvert → List Opt → System → Outcome Report
  unfolding getopt_loop switch_option thresholds_or_usage cpu_desc_new cpu_desc_read new_or_exit
      report
  main unit_convert opts system =
      if not system.mounted
      then exits state_unknown
      else new_or_exit (cpu_desc_new system.allocated) >>= λ cpudesc.
          getopt_loop switch_option opts defaults >>= λ s.
          thresholds_or_usage d s.warning s.critical >>= λ t.
          cpu_desc_read system.cpuinfo system.machine system.ncpus system.kernel_max cpudesc
          >>= λ described. returns (report unit_convert system s t described)
