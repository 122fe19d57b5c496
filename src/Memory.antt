-- ===== src/Memory.antt =====
-- plugins/check_memory.c: the memory used or available, as a percentage of the total, against the
-- thresholds. The figures shown besides are output.
pub mod Outcomes
use nagios_plugins_linux.Base.{
  ℕ, ◌+◌, Bool, true, false, ◌&&◌, ◌||◌, not, [], ◌∷◌, List, Option, none, some, Bytes, codes,
  streq, ◌==◌, if◌then◌else◌, sub64,
}
use nagios_plugins_linux.Base.Int.{ℤ, pos, negsuc}
use nagios_plugins_linux.Base.Double.{Double}
use nagios_plugins_linux.Messages.{
  NagStatus, state_ok, state_unknown, Outcome, returns, exits, plugin_error, ◌>>=◌,
}
use nagios_plugins_linux.Thresholds.{
  Thresholds, set_thresholds, thresholds_expressed_as_percentages, get_status, unparseable,
}
use nagios_plugins_linux.Perfdata.{
  UnitShift, b_shift, k_shift, m_shift, g_shift, Limit, get_perfdata_limit_converted,
}
use nagios_plugins_linux.Procparser.{Bsearch}
use nagios_plugins_linux.Meminfo.{
  ProcSysmemData, ProcSysmem, proc_sysmem_new, proc_sysmem_read, proc_sysmem_get,
}

-- The variables of `main` that the options set; `available` is whether `kb_mem_monitored` points to
-- `kb_mem_main_available`, and not to `kb_mem_main_used`.
pub record Settings : Type 0 where
  pub available : Bool
  pub vmem_perfdata : Bool
  pub shift : UnitShift
  pub units : Option Bytes
  pub critical : Option Bytes
  pub warning : Option Bytes

abbrev pub defaults : Settings
defaults = record {
  available = false;
  vmem_perfdata = false;
  shift = k_shift;
  units = none;
  critical = none;
  warning = none;
}

-- What `getopt_long` returns, with `optarg`.
pub data Opt : Type 0 where
  opt_available opt_caches opt_vmstats opt_bytes opt_kilobytes opt_megabytes : Opt
  opt_gigabytes opt_help opt_version opt_unrecognized : Opt
  opt_critical opt_warning opt_units : Bytes → Opt

-- The option `--units`.
unit_shift_of : Bytes → Option UnitShift
unit_shift_of s =
    if streq s (codes "B") || streq s (codes "bytes")
    then some b_shift
    else if streq s (codes "kB") || streq s (codes "KiB")
    then some k_shift
    else if streq s (codes "MB") || streq s (codes "MiB")
    then some m_shift
    else if streq s (codes "GB") || streq s (codes "GiB")
    then some g_shift
    else none

with_units : Option UnitShift → Bytes → Settings → Outcome Settings
with_units none optarg s = plugin_error state_unknown
with_units (some shift) optarg s = returns (record s { shift = shift; units = some optarg })

switch_option : Opt → Settings → Outcome Settings
unfolding unit_shift_of with_units
switch_option opt_available s = returns (record s { available = true })
switch_option opt_caches s = returns s
switch_option opt_vmstats s = returns (record s { vmem_perfdata = true })
switch_option (opt_critical optarg) s = returns (record s { critical = some optarg })
switch_option (opt_warning optarg) s = returns (record s { warning = some optarg })
switch_option opt_bytes s = returns (record s { shift = b_shift; units = some (codes "B") })
switch_option opt_kilobytes s = returns (record s { shift = k_shift; units = some (codes "kB") })
switch_option opt_megabytes s = returns (record s { shift = m_shift; units = some (codes "MB") })
switch_option opt_gigabytes s = returns (record s { shift = g_shift; units = some (codes "GB") })
switch_option (opt_units optarg) s = with_units (unit_shift_of optarg) optarg s
switch_option opt_help s = exits state_ok
switch_option opt_version s = exits state_ok
switch_option opt_unrecognized s = exits state_unknown

unfoldable pub process_options : List Opt → Settings → Outcome Settings
unfolding switch_option
process_options [] s = returns s
process_options (opt ∷ opts) s = switch_option opt s >>= λ s'. process_options opts s'

-- What is reported: the status, and the two limits of the performance data with what
-- `get_perfdata_limit_converted` returned; the limits are not initialised otherwise.
pub record Report : Type 0 where
  pub status : NagStatus
  pub warning_limit : Limit
  pub critical_limit : Limit

is_negative : ℤ → Bool
is_negative (pos n) = false
is_negative (negsuc n) = true

unfoldable pub monitored : Settings → Option ProcSysmem → ℕ
unfolding proc_sysmem_get
monitored s sysmem =
    if s.available
    then proc_sysmem_get (λ (m : ProcSysmemData). m.kb_main_available) sysmem
    else proc_sysmem_get (λ (m : ProcSysmemData). m.kb_main_used) sysmem

-- `to_float` is the conversion of a `double` to `float` and back.
module _ (d : Double) (to_float : d.D → d.D) where
  unfoldable pub mem_percent : ℕ → ℕ → d.D
  mem_percent kb total =
      if total == 0
      then to_float (d.of_ℤ (pos 0))
      else to_float (d.div (d.mul (d.of_ℤ (pos kb)) (d.of_ℤ (pos 100))) (d.of_ℤ (pos total)))

-- `uninitialised` is what the limits hold before.
module _ (d : Double) (to_float : d.D → d.D) (b : Bsearch) (uninitialised : ℕ) where
  -- From the getters on, with the structure that was read.
  unfoldable pub report : Settings → Thresholds d → Option ProcSysmem → Report
  unfolding monitored mem_percent get_status get_perfdata_limit_converted proc_sysmem_get
  report s my_threshold sysmem =
      let total = proc_sysmem_get (λ (m : ProcSysmemData). m.kb_main_total) sysmem in
      record {
        status = get_status d (mem_percent d to_float (monitored s sysmem) total) my_threshold;
        warning_limit =
            get_perfdata_limit_converted d my_threshold.warning total s.shift uninitialised true;
        critical_limit =
            get_perfdata_limit_converted d my_threshold.critical total s.shift uninitialised true;
      }

  -- From `proc_sysmem_new` on, with what it returns.
  read_and_report :
      Option (List Bytes)
      → Bool
      → ℕ
      → Settings
      → Thresholds d
      → ℤ × Option ProcSysmem
      → Outcome Report
  unfolding proc_sysmem_read report is_negative
  read_and_report lines old_kernel kb_min_free s t new =
      if is_negative new.0
      then plugin_error state_unknown
      else proc_sysmem_read b lines old_kernel kb_min_free new.1 >>= λ sysmem.
          returns (report s t sysmem)

  -- `my_threshold` is not null where `set_thresholds` returns 0.
  from_thresholds : (Thresholds d → Outcome Report) → ℕ × Option (Thresholds d) → Outcome Report
  from_thresholds continue (code, none) = exits state_unknown
  from_thresholds continue (code, some t) =
      if code == unparseable then exits state_unknown else continue t

  -- `first` and `second` are whether the two calls of `calloc` return memory.
  behind_options : Option (List Bytes) → Bool → ℕ → Bool → Bool → Settings → Outcome Report
  unfolding thresholds_expressed_as_percentages set_thresholds from_thresholds read_and_report
      proc_sysmem_new
  behind_options lines old_kernel kb_min_free first second s =
      if not (thresholds_expressed_as_percentages s.warning s.critical)
      then exits state_unknown
      else set_thresholds d true none s.warning s.critical >>= λ r.
          from_thresholds
            (λ t.
              read_and_report lines old_kernel kb_min_free s t (proc_sysmem_new first second none))
            r

  -- `main`: `lines` is /proc/meminfo, and the kernel's version and its free memory are those of
  -- lib/meminfo.c.
  unfoldable pub main : List Opt → Option (List Bytes) → Bool → ℕ → Bool → Bool → Outcome Report
  unfolding process_options behind_options
  main opts lines old_kernel kb_min_free first second = process_options opts defaults >>= λ s.
      behind_options lines old_kernel kb_min_free first second s
