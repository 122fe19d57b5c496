-- ===== src/Swap.antt =====
-- plugins/check_swap.c: the swap space used, as a percentage of the total, against the thresholds,
-- and the figures shown.
pub mod Figures
use nagios_plugins_linux.Base.{
  ℕ, Bool, true, false, not, [], ◌∷◌, List, Option, none, some, Bytes, codes, ◌==◌, if◌then◌else◌,
  sub64,
}
use nagios_plugins_linux.Base.Int.{ℤ, pos, negsuc}
use nagios_plugins_linux.Base.Double.{Double}
use nagios_plugins_linux.Messages.{
  NagStatus, state_ok, state_unknown, Outcome, returns, exits, plugin_error, ◌>>=◌,
}
use nagios_plugins_linux.Thresholds.{
  Thresholds, set_thresholds, thresholds_expressed_as_percentages, get_status, unparseable,
}
use nagios_plugins_linux.Perfdata.{UnitShift, b_shift, k_shift, m_shift, g_shift, unit_convert}
use nagios_plugins_linux.Procparser.{Bsearch}
use nagios_plugins_linux.Meminfo.{
  ProcSysmemData, ProcSysmem, proc_sysmem_new, proc_sysmem_read, proc_sysmem_get,
  proc_sysmem_get_swap_used,
}
use nagios_plugins_linux.Vminfo.Table.{ProcVmemData}
use nagios_plugins_linux.Vminfo.{
  ProcVmem, Conversions, proc_vmem_new, proc_vmem_read, proc_vmem_get,
}

-- The variables of `main` that the options set.
pub record Settings : Type 0 where
  pub vmem_perfdata : Bool
  pub shift : UnitShift
  pub units : Option Bytes
  pub critical : Option Bytes
  pub warning : Option Bytes

abbrev pub defaults : Settings
defaults = record {
  vmem_perfdata = false;
  shift = k_shift;
  units = none;
  critical = none;
  warning = none;
}

-- What `getopt_long` returns, with `optarg`.
pub data Opt : Type 0 where
  opt_vmstats opt_byte opt_kilobyte opt_megabyte opt_gigabyte : Opt
  opt_help opt_version opt_unrecognized : Opt
  opt_critical opt_warning : Bytes → Opt

switch_option : Opt → Settings → Outcome Settings
switch_option opt_vmstats s = returns (record s { vmem_perfdata = true })
switch_option (opt_critical optarg) s = returns (record s { critical = some optarg })
switch_option (opt_warning optarg) s = returns (record s { warning = some optarg })
switch_option opt_byte s = returns (record s { shift = b_shift; units = some (codes "B") })
switch_option opt_kilobyte s = returns (record s { shift = k_shift; units = some (codes "kB") })
switch_option opt_megabyte s = returns (record s { shift = m_shift; units = some (codes "MB") })
switch_option opt_gigabyte s = returns (record s { shift = g_shift; units = some (codes "GB") })
switch_option opt_help s = exits state_ok
switch_option opt_version s = exits state_ok
switch_option opt_unrecognized s = exits state_unknown

unfoldable pub process_options : List Opt → Settings → Outcome Settings
unfolding switch_option
process_options [] s = returns s
process_options (opt ∷ opts) s = switch_option opt s >>= λ s'. process_options opts s'

abbrev units_of : Option Bytes → Bytes
units_of none = codes "kB"
units_of (some units) = units

is_negative : ℤ → Bool
is_negative (pos n) = false
is_negative (negsuc n) = true

-- What the system gives: /proc/meminfo with the kernel's version and free memory of
-- lib/meminfo.c, /proc/vmstat and /proc/stat at the two readings, and whether the calls of
-- `calloc` return memory.
pub record VmemFiles : Type 0 where
  pub vmstat : Option (List Bytes)
  pub stat : Option (List Bytes)

pub record System : Type 0 where
  pub meminfo : Option (List Bytes)
  pub old_kernel : Bool
  pub kb_min_free : ℕ
  pub first : VmemFiles
  pub second : VmemFiles
  pub sysmem_calloc : Bool × Bool
  pub vmem_calloc : Bool × Bool

-- What is printed behind the state: the swap figures in the unit asked for, and the pages of a
-- second with `--vmstats`.
pub record Shown : Type 0 where
  pub units : Bytes
  pub swap_total : ℕ
  pub swap_used : ℕ
  pub swap_free : ℕ
  pub swap_cached : ℕ
  pub dpswpin_dpswpout : Option (ℕ × ℕ)

pub record Report : Type 0 where
  pub status : NagStatus
  pub shown : Shown

-- The pages between two readings of the structure.
abbrev swapped : Option ProcVmem → Option ProcVmem → ℕ × ℕ
swapped vmem vmem' = (
  sub64 (proc_vmem_get (λ (d : ProcVmemData). d.pswpin) vmem')
      (proc_vmem_get (λ (d : ProcVmemData). d.pswpin) vmem),
  sub64 (proc_vmem_get (λ (d : ProcVmemData). d.pswpout) vmem')
      (proc_vmem_get (λ (d : ProcVmemData). d.pswpout) vmem),
)

-- `to_float` is the conversion of a `double` to `float` and back.
module _ (d : Double) (to_float : d.D → d.D) where
  unfoldable pub percent_used : ℕ → ℕ → d.D
  percent_used kb_swap_used kb_swap_total =
      if kb_swap_total == 0
      then to_float (d.of_ℤ (pos 0))
      else to_float (
          d.div (d.mul (d.of_ℤ (pos kb_swap_used)) (d.of_ℤ (pos 100))) (d.of_ℤ (pos kb_swap_total)))

  -- From `kb_swap_total != 0` on, with the structure that was read.
  unfoldable pub report : Settings → Thresholds d → Option ProcSysmem → Option (ℕ × ℕ) → Report
  unfolding percent_used get_status proc_sysmem_get proc_sysmem_get_swap_used unit_convert
  report s my_threshold sysmem pages =
      let kb_swap_total = proc_sysmem_get (λ (m : ProcSysmemData). m.kb_swap_total) sysmem in
      let kb_swap_free = proc_sysmem_get (λ (m : ProcSysmemData). m.kb_swap_free) sysmem in
      let kb_swap_cached = proc_sysmem_get (λ (m : ProcSysmemData). m.kb_swap_cached) sysmem in
      let kb_swap_used = proc_sysmem_get_swap_used sysmem in
      record {
        status = get_status d (percent_used kb_swap_used kb_swap_total) my_threshold;
        shown = record {
          units = units_of s.units;
          swap_total = unit_convert kb_swap_total s.shift;
          swap_used = unit_convert kb_swap_used s.shift;
          swap_free = unit_convert kb_swap_free s.shift;
          swap_cached = unit_convert kb_swap_cached s.shift;
          dpswpin_dpswpout = pages;
        };
      }

-- `scan` is `sscanf` of lib/vminfo.c.
module _ (b : Bsearch) (scan : Bytes → Bytes → Conversions) where
  swap_pages : System → ℤ × Option ProcVmem → Outcome (Option (ℕ × ℕ))
  unfolding is_negative proc_vmem_read proc_vmem_get
  swap_pages system new =
      if is_negative new.0
      then plugin_error state_unknown
      else proc_vmem_read b scan system.first.vmstat system.first.stat new.1 >>= λ vmem.
          proc_vmem_read b scan system.second.vmstat system.second.stat vmem >>= λ vmem'.
          returns (some (swapped vmem vmem'))

  -- The block of `vmem_perfdata`.
  unfoldable pub vmem_figures : Settings → System → Outcome (Option (ℕ × ℕ))
  unfolding swap_pages proc_vmem_new
  vmem_figures s system =
      if s.vmem_perfdata
      then swap_pages system (proc_vmem_new system.vmem_calloc.0 system.vmem_calloc.1 none)
      else returns none

  module _ (d : Double) (to_float : d.D → d.D) where
    -- From `proc_sysmem_new` on, with what it returns.
    read_and_report : Settings → System → Thresholds d → ℤ × Option ProcSysmem → Outcome Report
    unfolding proc_sysmem_read report is_negative vmem_figures
    read_and_report s system t new =
        if is_negative new.0
        then plugin_error state_unknown
        else proc_sysmem_read b system.meminfo system.old_kernel system.kb_min_free new.1
          >>= λ sysmem.
              vmem_figures s system >>= λ pages. returns (report d to_float s t sysmem pages)

    -- `my_threshold` is not null where `set_thresholds` returns 0.
    from_thresholds : Settings → System → ℕ × Option (Thresholds d) → Outcome Report
    unfolding read_and_report proc_sysmem_new
    from_thresholds s system (code, none) = exits state_unknown
    from_thresholds s system (code, some t) =
        if code == unparseable
        then exits state_unknown
        else read_and_report s system t
            (proc_sysmem_new system.sysmem_calloc.0 system.sysmem_calloc.1 none)

    unfoldable pub main : List Opt → System → Outcome Report
    unfolding process_options thresholds_expressed_as_percentages set_thresholds from_thresholds
    main opts system = process_options opts defaults >>= λ s.
        if not (thresholds_expressed_as_percentages s.warning s.critical)
        then exits state_unknown
        else set_thresholds d true none s.warning s.critical >>= λ r. from_thresholds s system r
