-- ===== src/Paging.antt =====
-- plugins/check_paging.c: what the paging counters grow by in a second, against the thresholds. The
-- figures shown besides are output.
pub mod Growth
use nagios_plugins_linux.Base.{
  ℕ, Bool, true, false, ◌&&◌, not, [], ◌∷◌, List, Option, none, some, Bytes, ◌==◌, if◌then◌else◌,
  add64, sub64,
}
use nagios_plugins_linux.Base.Int.{ℤ, pos, negsuc}
use nagios_plugins_linux.Base.Double.{Double}
use nagios_plugins_linux.Messages.{
  NagStatus, state_ok, state_unknown, Outcome, returns, exits, plugin_error, ◌>>=◌,
}
use nagios_plugins_linux.Thresholds.{Thresholds, set_thresholds, get_status, unparseable}
use nagios_plugins_linux.Procparser.{Bsearch}
use nagios_plugins_linux.Vminfo.Table.{ProcVmemData}
use nagios_plugins_linux.Vminfo.{
  ProcVmem, Conversions, proc_vmem_new, proc_vmem_read, proc_vmem_get, proc_vmem_get_pgscand,
  proc_vmem_get_pgscank,
}

-- `paging_data_t`
pub record PagingData : Type 0 where
  pub dpgpgin : ℕ
  pub dpgpgout : ℕ
  pub dpgfault : ℕ
  pub dpgfree : ℕ
  pub dpgmajfault : ℕ
  pub dpgscand : ℕ
  pub dpgscank : ℕ
  pub dpgsteal : ℕ
  pub dpswpin : ℕ
  pub dpswpout : ℕ
  pub summary : ℕ

-- What a getter gives for the second reading less what it gives for the first.
abbrev pub delta : (Option ProcVmem → ℕ) → Option ProcVmem → Option ProcVmem → ℕ
delta getter first second = sub64 (getter second) (getter first)

abbrev pub field : (ProcVmemData → ℕ) → Option ProcVmem → ℕ
field f vmem = proc_vmem_get f vmem

-- From `paging->dpgpgin = …` on, with the structure at the two readings.
unfoldable pub paging_of : Bool → Option ProcVmem → Option ProcVmem → PagingData
unfolding proc_vmem_get proc_vmem_get_pgscand proc_vmem_get_pgscank
paging_of swapping_only first second =
    let dpswpin = delta (field (λ (d : ProcVmemData). d.pswpin)) first second in
    let dpswpout = delta (field (λ (d : ProcVmemData). d.pswpout)) first second in
    let dpgmajfault = delta (field (λ (d : ProcVmemData). d.pgmajfault)) first second in
    record {
      dpgpgin = delta (field (λ (d : ProcVmemData). d.pgpgin)) first second;
      dpgpgout = delta (field (λ (d : ProcVmemData). d.pgpgout)) first second;
      dpgfault = delta (field (λ (d : ProcVmemData). d.pgfault)) first second;
      dpgfree = delta (field (λ (d : ProcVmemData). d.pgfree)) first second;
      dpgmajfault = dpgmajfault;
      dpgscand = delta proc_vmem_get_pgscand first second;
      dpgscank = delta proc_vmem_get_pgscank first second;
      dpgsteal = delta (field (λ (d : ProcVmemData). d.pgsteal)) first second;
      dpswpin = dpswpin;
      dpswpout = dpswpout;
      summary = if swapping_only then add64 dpswpin dpswpout else dpgmajfault;
    }

-- The variables of `main` that the options set.
pub record Settings : Type 0 where
  pub show_swapping : Bool
  pub swapping_only : Bool
  pub critical : Option Bytes
  pub warning : Option Bytes

abbrev pub defaults : Settings
defaults = record { show_swapping = false; swapping_only = false; critical = none; warning = none }

-- What `getopt_long` returns, with `optarg`.
pub data Opt : Type 0 where
  opt_paging opt_swapping opt_swapping_only opt_help opt_version opt_unrecognized : Opt
  opt_critical opt_warning : Bytes → Opt

switch_option : Opt → Settings → Outcome Settings
switch_option opt_paging s = returns s
switch_option opt_swapping s = returns (record s { show_swapping = true })
switch_option opt_swapping_only s = returns (record s { swapping_only = true })
switch_option (opt_critical optarg) s = returns (record s { critical = some optarg })
switch_option (opt_warning optarg) s = returns (record s { warning = some optarg })
switch_option opt_help s = exits state_ok
switch_option opt_version s = exits state_ok
switch_option opt_unrecognized s = exits state_unknown

unfoldable pub process_options : List Opt → Settings → Outcome Settings
unfolding switch_option
process_options [] s = returns s
process_options (opt ∷ opts) s = switch_option opt s >>= λ s'. process_options opts s'

-- The two files /proc/vmstat and /proc/stat at one of the readings.
pub record Files : Type 0 where
  pub vmstat : Option (List Bytes)
  pub stat : Option (List Bytes)

is_negative : ℤ → Bool
is_negative (pos n) = false
is_negative (negsuc n) = true

-- `scan` is `sscanf` of lib/vminfo.c.
module _ (b : Bsearch) (scan : Bytes → Bytes → Conversions) where
  -- The loop over the two readings, on what `proc_vmem_new` returns.
  unfoldable pub get_paging_status : Bool → ℤ × Option ProcVmem → Files → Files → Outcome PagingData
  unfolding is_negative proc_vmem_read paging_of
  get_paging_status swapping_only new first second =
      if is_negative new.0
      then plugin_error state_unknown
      else proc_vmem_read b scan first.vmstat first.stat new.1 >>= λ vmem.
          proc_vmem_read b scan second.vmstat second.stat vmem >>= λ vmem'.
          returns (paging_of swapping_only vmem vmem')

  module _ (d : Double) where
    -- `my_threshold` is not null where `set_thresholds` returns 0.
    measured : (Thresholds d → Outcome NagStatus) → ℕ × Option (Thresholds d) → Outcome NagStatus
    measured continue (code, none) = exits state_unknown
    measured continue (code, some t) =
        if code == unparseable then exits state_unknown else continue t

    -- `first_calloc` and `second_calloc` are whether `proc_vmem_new` gets its memory.
    unfoldable pub main : List Opt → Bool → Bool → Files → Files → Outcome NagStatus
    unfolding process_options set_thresholds measured get_paging_status proc_vmem_new get_status
    main opts first_calloc second_calloc first second = process_options opts defaults >>= λ s.
        set_thresholds d true none s.warning s.critical >>= λ r.
        measured
          (λ t.
            get_paging_status s.swapping_only (proc_vmem_new first_calloc second_calloc none) first
              second
            >>= λ paging. returns (get_status d (d.of_ℤ (pos paging.summary)) t))
          r
