-- ===== src/Processes/Nbprocs.antt =====
-- plugins/check_nbprocs.c: the running processes, or their threads, against the thresholds.
use nagios_plugins_linux.Base.{
  ℕ, ◌+◌, Bool, true, false, List, Option, none, some, Bytes, if◌then◌else◌,
}
use nagios_plugins_linux.Base.Int.{pos}
use nagios_plugins_linux.Base.Double.{Double}
use nagios_plugins_linux.Messages.{
  NagStatus, state_ok, state_unknown, Outcome, returns, exits, ◌>>=◌,
}
use nagios_plugins_linux.Thresholds.{Thresholds, get_status}
use nagios_plugins_linux.Program.{getopt_loop, thresholds_or_usage}
use nagios_plugins_linux.Processes.{
  ProcsListNode, ProcsList, Dirent, nbprocs_threads, procs_list_getall,
  procs_list_node_get_total_procs_nbr, proc_list_node_foreach,
}

-- The variables of `main` that the options set; `verbose` is NBPROCS_VERBOSE.
pub record Settings : Type 0 where
  pub threads : Bool
  pub verbose : Bool
  pub critical : Option Bytes
  pub warning : Option Bytes

abbrev pub defaults : Settings
defaults = record { threads = false; verbose = false; critical = none; warning = none }

-- `-t` is no option of `getopt_long` here, `--threads` is.
pub data Opt : Type 0 where
  opt_threads opt_verbose opt_help opt_version opt_unrecognized : Opt
  opt_critical opt_warning : Bytes → Opt

unfoldable pub switch_option : Opt → Settings → Outcome Settings
switch_option opt_threads s = returns (record s { threads = true })
switch_option (opt_critical optarg) s = returns (record s { critical = some optarg })
switch_option (opt_warning optarg) s = returns (record s { warning = some optarg })
switch_option opt_verbose s = returns (record s { verbose = true })
switch_option opt_help s = exits state_ok
switch_option opt_version s = exits state_ok
switch_option opt_unrecognized s = exits state_unknown

abbrev pub nbprocs_flags : Settings → ℕ
nbprocs_flags s = (if s.threads then nbprocs_threads else 0) + (if s.verbose then 1 else 0)

-- What is printed and returned; `shown` are the users that the loop visits.
pub record Report : Type 0 where
  pub status : NagStatus
  pub total : ℕ
  pub shown : List ProcsListNode

module _ (uid_to_username : ℕ → Bytes) (soft hard : ℕ) (d : Double) where
  report : Thresholds d → ProcsList → Report
  unfolding procs_list_node_get_total_procs_nbr proc_list_node_foreach get_status
  report my_threshold procs_list = record {
    status =
        get_status d (d.of_ℤ (pos (procs_list_node_get_total_procs_nbr procs_list))) my_threshold;
    total = procs_list_node_get_total_procs_nbr procs_list;
    shown = proc_list_node_foreach procs_list.nodes;
  }

  -- `proc` is /proc, and `failed` the error of its last `readdir`.
  unfoldable pub main : List Opt → Bool → Option (List Dirent) → Outcome Report
  unfolding getopt_loop switch_option thresholds_or_usage procs_list_getall report
  main opts failed proc = getopt_loop switch_option opts defaults >>= λ s.
      thresholds_or_usage d s.warning s.critical >>= λ t.
      procs_list_getall uid_to_username soft hard (nbprocs_flags s) failed proc >>= λ procs_list.
      returns (report t procs_list)
