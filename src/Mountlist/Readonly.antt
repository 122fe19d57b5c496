-- ===== src/Mountlist/Readonly.antt =====
-- plugins/check_readonlyfs.c: the search for file systems that are mounted read-only.
pub mod Found
use nagios_plugins_linux.Base.{
  Bool, true, false, ◌&&◌, ◌||◌, not, [], ◌∷◌, ◌++◌, List, Option, none, some, Bytes, codes, streq,
  if◌then◌else◌,
}
use nagios_plugins_linux.Messages.{
  NagStatus, state_ok, state_critical, state_unknown, Outcome, returns, exits, plugin_error, ◌>>=◌,
}
use nagios_plugins_linux.Mountlist.{MountEntry, is_one_of}

-- The static variables, and `exclude_mode` of `main`; each list has its last added type first.
pub record Options : Type 0 where
  pub fs_select_list : List Bytes
  pub fs_exclude_list : List Bytes
  pub show_all_fs : Bool
  pub show_local_fs : Bool
  pub verbose : Bool
  pub exclude_mode : Bool

abbrev pub no_options : Options
no_options = record {
  fs_select_list = [];
  fs_exclude_list = [];
  show_all_fs = false;
  show_local_fs = false;
  verbose = false;
  exclude_mode = false;
}

-- What `getopt_long` returns, with `optarg`.
pub data Opt : Type 0 where
  opt_all opt_local opt_exclude opt_verbose opt_help opt_version opt_unrecognized : Opt
  opt_type opt_exclude_type : Bytes → Opt

unfoldable pub add_fs_type : Bytes → Options → Options
add_fs_type fstype o = record o { fs_select_list = fstype ∷ o.fs_select_list }

unfoldable pub add_excluded_fs_type : Bytes → Options → Options
add_excluded_fs_type fstype o = record o { fs_exclude_list = fstype ∷ o.fs_exclude_list }

-- One round of the `switch`; `usage (stderr)` and the help and version pages end the process.
switch_option : Opt → Options → Outcome Options
unfolding add_fs_type add_excluded_fs_type
switch_option opt_all o = returns (record o { show_all_fs = true })
switch_option opt_local o = returns (record o { show_local_fs = true })
switch_option (opt_type optarg) o = returns (add_fs_type optarg o)
switch_option opt_exclude o = returns (record o { exclude_mode = true })
switch_option (opt_exclude_type optarg) o = returns (add_excluded_fs_type optarg o)
switch_option opt_verbose o = returns (record o { verbose = true })
switch_option opt_help o = exits state_ok
switch_option opt_version o = exits state_ok
switch_option opt_unrecognized o = exits state_unknown

unfoldable pub process_options : List Opt → Options → Outcome Options
unfolding switch_option
process_options [] o = returns o
process_options (opt ∷ opts) o = switch_option opt o >>= λ o'. process_options opts o'

unfoldable pub selected_fstype : List Bytes → Bytes → Bool
selected_fstype [] fstype = true
selected_fstype (name ∷ names) fstype = is_one_of fstype (name ∷ names)

unfoldable pub excluded_fstype : List Bytes → Bytes → Bool
excluded_fstype names fstype = is_one_of fstype names

unfoldable pub skip_mount_entry : Options → MountEntry → Bool
unfolding selected_fstype excluded_fstype
skip_mount_entry o me =
    if me.me_remote && o.show_local_fs
    then true
    else if me.me_dummy && not o.show_all_fs
    then true
    else not (selected_fstype o.fs_select_list me.me_type)
      || excluded_fstype o.fs_exclude_list me.me_type

-- The inner loop over `fs_exclude`: STREQ (*fs, …) for each of the names.
unfoldable pub ignored : Option (List Bytes) → MountEntry → Bool
ignored none me = false
ignored (some []) me = false
ignored (some (fs ∷ names)) me =
    let rest = ignored (some names) me in
    if streq fs me.me_devname || streq fs me.me_mountdir then true else rest

-- `*ro_filesystems` with one more directory.
unfoldable pub append_name : Option Bytes → Bytes → Option Bytes
append_name none dir = some dir
append_name (some names) dir = some (names ++ b' ' ∷ dir)

-- The status, and the text of the read-only file systems.
pub record Checked : Type 0 where
  pub status : NagStatus
  pub ro_filesystems : Option Bytes

all_entries : Options → Option (List Bytes) → List MountEntry → Checked → Checked
unfolding ignored skip_mount_entry append_name
all_entries o fs_exclude [] c = c
all_entries o fs_exclude (me ∷ rest) c =
    let same = all_entries o fs_exclude rest c in
    let found = all_entries o fs_exclude rest (record {
      status = state_critical;
      ro_filesystems = append_name c.ro_filesystems me.me_mountdir;
    }) in
    if ignored fs_exclude me
    then same
    else if skip_mount_entry o me
    then same
    else if me.me_readonly
    then found
    else same

unfoldable pub check_all_entries : Options → Option (List Bytes) → List MountEntry → Checked
unfolding all_entries
check_all_entries o fs_exclude mount_list =
    all_entries o fs_exclude mount_list (record { status = state_ok; ro_filesystems = none })

unfoldable pub check_entry : Options → Bytes → List MountEntry → NagStatus
unfolding skip_mount_entry
check_entry o name [] = state_ok
check_entry o name (me ∷ rest) =
    let next = check_entry o name rest in
    if streq me.me_mountdir name
    then (if skip_mount_entry o me
        then state_ok
        else if me.me_readonly
        then state_critical
        else next)
    else next

-- A type that was both selected and excluded.
unfoldable pub clash : List Bytes → List Bytes → Bool
clash [] exclude = false
clash (name ∷ names) exclude = is_one_of name exclude || clash names exclude

-- The status with the names printed: those left in `argv`, or the text `ro_filesystems`.
pub data Report : Type 0 where
  entries_report : NagStatus → List Bytes → Report
  all_report : Checked → Report

abbrev pub is_critical : NagStatus → Bool
is_critical state_critical = true
is_critical _ = false

-- The loop over the names, with the status so far and the names that stay in `argv`.
unfoldable pub check_names :
    Options → List MountEntry → List Bytes → NagStatus → NagStatus × List Bytes
unfolding check_entry
check_names o mount_list [] status = (status, [])
check_names o mount_list (name ∷ names) status =
    let critical = check_names o mount_list names state_critical in
    let other = check_names o mount_list names status in
    if is_critical (check_entry o name mount_list) then (critical.0, name ∷ critical.1) else other

-- Whether each of the names can be opened.
all_open : (Bytes → Bool) → List Bytes → Bool
all_open can_open [] = true
all_open can_open (name ∷ names) = can_open name && all_open can_open names

-- From `read_file_system_list` on, with what it returns.
after_reading : Options → List Bytes → List MountEntry → Outcome Report
unfolding check_names check_all_entries
after_reading o names [] = plugin_error state_unknown
after_reading o [] (me ∷ rest) = returns (all_report (check_all_entries o none (me ∷ rest)))
after_reading o (name ∷ names) (me ∷ rest) =
    let r = check_names o (me ∷ rest) (name ∷ names) state_ok in
    if o.exclude_mode
    then returns (all_report (check_all_entries o (some (name ∷ names)) (me ∷ rest)))
    else returns (entries_report r.0 r.1)

-- The tests on the names: they must be readable, or be there in the exclude mode.
unfoldable pub arguments_lack : Options → (Bytes → Bool) → List Bytes → Bool
unfolding all_open
arguments_lack o can_open [] = o.exclude_mode
arguments_lack o can_open (name ∷ names) =
    not o.exclude_mode && not (all_open can_open (name ∷ names))

behind_options : (Bytes → Bool) → List Bytes → List MountEntry → Options → Outcome Report
unfolding after_reading arguments_lack clash
behind_options can_open names mount_list o =
    if clash o.fs_select_list o.fs_exclude_list
    then plugin_error state_unknown
    else if arguments_lack o can_open names
    then plugin_error state_unknown
    else after_reading o names mount_list

-- `can_open` is whether `open` succeeds, `names` the arguments behind the options, and `mount_list`
-- what `read_file_system_list` returns.
unfoldable pub main : (Bytes → Bool) → List Opt → List Bytes → List MountEntry → Outcome Report
unfolding process_options behind_options
main can_open opts names mount_list =
    process_options opts no_options >>= λ o. behind_options can_open names mount_list o
