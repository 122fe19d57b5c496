-- ===== src/Mountlist/Unmounted.antt =====
-- plugins/check_ifmountfs.c: whether the file systems given are mounted.
use nagios_plugins_linux.Base.{
  ◌≡◌, refl, ap, Bool, true, false, ◌&&◌, ◌||◌, not, [], ◌∷◌, List, arith, Bytes, streq,
  if◌then◌else◌, Bool-cases, inl, inr,
}
use nagios_plugins_linux.Messages.{
  NagStatus, state_ok, state_critical, state_unknown, Outcome, returns, exits, plugin_error,
}
use nagios_plugins_linux.Mountlist.{MountEntry}

unfoldable pub check_entry : List MountEntry → Bytes → NagStatus
check_entry [] mountpoint = state_critical
check_entry (me ∷ rest) mountpoint =
    if streq me.me_mountdir mountpoint then state_ok else check_entry rest mountpoint

-- What is printed and returned: the status, and the arguments that are still in `argv`.
pub record Report : Type 0 where
  pub status : NagStatus
  pub argv : List Bytes

abbrev is_critical : NagStatus → Bool
is_critical state_critical = true
is_critical _ = false

-- The loop over the arguments; one that is mounted is overwritten with NULL.
check_arguments : List MountEntry → List Bytes → NagStatus → Report
unfolding check_entry
check_arguments mount_list [] status = record { status = status; argv = [] }
check_arguments mount_list (arg ∷ args) status =
    let critical = check_arguments mount_list args state_critical in
    let mounted = check_arguments mount_list args status in
    if is_critical (check_entry mount_list arg)
    then record { status = critical.status; argv = arg ∷ critical.argv }
    else mounted

-- From `mount_list = read_file_system_list (false)` on.
after_reading : Bool → List Bytes → List MountEntry → Outcome Report
unfolding check_arguments
after_reading just_list_fs args [] = plugin_error state_unknown
after_reading just_list_fs args (me ∷ rest) =
    if just_list_fs
    then returns (record { status = state_unknown; argv = [] })
    else returns (check_arguments (me ∷ rest) args state_ok)

no_arguments : List Bytes → Bool
no_arguments [] = true
no_arguments (arg ∷ args) = false

-- `main` behind the options, with the arguments from `optind` on; `usage (stderr)` exits.
unfoldable pub main : Bool → List Bytes → List MountEntry → Outcome Report
unfolding after_reading no_arguments
main just_list_fs args mount_list =
    if no_arguments args && not just_list_fs
    then exits state_unknown
    else after_reading just_list_fs args mount_list

abbrev pub is_mounted : List MountEntry → Bytes → Bool
is_mounted [] dir = false
is_mounted (me ∷ rest) dir = streq me.me_mountdir dir || is_mounted rest dir

-- The arguments at which nothing is mounted, in their order.
abbrev pub unmounted : List MountEntry → List Bytes → List Bytes
unmounted mount_list [] = []
unmounted mount_list (arg ∷ args) =
    if is_mounted mount_list arg then unmounted mount_list args else arg ∷ unmounted mount_list args

abbrev pub worst_of : List Bytes → NagStatus → NagStatus
worst_of [] status = status
worst_of (arg ∷ args) status = state_critical

check_entry-is_mounted :
    (l : List MountEntry) (dir : Bytes) → is_critical (check_entry l dir) ≡ not (is_mounted l dir)
unfolding check_entry
check_entry-is_mounted [] dir = refl
check_entry-is_mounted (me ∷ rest) dir = ground (arith, check_entry-is_mounted rest dir)

worst_of-critical : (args : List Bytes) → worst_of args state_critical ≡ state_critical
worst_of-critical [] = refl
worst_of-critical (arg ∷ args) = refl

check_arguments-unmounted :
    (l : List MountEntry) (args : List Bytes) (status : NagStatus)
    → check_arguments l args status
      ≡ record { status = worst_of (unmounted l args) status; argv = unmounted l args }
unfolding check_arguments
check_arguments-unmounted l [] status = refl
check_arguments-unmounted l (arg ∷ args) status = elim (Bool-cases (is_mounted l arg)) [
  | inl m ↦ rw (check_entry-is_mounted l arg, m) (check_arguments-unmounted l args status)
  | inr m ↦
      rw (check_entry-is_mounted l arg, m)
        (rw (check_arguments-unmounted l args state_critical, worst_of-critical (unmounted l args))
          refl)
]

-- Without `--list`, with at least one argument and a table that can be read, the program returns
-- CRITICAL with the arguments at which nothing is mounted, in their order, and OK where there is
-- none.
pub main-unmounted :
    (me : MountEntry) (rest : List MountEntry) (arg : Bytes) (args : List Bytes)
    → main false (arg ∷ args) (me ∷ rest)
      ≡ returns (record {
        status = worst_of (unmounted (me ∷ rest) (arg ∷ args)) state_ok;
        argv = unmounted (me ∷ rest) (arg ∷ args);
      })
unfolding main after_reading no_arguments
main-unmounted me rest arg args =
    ap returns (check_arguments-unmounted (me ∷ rest) (arg ∷ args) state_ok)
