-- ===== src/Mountlist/Readonly/Found.antt =====
-- What plugins/check_readonlyfs.c finds, against the list of the read-only file systems it looks at.
use nagios_plugins_linux.Base.{
  ◌≡◌, refl, ◌∙◌, Bool, false, ◌&&◌, ◌||◌, not, [], ◌∷◌, ◌++◌, List, Option, none, some, Bytes,
  streq, if◌then◌else◌, arith, Bool-cases, inl, inr,
}
use nagios_plugins_linux.Messages.{NagStatus, state_ok, state_critical, returns}
use nagios_plugins_linux.Mountlist.{MountEntry}
use nagios_plugins_linux.Mountlist.Readonly.{
  Options, Opt, no_options, Checked, Report, entries_report, all_report, skip_mount_entry, ignored,
  append_name, all_entries, check_all_entries, check_entry, check_names, is_critical, clash,
  process_options, arguments_lack, after_reading, behind_options, main,
}

-- The directories of the read-only entries that are neither ignored nor skipped.
abbrev pub readonly_dirs : Options → Option (List Bytes) → List MountEntry → List Bytes
readonly_dirs o fs_exclude [] = []
readonly_dirs o fs_exclude (me ∷ rest) =
    if not (ignored fs_exclude me) && not (skip_mount_entry o me) && me.me_readonly
    then me.me_mountdir ∷ readonly_dirs o fs_exclude rest
    else readonly_dirs o fs_exclude rest

-- Texts behind a first one, with a space in front of each.
abbrev pub spaced : Bytes → List Bytes → Bytes
spaced text [] = text
spaced text (dir ∷ dirs) = spaced (text ++ b' ' ∷ dir) dirs

abbrev pub joined : List Bytes → Option Bytes
joined [] = none
joined (dir ∷ dirs) = some (spaced dir dirs)

abbrev pub critical_if : List Bytes → NagStatus
critical_if [] = state_ok
critical_if (dir ∷ dirs) = state_critical

abbrev appended : List Bytes → Checked → Checked
appended [] c = c
appended (dir ∷ dirs) c =
    appended dirs
      (record { status = state_critical; ro_filesystems = append_name c.ro_filesystems dir })

all_entries-appended :
    (o : Options) (fs_exclude : Option (List Bytes)) (l : List MountEntry) (c : Checked)
    → all_entries o fs_exclude l c ≡ appended (readonly_dirs o fs_exclude l) c
unfolding all_entries
all_entries-appended o fs_exclude [] c = refl
all_entries-appended o fs_exclude (me ∷ rest) c =
    let same = all_entries-appended o fs_exclude rest c in
    let found = all_entries-appended o fs_exclude rest (record {
      status = state_critical;
      ro_filesystems = append_name c.ro_filesystems me.me_mountdir;
    }) in
    elim (Bool-cases (ignored fs_exclude me)) [
      | inl i ↦ rw i same
      | inr i ↦ elim (Bool-cases (skip_mount_entry o me)) [
        | inl s ↦ rw (i, s) same
        | inr s ↦ elim (Bool-cases me.me_readonly) [
          | inl r ↦ rw (i, s, r) found
          | inr r ↦ rw (i, s, r) same
        ]
      ]
    ]

appended-spaced :
    (dirs : List Bytes) (text : Bytes)
    → appended dirs (record { status = state_critical; ro_filesystems = some text })
      ≡ record { status = state_critical; ro_filesystems = some (spaced text dirs) }
unfolding append_name
appended-spaced [] text = refl
appended-spaced (dir ∷ dirs) text = appended-spaced dirs (text ++ b' ' ∷ dir)

appended-joined :
    (dirs : List Bytes)
    → appended dirs (record { status = state_ok; ro_filesystems = none })
      ≡ record { status = critical_if dirs; ro_filesystems = joined dirs }
unfolding append_name
appended-joined [] = refl
appended-joined (dir ∷ dirs) = appended-spaced dirs dir

-- `check_all_entries` is CRITICAL exactly if a read-only file system is neither excluded by its
-- device or directory nor skipped, and reports the directories of all of them in the order of the
-- table, with one space between two.
pub check_all_entries-readonly_dirs :
    (o : Options) (fs_exclude : Option (List Bytes)) (l : List MountEntry)
    → check_all_entries o fs_exclude l ≡ record {
      status = critical_if (readonly_dirs o fs_exclude l);
      ro_filesystems = joined (readonly_dirs o fs_exclude l);
    }
unfolding check_all_entries
check_all_entries-readonly_dirs o fs_exclude l =
    all_entries-appended o fs_exclude l _ ∙ appended-joined (readonly_dirs o fs_exclude l)

-- Whether an entry at the directory is read-only, with no skipped entry at it before.
abbrev pub is_readonly : Options → Bytes → List MountEntry → Bool
is_readonly o name [] = false
is_readonly o name (me ∷ rest) =
    if streq me.me_mountdir name
    then not (skip_mount_entry o me) && (me.me_readonly || is_readonly o name rest)
    else is_readonly o name rest

abbrev pub readonly_names : Options → List MountEntry → List Bytes → List Bytes
readonly_names o l [] = []
readonly_names o l (name ∷ names) =
    if is_readonly o name l then name ∷ readonly_names o l names else readonly_names o l names

check_entry-is_readonly :
    (o : Options) (name : Bytes) (l : List MountEntry)
    → is_critical (check_entry o name l) ≡ is_readonly o name l
unfolding check_entry
check_entry-is_readonly o name [] = refl
check_entry-is_readonly o name (me ∷ rest) = ground (arith, check_entry-is_readonly o name rest)

abbrev status_of : List Bytes → NagStatus → NagStatus
status_of [] status = status
status_of (dir ∷ dirs) status = state_critical

status_of-critical : (dirs : List Bytes) → status_of dirs state_critical ≡ state_critical
status_of-critical [] = refl
status_of-critical (dir ∷ dirs) = refl

status_of-ok : (dirs : List Bytes) → status_of dirs state_ok ≡ critical_if dirs
status_of-ok [] = refl
status_of-ok (dir ∷ dirs) = refl

check_names-readonly_names :
    (o : Options) (l : List MountEntry) (names : List Bytes) (status : NagStatus)
    → check_names o l names status
      ≡ (status_of (readonly_names o l names) status, readonly_names o l names)
unfolding check_names
check_names-readonly_names o l [] status = refl
check_names-readonly_names o l (name ∷ names) status = elim (Bool-cases (is_readonly o name l)) [
  | inl r ↦
      rw (check_entry-is_readonly o name l, r)
        (rw
          (
            check_names-readonly_names o l names state_critical,
            status_of-critical (readonly_names o l names),
          )
          refl)
  | inr r ↦ rw (check_entry-is_readonly o name l, r) (check_names-readonly_names o l names status)
]

-- The report on a table that can be read: on all its entries, or on the names given.
abbrev pub report_of : Options → List Bytes → List MountEntry → Report
report_of o [] l = all_report (record {
  status = critical_if (readonly_dirs o none l);
  ro_filesystems = joined (readonly_dirs o none l);
})
report_of o (name ∷ names) l =
    if o.exclude_mode
    then all_report (record {
      status = critical_if (readonly_dirs o (some (name ∷ names)) l);
      ro_filesystems = joined (readonly_dirs o (some (name ∷ names)) l);
    })
    else entries_report (critical_if (readonly_names o l (name ∷ names)))
        (readonly_names o l (name ∷ names))

after_reading-report_of :
    (o : Options) (names : List Bytes) (me : MountEntry) (rest : List MountEntry)
    → after_reading o names (me ∷ rest) ≡ returns (report_of o names (me ∷ rest))
unfolding after_reading
after_reading-report_of o [] me rest = rw (check_all_entries-readonly_dirs o none (me ∷ rest)) refl
after_reading-report_of o (name ∷ names) me rest = elim (Bool-cases o.exclude_mode) [
  | inl x ↦ rw (x, check_all_entries-readonly_dirs o (some (name ∷ names)) (me ∷ rest)) refl
  | inr x ↦
      rw
        (
          x,
          check_names-readonly_names o (me ∷ rest) (name ∷ names) state_ok,
          status_of-ok (readonly_names o (me ∷ rest) (name ∷ names)),
        )
        refl
]

-- With options that are read, no type both selected and excluded, arguments that can be opened (or
-- are there, in the exclude mode) and a table that can be read, the program reports CRITICAL
-- exactly when it lists something: without arguments or in the exclude mode every read-only file
-- system that is neither excluded nor skipped, else the arguments for which the table has a
-- read-only entry and no skipped entry at the same directory up to there.
pub main-report_of :
    (can_open : Bytes → Bool) (opts : List Opt) (names : List Bytes) (me : MountEntry)
    (rest : List MountEntry) (o : Options)
    → process_options opts no_options ≡ returns o
    → clash o.fs_select_list o.fs_exclude_list ≡ false
    → arguments_lack o can_open names ≡ false
    → main can_open opts names (me ∷ rest) ≡ returns (report_of o names (me ∷ rest))
unfolding main behind_options
main-report_of can_open opts names me rest o read no_clash lack =
    rw (read, no_clash, lack) (after_reading-report_of o names me rest)
