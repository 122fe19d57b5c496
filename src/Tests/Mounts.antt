-- ===== src/Tests/Mounts.antt =====
-- A table of mounts, and the programs run on it.
use nagios_plugins_linux.Base.{
  ◌≡◌, refl, Bool, true, false, [], ◌∷◌, none, some, Bytes, codes, streq,
}
use nagios_plugins_linux.Messages.{state_ok, returns}
use nagios_plugins_linux.Mountlist.{
  Mntent, MountEntry, read_file_system_list, mount_entries, mount_entry, is_dummy, is_remote,
  fs_check_if_readonly, dev_from_mount_options,
}
use nagios_plugins_linux.Mountlist.Unmounted
use nagios_plugins_linux.Mountlist.Unmounted.{Report, worst_of, unmounted, main-unmounted}
use nagios_plugins_linux.Mountlist.Readonly
use nagios_plugins_linux.Mountlist.Readonly.{
  Opt, opt_all, Options, no_options, process_options, clash, arguments_lack, skip_mount_entry,
  ignored, selected_fstype, excluded_fstype,
}
use nagios_plugins_linux.Mountlist.Readonly.Found.{report_of, readonly_dirs, main-report_of}

abbrev is_ro : Mntent → Bytes → Bool
is_ro mnt opt = streq mnt.mnt_opts opt

abbrev root : Mntent
root = record {
  mnt_fsname = codes "/dev/sda1";
  mnt_dir = codes "/";
  mnt_type = codes "ext4";
  mnt_opts = codes "rw";
}

abbrev cdrom : Mntent
cdrom = record {
  mnt_fsname = codes "/dev/sr0";
  mnt_dir = codes "/mnt";
  mnt_type = codes "iso9660";
  mnt_opts = codes "ro";
}

abbrev entry_of : Bytes → Bytes → Bytes → Bytes → Bool → MountEntry
entry_of name dir kind opts readonly = record {
  me_devname = name;
  me_mountdir = dir;
  me_type = kind;
  me_opts = opts;
  me_dev = 18446744073709551615;
  me_dummy = false;
  me_remote = false;
  me_readonly = readonly;
}

abbrev root_entry : MountEntry
root_entry = entry_of (codes "/dev/sda1") (codes "/") (codes "ext4") (codes "rw") false

abbrev cdrom_entry : MountEntry
cdrom_entry = entry_of (codes "/dev/sr0") (codes "/mnt") (codes "iso9660") (codes "ro") true

mounts_runs :
    read_file_system_list is_ro (some (root ∷ cdrom ∷ [])) true ≡ root_entry ∷ cdrom_entry ∷ []
unfolding read_file_system_list mount_entries mount_entry is_dummy is_remote fs_check_if_readonly
    dev_from_mount_options
mounts_runs = refl

main-unmounted_example :
    Unmounted.main false (codes "/" ∷ codes "/home" ∷ []) (root_entry ∷ cdrom_entry ∷ [])
    ≡ returns (record {
      status =
          worst_of
            (unmounted (root_entry ∷ cdrom_entry ∷ []) (codes "/" ∷ codes "/home" ∷ []))
            state_ok;
      argv = unmounted (root_entry ∷ cdrom_entry ∷ []) (codes "/" ∷ codes "/home" ∷ []);
    })
main-unmounted_example =
    main-unmounted root_entry (cdrom_entry ∷ []) (codes "/") (codes "/home" ∷ [])

abbrev can_open : Bytes → Bool
can_open name = true

abbrev all_shown : Options
all_shown = record no_options { show_all_fs = true }

options_read : process_options (opt_all ∷ []) no_options ≡ returns all_shown
unfolding process_options
options_read = refl

no_clash : clash all_shown.fs_select_list all_shown.fs_exclude_list ≡ false
unfolding clash
no_clash = refl

nothing_lacks : arguments_lack all_shown can_open [] ≡ false
unfolding arguments_lack
nothing_lacks = refl

main-report_of_example :
    Readonly.main can_open (opt_all ∷ []) [] (root_entry ∷ cdrom_entry ∷ [])
    ≡ returns (report_of all_shown [] (root_entry ∷ cdrom_entry ∷ []))
main-report_of_example =
    main-report_of can_open (opt_all ∷ []) [] root_entry (cdrom_entry ∷ []) all_shown options_read
      no_clash nothing_lacks

found_runs : readonly_dirs all_shown none (root_entry ∷ cdrom_entry ∷ []) ≡ codes "/mnt" ∷ []
unfolding skip_mount_entry ignored selected_fstype excluded_fstype
found_runs = refl
