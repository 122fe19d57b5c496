-- ===== src/Tests/FileTree.antt =====
-- A small tree of directories.
use nagios_plugins_linux.Base.{
  ◌≡◌, ◌%◌, ◌^◌, refl, true, none, some, Bytes, Bool, codes, [], ◌∷◌, length,
}
use nagios_plugins_linux.Base.Int.{pos}
use nagios_plugins_linux.Messages.{returns}
use nagios_plugins_linux.Messages.Worst.{ladder}
use nagios_plugins_linux.Thresholds.{parse_argument, alerts}
use nagios_plugins_linux.Program.{getopt_loop}
use nagios_plugins_linux.Files.Filecount
use nagios_plugins_linux.Files.Filecount.{
  directories, sum_of_totals, AreBalanced, signed64, main-total,
}
use nagios_plugins_linux.Tests.{whole}
use nagios_plugins_linux.Files.{
  Entries, Contents, opened, entry, end_of_directory, file, directory_at, s_ifreg, s_ififo,
  FilesTypes, no_files, files_check_age, files_check_size, files_filecount, scan, files_is_hidden,
}
use nagios_plugins_linux.Files.Returns.{is_readable}

abbrev any_name : Bytes → Bytes → Bool
any_name pattern name = true

abbrev tree : Contents
tree = opened (
    entry (codes "a") (file s_ifreg (pos 5) (pos 10)) (
      entry (codes "d")
        (directory_at (opened (entry (codes "p") (file s_ififo (pos 5) (pos 0)) end_of_directory)))
        end_of_directory))

abbrev entries : Entries
entries = entry (codes "t") (directory_at tree) end_of_directory

entries-is_readable : is_readable entries ≡ true
unfolding is_readable
entries-is_readable = refl

abbrev counted : FilesTypes
counted = record no_files { directory = 1; special_file = 1; regular_file = 1; total = 3 }

-- FILES_RECURSIVE
tree_runs :
    files_filecount any_name 16 (pos 0) (pos 0) (pos 100) none tree none
    ≡ returns (pos 0, some counted)
unfolding files_filecount scan files_check_age files_check_size files_is_hidden
tree_runs = refl

abbrev regular : Filecount.Settings
regular = record Filecount.defaults { filecount_flags = 16 }

recursive_read : Filecount.process_options whole [] (Filecount.opt_recursive ∷ []) ≡ returns regular
unfolding Filecount.process_options getopt_loop Filecount.switch_option
recursive_read = refl

argument_none : parse_argument whole none ≡ some none
unfolding parse_argument
argument_none = refl

main-total_example :
    (r : Filecount.Report) × (Filecount.main any_name whole []
        (Filecount.opt_recursive ∷ [])
        (directories ((pos 100, entries) ∷ (pos 101, entries) ∷ []))
      ≡ returns r)
    × (length r.counters ≡ 2)
    × AreBalanced 16 r.counters
    × (r.total ≡ sum_of_totals r.counters % 2 ^ 64)
    × (r.status
        ≡ ladder (alerts whole (signed64 r.total) none) (alerts whole (signed64 r.total) none))
main-total_example =
    main-total any_name whole [] (Filecount.opt_recursive ∷ []) (pos 100, entries)
      ((pos 101, entries) ∷ []) regular none none recursive_read
      (entries-is_readable, (entries-is_readable, tt)) argument_none argument_none
