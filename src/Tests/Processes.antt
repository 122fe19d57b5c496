-- ===== src/Tests/Processes.antt =====
-- A /proc with the processes of two users, and the pressure figures of two readings.
use nagios_plugins_linux.Base.{
  ℕ, ◌+◌, ◌-◌, ◌/◌, ◌≡◌, refl, true, false, [], ◌∷◌, List, Option, none, some, arith, Bytes, codes,
}
use nagios_plugins_linux.Base.Numeral.{strtol}
use nagios_plugins_linux.Messages.{returns}
use nagios_plugins_linux.Processes.{
  ProcsList, Dirent, procs_list_node_init, procs_list_node_add, procs_list_getall, read_line,
  read_status, scan_entries, proc_list_node_foreach,
}
use nagios_plugins_linux.Processes.Totals.{foreach-add}
use nagios_plugins_linux.Messages.Worst.{ladder}
use nagios_plugins_linux.Thresholds.{parse_argument, alerts}
use nagios_plugins_linux.Base.Int.{ℤ, pos}
use nagios_plugins_linux.Xstrton.{strtol_or_err, strtol_checked}
use nagios_plugins_linux.Program.{getopt_loop}
use nagios_plugins_linux.Program.Arguments.{checked_delay}
use nagios_plugins_linux.Processes.Nbprocs
use nagios_plugins_linux.Pressure.Starved
use nagios_plugins_linux.Pressure.Starved.{Psi}
use nagios_plugins_linux.Pressure.Decided.{main-starvation}
use nagios_plugins_linux.Tests.{whole}
use nagios_plugins_linux.Pressure.{ProcPsiOneline, ProcPsiTwolines}
use nagios_plugins_linux.Pressure.Starvation.{Holds}

abbrev nameless : ℕ → Bytes
nameless uid = codes "<no-user>"

abbrev proc : List Dirent
proc =
    record {
      is_directory = true;
      d_name = codes "1";
      status = some (codes "Name: init" ∷ codes "Uid: 0" ∷ codes "Threads: 3" ∷ []);
    }
    ∷ record {
      is_directory = true;
      d_name = codes "27";
      status = some (codes "Name: sh" ∷ codes "Uid: 1000" ∷ codes "Threads: 2" ∷ []);
    }
    ∷ record { is_directory = true; d_name = codes "bus"; status = none }
    ∷ []

abbrev root_only : ProcsList
root_only = record {
  nbr = 3;
  nodes =
      record {
        uid = 0;
        username = codes "<no-user>";
        nbr = 3;
        rlimit_nproc_soft = 8;
        rlimit_nproc_hard = 9;
      }
      ∷ [];
}

-- NBPROCS_THREADS
proc_runs :
    procs_list_getall nameless 8 9 2 false (some proc)
    ≡ returns (procs_list_node_add nameless 8 9 1000 2 root_only)
unfolding procs_list_getall scan_entries read_status read_line procs_list_node_add
    procs_list_node_init strtol
proc_runs = refl

foreach-add_example :
    proc_list_node_foreach (procs_list_node_add nameless 8 9 1000 2 root_only).nodes
    ≡ root_only.nodes
foreach-add_example = foreach-add nameless 8 9 1000 2 root_only refl

-- The total is the length of the line.
abbrev psi_of : ℕ → ProcPsiOneline ℕ
psi_of n = record { total = n; avg10 = 0; avg60 = 0; avg300 = 0 }

abbrev length_scan : ℕ → Bytes → Option (ProcPsiOneline ℕ)
length_scan n line = some (psi_of (nagios_plugins_linux.Base.length line))

abbrev psi_lines : Bytes → Bytes → List Bytes
psi_lines first second = first ∷ second ∷ []

some-Holds :
    Holds length_scan (codes "some") (psi_of 6) (psi_lines (codes "some 1") (codes "full 12"))
some-Holds = record {
  before = [];
  line = codes "some 1";
  behind = codes "full 12" ∷ [];
  split = refl;
  unlabelled = tt;
  labelled = refl;
  scanned = refl;
}

full-Holds :
    Holds length_scan (codes "full") (psi_of 7) (psi_lines (codes "some 1") (codes "full 12"))
full-Holds = record {
  before = codes "some 1" ∷ [];
  line = codes "full 12";
  behind = [];
  split = refl;
  unlabelled = (refl, tt);
  labelled = refl;
  scanned = refl;
}

some-Holds_later : Holds length_scan (codes "some") (psi_of 16) (codes "some 1234567890x" ∷ [])
some-Holds_later = record {
  before = [];
  line = codes "some 1234567890x";
  behind = [];
  split = refl;
  unlabelled = tt;
  labelled = refl;
  scanned = refl;
}

abbrev threads : Nbprocs.Settings
threads = record Nbprocs.defaults { threads = true }

argument_none : parse_argument whole none ≡ some none
unfolding parse_argument
argument_none = refl

-- The total is the length of the line.
abbrev psi_at : ℕ → ProcPsiOneline ℤ
psi_at n = record { total = n; avg10 = pos 0; avg60 = pos 0; avg300 = pos 0 }

abbrev scan_length : ℕ → Bytes → Option (ProcPsiOneline ℤ)
scan_length n line = some (psi_at (nagios_plugins_linux.Base.length line))

abbrev io_file : Psi
io_file = record {
  before = some (psi_lines (codes "some 1") (codes "full 12"));
  before_full = some (psi_lines (codes "some 1") (codes "full 12"));
  after = some (codes "some 1234567890x" ∷ []);
  after_full = some (psi_lines (codes "some 1") (codes "full 12"));
}

some_before :
    Holds scan_length (codes "some") (psi_at 6) (psi_lines (codes "some 1") (codes "full 12"))
some_before = record {
  before = [];
  line = codes "some 1";
  behind = codes "full 12" ∷ [];
  split = refl;
  unlabelled = tt;
  labelled = refl;
  scanned = refl;
}

full_before :
    Holds scan_length (codes "full") (psi_at 7) (psi_lines (codes "some 1") (codes "full 12"))
full_before = record {
  before = codes "some 1" ∷ [];
  line = codes "full 12";
  behind = [];
  split = refl;
  unlabelled = (refl, tt);
  labelled = refl;
  scanned = refl;
}

some_after : Holds scan_length (codes "some") (psi_at 16) (codes "some 1234567890x" ∷ [])
some_after = record {
  before = [];
  line = codes "some 1234567890x";
  behind = [];
  split = refl;
  unlabelled = tt;
  labelled = refl;
  scanned = refl;
}

abbrev full_io : Starved.Settings
full_io = record Starved.defaults { pressure_mode = Starved.linux_psi_io; threshold_full = true }

full_io_read : Starved.process_options (Starved.opt_io ∷ Starved.opt_full ∷ []) ≡ returns full_io
unfolding Starved.process_options getopt_loop Starved.switch_option
full_io_read = refl

five_read : Starved.read_delay (codes "5" ∷ []) ≡ returns 5
unfolding Starved.read_delay checked_delay strtol_or_err strtol_checked strtol
five_read = refl

main-starvation_example :
    (shown : ProcPsiTwolines ℤ) × (Starved.main whole scan_length
        (Starved.opt_io ∷ Starved.opt_full ∷ [])
        (codes "5" ∷ [])
        io_file
        io_file
        io_file
      ≡ returns (
          Starved.two_report
            (ladder (alerts whole (pos 0) none) (alerts whole (pos 0) none))
            shown
            ((16 - 6) / 5)
            ((7 - 7) / 5)))
main-starvation_example =
    main-starvation whole scan_length (Starved.opt_io ∷ Starved.opt_full ∷ []) (codes "5" ∷ [])
      io_file io_file io_file full_io 5 none none full_io_read tt argument_none argument_none
      five_read (omega arith) refl some_before full_before some_after full_before (omega arith)
      (omega arith) (omega arith) (omega arith)
