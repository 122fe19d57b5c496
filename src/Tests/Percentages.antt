-- ===== src/Tests/Percentages.antt =====
-- Two readings of a /proc/stat with the user times of all processors only.
use nagios_plugins_linux.Base.{
  ℕ, ◌*◌, ◌≡◌, refl, true, [], ◌∷◌, List, Option, none, some, Bytes, codes,
}
use nagios_plugins_linux.Base.Int.{ℤ, pos}
use nagios_plugins_linux.Base.Numeral.{strtol}
use nagios_plugins_linux.Messages.{returns}
use nagios_plugins_linux.Messages.Worst.{ladder}
use nagios_plugins_linux.Thresholds.{
  Range, parse_argument, parse_range_string, thresholds_expressed_as_percentages,
}
use nagios_plugins_linux.Program.Arguments.{Arguments, read_arguments, read_count}
use nagios_plugins_linux.Cpudesc.{CpuDesc, cpu_desc_new, cpu_desc_read}
use nagios_plugins_linux.Cpustats.{cpu_stats_get_time, read_times, store_times, modify_at}
use nagios_plugins_linux.Cpu.{
  Share, shares, measure, measure_again, first_share, next_share, with_ratio, idle_step,
}
use nagios_plugins_linux.Cpu.Options.{
  Settings, defaults, opt_critical, program_part, process_options, read_command_line,
}
use nagios_plugins_linux.Cpu.Whole.{System, reports, model_of, measured, main}
use nagios_plugins_linux.Cpu.Whole.Worst.{some_alerts, main-some_alerts}
use nagios_plugins_linux.Tests.{whole}

-- The byte behind the name of the line.
abbrev one_byte : Bytes → List ℕ
one_byte (c ∷ p ∷ u ∷ space ∷ n ∷ rest) = n ∷ []
one_byte line = []

abbrev name_of : ℕ → Bytes
name_of n = n ∷ []

abbrev same : ℤ → ℤ
same x = x

abbrev system : System
system = record {
  mounted = true;
  allocated = true;
  cpuinfo = some [];
  machine = some (codes "x86_64");
  total = pos 1;
  kernel_max = pos 4;
  stat = λ i. some ((b'c' ∷ b'p' ∷ b'u' ∷ b' ' ∷ i * 5 ∷ []) ∷ []);
}

abbrev asked : Settings
asked = record defaults { critical = some (codes "50%") }

abbrev twice : Arguments
twice = record { delay = 1; count = 2 }

named : program_part (codes "check_cpu") ≡ returns (codes "cpu")
unfolding program_part
named = refl

line_read : read_command_line (opt_critical (codes "50%") ∷ []) [] ≡ returns (asked, twice)
unfolding read_command_line process_options thresholds_expressed_as_percentages read_arguments
    read_count
line_read = refl

half : (r : Option (Range whole)) × (parse_argument whole asked.critical ≡ some r)
unfolding parse_argument parse_range_string strtol
half = (_, refl)

argument_none : parse_argument whole none ≡ some none
unfolding parse_argument
argument_none = refl

times_read :
    (ss : List Share) × (measured whole same one_byte one_byte name_of system asked twice
      ≡ shares ss)
unfolding measure measure_again first_share next_share with_ratio idle_step cpu_stats_get_time
    read_times store_times modify_at
times_read = (_, refl)

described :
    (r : Option CpuDesc) × (cpu_desc_read
        (some [])
        (some (codes "x86_64"))
        (pos 1)
        (pos 4)
        (cpu_desc_new true).1
      ≡ returns r)
unfolding cpu_desc_read cpu_desc_new
described = (_, refl)

main-some_alerts_example :
    main whole same one_byte one_byte name_of
      (codes "check_cpu")
      (opt_critical (codes "50%") ∷ [])
      []
      system
    ≡ reports (record {
      status =
          ladder
            (some_alerts whole same (codes "cpu") half.0 times_read.0)
            (some_alerts whole same (codes "cpu") none times_read.0);
      model = model_of true described.0;
      shares = times_read.0;
    })
main-some_alerts_example =
    main-some_alerts whole same one_byte one_byte name_of (codes "check_cpu") (codes "cpu")
      (opt_critical (codes "50%") ∷ []) [] system asked twice none half.0 times_read.0 described.0
      named refl refl line_read argument_none half.1 times_read.1 described.1
