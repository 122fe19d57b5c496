-- ===== src/Tests/Frequencies.antt =====
-- Two processors with a frequency and one without.
use nagios_plugins_linux.Base.{
  zero, suc, ◌≡◌, refl, true, [], ◌∷◌, Option, none, some, Bytes, codes,
}
use nagios_plugins_linux.Base.Int.{pos}
use nagios_plugins_linux.Base.Numeral.{strtol, strtoul}
use nagios_plugins_linux.Messages.{returns}
use nagios_plugins_linux.Messages.Worst.{ladder}
use nagios_plugins_linux.Thresholds.{Range, parse_argument, parse_range_string}
use nagios_plugins_linux.Program.{getopt_loop}
use nagios_plugins_linux.Cpudesc.{CpuDesc, cpu_desc_new, cpu_desc_read}
use nagios_plugins_linux.Sysfs.{
  File, cpufreq_file, getline, strip, cpufreq_get_value, cpufreq_get_freq_kernel,
}
use nagios_plugins_linux.Cpufreq.Monitor.{
  Settings, defaults, opt_mhz, opt_critical, switch_option, mhz, figures_from, model_of, System,
  main,
}
use nagios_plugins_linux.Cpufreq.Monitor.Worst.{known, some_alerts, main-worst}
use nagios_plugins_linux.Tests.{whole}

abbrev sysfs : File → Option Bytes
sysfs (cpufreq_file zero which) = some (codes "900")
sysfs (cpufreq_file (suc zero) which) = some (codes "700")
sysfs _ = none

abbrev system : System
system = record {
  mounted = true;
  allocated = true;
  cpuinfo = some [];
  machine = some (codes "x86_64");
  ncpus = pos 3;
  kernel_max = pos 4;
  sysfs = sysfs;
  sysfs_after = sysfs;
}

abbrev limited : Settings
limited = record defaults { critical = some (codes "800"); factor = mhz }

options_limited :
    getopt_loop switch_option (opt_critical (codes "800") ∷ opt_mhz ∷ []) defaults ≡ returns limited
unfolding getopt_loop switch_option
options_limited = refl

eight_hundred : (r : Option (Range whole)) × (parse_argument whole limited.critical ≡ some r)
unfolding parse_argument parse_range_string strtol
eight_hundred = (_, refl)

argument_none : parse_argument whole none ≡ some none
unfolding parse_argument
argument_none = refl

described :
    (r : Option CpuDesc) × (cpu_desc_read
        (some [])
        (some (codes "x86_64"))
        (pos 3)
        (pos 4)
        (cpu_desc_new true).1
      ≡ returns r)
unfolding cpu_desc_read cpu_desc_new
described = (_, refl)

freqs_known : known sysfs 3 0 ≡ 900 ∷ 700 ∷ []
unfolding cpufreq_get_freq_kernel cpufreq_get_value getline strip strtoul
freqs_known = refl

main-worst_example :
    let freqs = known sysfs 3 0 in
    main whole (λ scale freq. freq) (opt_critical (codes "800") ∷ opt_mhz ∷ []) system
    ≡ returns (record {
      status = ladder (some_alerts whole eight_hundred.0 freqs) (some_alerts whole none freqs);
      model = model_of true described.0;
      figures = figures_from (λ freq. freq) sysfs 3 0;
    })
main-worst_example =
    main-worst whole (λ scale freq. freq) (opt_critical (codes "800") ∷ opt_mhz ∷ []) system limited
      none eight_hundred.0 described.0 refl refl options_limited argument_none eight_hundred.1
      described.1
