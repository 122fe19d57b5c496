-- ===== src/Tests/Programs.antt =====
-- Runs of programs over counters that grow.
use nagios_plugins_linux.Base.{
  ℕ, zero, suc, ◌+◌, ◌%◌, ◌^◌, ◌≡◌, refl, true, false, [], ◌∷◌, ◌++◌, List, Option, none, some,
  Bytes, codes, arith, length,
}
use nagios_plugins_linux.Base.Int.{pos}
use nagios_plugins_linux.Base.Numeral.{Number, strtol}
use nagios_plugins_linux.Messages.{returns}
use nagios_plugins_linux.Messages.Worst.{ladder}
use nagios_plugins_linux.Thresholds.{Range, parse_argument, parse_range_string, alerts}
use nagios_plugins_linux.Xstrton.{strtol_or_err, strtol_checked}
use nagios_plugins_linux.Cpustats.{cpu_stats_get_cswch, cpu_stats_get_value_with_pattern}
use nagios_plugins_linux.Interrupts.{Result, counters}
use nagios_plugins_linux.Sysfs.{File, fc_statistic, Entry, getline, getvalue, strip}
use nagios_plugins_linux.Program.{Limits, no_limits, opt_critical, getopt_loop, switch_option}
use nagios_plugins_linux.Program.Arguments.{
  read_arguments, read_count, checked_count, checked_delay,
}
use nagios_plugins_linux.Program.Rates.{rate}
use nagios_plugins_linux.Cswch
use nagios_plugins_linux.Cswch.Rate.{main-rate}
use nagios_plugins_linux.Intr.{get_intrdelta}
use nagios_plugins_linux.Intr.Rate.{arrays, get_intrdelta-rate}
use nagios_plugins_linux.Fc
use nagios_plugins_linux.Fc.Ports.{hosts, online, sum_of_growth, AreRead, fc_host_status-counts}
use nagios_plugins_linux.Tests.{whole}

-- The i-th reading holds i.
abbrev stat : ℕ → Option (List Bytes)
stat i = some (codes "cpu 1" ∷ (codes "ctxt " ++ i ∷ []) ∷ [])

abbrev first_byte : Bytes → Option ℕ
first_byte [] = none
first_byte (c ∷ cs) = some c

stat_read : (i : ℕ) → cpu_stats_get_cswch first_byte (stat i) ≡ returns i
unfolding cpu_stats_get_cswch cpu_stats_get_value_with_pattern
stat_read i = refl

abbrev limited : Limits
limited = record no_limits { critical = some (codes "5") }

five : (r : Option (Range whole)) × (parse_argument whole limited.critical ≡ some r)
unfolding parse_argument parse_range_string strtol
five = (_, refl)

options_read : getopt_loop switch_option (opt_critical (codes "5") ∷ []) no_limits ≡ returns limited
unfolding getopt_loop switch_option
options_read = refl

argument_none : parse_argument whole none ≡ some none
unfolding parse_argument
argument_none = refl

two_three : read_arguments (codes "2" ∷ codes "3" ∷ []) ≡ returns (record { delay = 2; count = 3 })
unfolding read_arguments read_count checked_count checked_delay strtol_or_err strtol_checked strtol
two_three = refl

main-rate_example :
    let v = pos (rate (λ i. i) 2 1) in
    Cswch.main first_byte whole (opt_critical (codes "5") ∷ []) (codes "2" ∷ codes "3" ∷ []) stat
    ≡ returns (record {
      status = ladder (alerts whole v five.0) (alerts whole v none);
      dnctxt = rate (λ i. i) 2 1;
      per_second = true;
    })
main-rate_example =
    main-rate first_byte whole (opt_critical (codes "5") ∷ []) (codes "2" ∷ codes "3" ∷ []) stat
      (λ i. i) limited 2 1 none five.0 options_read two_three argument_none five.1 stat_read

abbrev per_cpu : ℕ → Result
per_cpu i = counters (i ∷ 2 ∷ [])

get_intrdelta-rate_example :
    get_intrdelta (λ i. returns (i + i)) per_cpu 4 2
    ≡ returns (rate (λ i. i + i) 2 2, arrays per_cpu 2)
get_intrdelta-rate_example =
    get_intrdelta-rate (λ i. returns (i + i)) per_cpu (λ i. i + i) 2 2 (omega arith) (λ i. refl)

-- A counter is 5 at the start and 9 later.
abbrev text_at : ℕ → Bytes
text_at zero = codes "5"
text_at (suc t) = codes "9"

abbrev value_at : ℕ → Bytes → Bytes → ℕ
value_at zero host which = b'5'
value_at (suc t) host which = b'9'

abbrev sysfs : ℕ → File → Option Bytes
sysfs t (fc_statistic host which) = some (text_at t)
sysfs t file = some (codes "Online")

abbrev code_of : Bytes → Number ℕ
code_of [] = record { value = 0; used = 0; failed = false }
code_of (c ∷ cs) = record { value = c; used = 1; failed = false }

statistic_read :
    (t : ℕ) (host which : Bytes)
    → Fc.fc_host_get_statistic code_of sysfs which host t ≡ returns (value_at t host which)
unfolding Fc.fc_host_get_statistic getvalue getline strip
statistic_read zero host which = refl
statistic_read (suc t) host which = refl

abbrev state_at : ℕ → Bytes → Bytes
state_at t host = codes "Online"

sysfs-AreRead : AreRead value_at state_at 0 code_of sysfs
unfolding getline strip
sysfs-AreRead = (statistic_read, λ t host. refl)

abbrev host0 : Entry
host0 = record { d_name = codes "host0"; d_type = 10 }

abbrev no_host : Entry
no_host = record { d_name = codes ".."; d_type = 4 }

fc_host_status-counts_example :
    let found = hosts (no_host ∷ host0 ∷ []) in
    (s : Fc.Totals) × (Fc.fc_host_status code_of sysfs (some (no_host ∷ host0 ∷ [])) false 2
      ≡ Fc.done s)
    × (s.n_ports ≡ length found)
    × (s.n_online ≡ online value_at state_at 0 0 found)
    × (s.stats.rx_frames ≡ sum_of_growth value_at state_at 0 (codes "rx_frames") 0 found % 2 ^ 64)
    × (s.stats.tx_frames ≡ sum_of_growth value_at state_at 0 (codes "tx_frames") 0 found % 2 ^ 64)
fc_host_status-counts_example =
    fc_host_status-counts code_of sysfs value_at state_at 0 (no_host ∷ host0 ∷ []) sysfs-AreRead
