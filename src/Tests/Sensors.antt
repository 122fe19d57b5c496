-- ===== src/Tests/Sensors.antt =====
-- Files of sysfs and lines of /proc/interrupts.
use nagios_plugins_linux.Base.{
  ℕ, ◌≡◌, refl, true, false, [], ◌∷◌, List, Option, none, some, Bytes, codes, arith, replicate,
  length, contains, if◌then◌else◌,
}
use nagios_plugins_linux.Base.Int.{ℤ, pos, ◌+ℤ◌, to_int}
use nagios_plugins_linux.Base.Numeral.{strtoul}
use nagios_plugins_linux.Messages.{returns}
use nagios_plugins_linux.Messages.Worst.{ladder}
use nagios_plugins_linux.Thresholds.{parse_argument, alerts}
use nagios_plugins_linux.Program.{getopt_loop}
use nagios_plugins_linux.Temperature
use nagios_plugins_linux.Temperature.Zones.{main-hottest}
use nagios_plugins_linux.Tests.{whole}
use nagios_plugins_linux.Sysfs.{
  File, zone_file, critical_in, trip_point, thermal_get_critical_temperature, getvalue, getline,
  strip,
}
use nagios_plugins_linux.Sysfs.Hottest.{Any, highest, IsAt}
use nagios_plugins_linux.Cpufreq.{cpufreq_freq_to_string, hundredths}
use nagios_plugins_linux.Cpufreq.Rounding.{IsNearest, cpufreq_freq_to_string-IsNearest}
use nagios_plugins_linux.Cputopology.{cpumask_parse, parse_mask, char_to_val, without_prefix}
use nagios_plugins_linux.Cputopology.Mask.{weight, cpumask_parse-weight}
use nagios_plugins_linux.Cpudesc.{CpuDesc, no_mode, read_flags, cpu_desc_get_virtualization_flag}
use nagios_plugins_linux.Cpudesc.Words.{spaced, is_word, but_last, read_flags-is_word}
use nagios_plugins_linux.Interrupts.{
  counters, proc_interrupts_get_nintr_per_cpu, read_columns, read_lines, next_value,
}
use nagios_plugins_linux.Interrupts.Columns.{
  Line, AreNumbers, texts_of, sums, proc_interrupts_get_nintr_per_cpu-sums,
}

-- Every file reads 41000.
abbrev sysfs : File → Option Bytes
sysfs file = some (codes "41000")

abbrev zone0 : Bytes
zone0 = codes "thermal_zone0"

abbrev hot : Bytes → ℕ
hot name = 41000

zone0_read : (old : ℕ) → (getvalue strtoul sysfs old (zone_file zone0 (codes "temp"))).value ≡ 41000
unfolding getvalue strtoul getline strip
zone0_read old = refl

abbrev kelvin : Temperature.Settings
kelvin = record Temperature.defaults { temperature_unit = Temperature.temp_kelvin }

kelvin_read : Temperature.process_options (Temperature.opt_kelvin ∷ []) ≡ returns kelvin
unfolding Temperature.process_options getopt_loop Temperature.switch_option
kelvin_read = refl

argument_none : parse_argument whole none ≡ some none
unfolding parse_argument
argument_none = refl

abbrev rounded_constants : Temperature.Celsius ℤ
rounded_constants = record { plus = ◌+ℤ◌; one_eight = pos 2; absolute_zero = pos 273 }

-- No trip point is critical.
no_trip_point : (z : ℕ) → thermal_get_critical_temperature strtoul sysfs z ≡ returns (pos 0)
unfolding thermal_get_critical_temperature critical_in trip_point getvalue getline strip to_int
no_trip_point z = refl

main-hottest_example :
    let hottest = highest strtoul sysfs none hot 0 (zone0 ∷ []) in
    let v = Temperature.get_real_temp whole rounded_constants hottest Temperature.temp_kelvin in
    (r : Temperature.Report ℤ) × (Temperature.main strtoul sysfs whole rounded_constants
        (Temperature.opt_kelvin ∷ [])
        true
        (some (zone0 ∷ []))
        7
        none
      ≡ returns r)
    × (r.real_temp ≡ v)
    × Any (IsAt strtoul sysfs none hot r.thermal_zone hottest) (zone0 ∷ [])
    × (r.status ≡ ladder (alerts whole v none) (alerts whole v none))
main-hottest_example =
    main-hottest strtoul sysfs whole rounded_constants hot (Temperature.opt_kelvin ∷ [])
      (zone0 ∷ []) 7 none kelvin none none (λ z. pos 0) kelvin_read argument_none argument_none
      ((λ s. zone0_read), tt) refl (omega arith) no_trip_point

cpufreq_freq_to_string-IsNearest_example : IsNearest 2995000 (cpufreq_freq_to_string 2995000)
cpufreq_freq_to_string-IsNearest_example = cpufreq_freq_to_string-IsNearest 2995000 (omega arith)

freq_runs : cpufreq_freq_to_string 2995000 ≡ hundredths 3 0
unfolding cpufreq_freq_to_string
freq_runs = refl

abbrev mask : Bytes
mask = codes "f,0000000f"

mask_runs : cpumask_parse 64 (some mask) ≡ some (pos 8)
unfolding cpumask_parse parse_mask char_to_val
mask_runs = refl

cpumask_parse-weight_example :
    cpumask_parse 64 (some mask) ≡ some (pos (weight (without_prefix mask)))
unfolding char_to_val
cpumask_parse-weight_example =
    cpumask_parse-weight 64 mask
      (refl, (refl, (refl, (refl, (refl, (refl, (refl, (refl, (refl, tt))))))))) (omega arith)

abbrev no_desc : CpuDesc
no_desc = record {
  refcount = pos 1;
  arch = none;
  vendor = none;
  family = none;
  model = none;
  modelname = none;
  virtflag = none;
  mhz = none;
  flags = none;
  mode = no_mode;
  ncpus = pos 1;
  ncpuspos = pos 1;
}

abbrev flags : List Bytes
flags = codes "vmx" ∷ codes "lm" ∷ []

read_flags-is_word_example :
    cpu_desc_get_virtualization_flag (read_flags (some (spaced (codes "fpu" ∷ flags))) no_desc) ≡ (
      if is_word (codes "svm") (but_last (codes "fpu" ∷ flags))
      then some (codes "AMD-V")
      else if is_word (codes "vmx") (but_last (codes "fpu" ∷ flags))
      then some (codes "VT-x")
      else none)
read_flags-is_word_example =
    read_flags-is_word no_desc (codes "fpu") flags (refl, (refl, (refl, tt))) refl

-- `  0:         12          7  timer`
abbrev timer : Line
timer = record {
  name = codes "  0";
  columns =
      record { spaces = 9; digits = codes "12" } ∷ record { spaces = 8; digits = codes "7" } ∷ [];
  tail = codes "timer";
}

interrupts_run :
    proc_interrupts_get_nintr_per_cpu
      (some (codes "CPU0" ∷ codes "  0:         12          7  timer" ∷ []))
      2
    ≡ counters (12 ∷ 7 ∷ [])
unfolding proc_interrupts_get_nintr_per_cpu read_lines read_columns next_value strtoul
interrupts_run = refl

-- One space between two numbers: the second loses its first digit.
narrow_run :
    proc_interrupts_get_nintr_per_cpu (some (codes "CPU0" ∷ codes "  0: 12 34  timer" ∷ [])) 2
    ≡ counters (12 ∷ 4 ∷ [])
unfolding proc_interrupts_get_nintr_per_cpu read_lines read_columns next_value strtoul
narrow_run = refl

timer_line :
    (contains b':' timer.name ≡ false) × AreNumbers timer.columns × (length timer.columns ≡ 2)
timer_line = (
  refl,
  (((refl, (refl, tt)), omega arith, omega arith), (((refl, tt), omega arith, omega arith), tt)),
  refl,
)

proc_interrupts_get_nintr_per_cpu-sums_example :
    proc_interrupts_get_nintr_per_cpu (some (codes "CPU0" ∷ texts_of (timer ∷ timer ∷ []))) 2
    ≡ counters (sums (replicate 2 0) (timer ∷ timer ∷ []))
proc_interrupts_get_nintr_per_cpu-sums_example =
    proc_interrupts_get_nintr_per_cpu-sums (codes "CPU0") (timer ∷ timer ∷ []) 2
      (timer_line, (timer_line, tt))
