-- ===== src/Temperature.antt =====
-- plugins/check_temperature.c: the temperature of a thermal zone against the thresholds. The four
-- bytes of the units are left out.
pub mod Zones
use nagios_plugins_linux.Base.{
  ℕ, ◌/◌, ◌+◌, Bool, true, false, not, ◌||◌, ◌&&◌, [], ◌∷◌, List, Option, none, some, Bytes, length,
  if◌then◌else◌, ◌==◌, u32,
}
use nagios_plugins_linux.Base.Int.{ℤ, pos, negsuc, bits64, ltb_ℤ, ◌/ℤ◌}
use nagios_plugins_linux.Base.Double.{Double}
use nagios_plugins_linux.Base.Numeral.{Number, strtoul}
use nagios_plugins_linux.Messages.{
  NagStatus, state_ok, state_unknown, Outcome, returns, exits, plugin_error, ◌>>=◌,
}
use nagios_plugins_linux.Thresholds.{Thresholds, get_status}
use nagios_plugins_linux.Program.{getopt_loop, thresholds_or_usage}
use nagios_plugins_linux.Sysfs.{
  File, thermal_get_temperature, thermal_get_critical_temperature, thermal_get_device,
}

pub data Scale : Type 0 where
  temp_kelvin temp_celsius temp_fahrenheit : Scale

-- The variables of `main` that the options set; `none` is ALL_THERMAL_ZONES.
pub record Settings : Type 0 where
  pub temperature_unit : Scale
  pub selected_thermal_zone : Option ℕ
  pub critical : Option Bytes
  pub warning : Option Bytes

abbrev pub defaults : Settings
defaults = record {
  temperature_unit = temp_celsius;
  selected_thermal_zone = none;
  critical = none;
  warning = none;
}

-- `--fahrenheit` and `--kelvin` take an argument, `-f` and `-k` do not.
pub data Opt : Type 0 where
  opt_fahrenheit opt_kelvin opt_list opt_verbose opt_help opt_version opt_unrecognized : Opt
  opt_thermal_zone opt_critical opt_warning : Bytes → Opt

-- ALL_THERMAL_ZONES is (unsigned int) -1.
abbrev zone_number : ℕ → Option ℕ
zone_number n = if u32 n == 4294967295 then none else some (u32 n)

read_zone_option : Bytes → Settings → Outcome Settings
unfolding strtoul
read_zone_option optarg s =
    let n = strtoul optarg in
    if n.failed || n.used == 0 || not (n.used == length optarg)
    then plugin_error state_unknown
    else returns (record s { selected_thermal_zone = zone_number n.value })

unfoldable pub switch_option : Opt → Settings → Outcome Settings
unfolding read_zone_option
switch_option opt_fahrenheit s = returns (record s { temperature_unit = temp_fahrenheit })
switch_option opt_kelvin s = returns (record s { temperature_unit = temp_kelvin })
switch_option opt_list s = exits state_unknown
switch_option (opt_thermal_zone optarg) s = read_zone_option optarg s
switch_option (opt_critical optarg) s = returns (record s { critical = some optarg })
switch_option (opt_warning optarg) s = returns (record s { warning = some optarg })
switch_option opt_verbose s = exits state_unknown
switch_option opt_help s = exits state_ok
switch_option opt_version s = exits state_ok
switch_option opt_unrecognized s = exits state_unknown

unfoldable pub process_options : List Opt → Outcome Settings
unfolding getopt_loop switch_option
process_options opts = getopt_loop switch_option opts defaults

-- The arithmetic of `double` that `Double` does not have: the sum, and the constants 1.8 and 273.1.
pub record Celsius (D : Type 0) : Type 0 where
  pub plus : D → D → D
  pub one_eight : D
  pub absolute_zero : D

module _ (d : Double) (k : Celsius d.D) where
  unfoldable pub get_real_temp : ℕ → Scale → d.D
  get_real_temp temperature temp_celsius = d.div (d.of_ℤ (pos temperature)) (d.of_ℤ (pos 1000))
  get_real_temp temperature temp_fahrenheit =
      k.plus (d.mul (d.div (d.of_ℤ (pos temperature)) (d.of_ℤ (pos 1000))) k.one_eight)
        (d.of_ℤ (pos 32))
  get_real_temp temperature temp_kelvin =
      k.plus (d.div (d.of_ℤ (pos temperature)) (d.of_ℤ (pos 1000))) k.absolute_zero

-- What is printed and returned; the limit of the zone only where it is printed.
pub record Report (D : Type 0) : Type 0 where
  pub status : NagStatus
  pub real_temp : D
  pub thermal_zone : ℕ
  pub device : Bytes
  pub kind : Option Bytes
  pub critical_temp : Option ℤ

-- `crit_temp > 0 && ALL_THERMAL_ZONES != selected_thermal_zone`
abbrev shown_limit : Option ℕ → ℤ → Option ℤ
shown_limit none crit_temp = none
shown_limit (some zone) crit_temp = if ltb_ℤ (pos 0) crit_temp then some crit_temp else none

module _ (strtoull : Bytes → Number ℕ) (sysfs : File → Option Bytes) (d : Double)
    (k : Celsius d.D) where
  report : Settings → Thresholds d → ℤ × ℕ × Option Bytes → Outcome (Report d.D)
  unfolding get_real_temp get_status thermal_get_critical_temperature thermal_get_device ◌/ℤ◌
  report s my_threshold (max_temp, thermal_zone, kind) =
      let real_temp = get_real_temp d k (bits64 max_temp) s.temperature_unit in
      thermal_get_critical_temperature strtoull sysfs thermal_zone >>= λ crit_temp.
      returns (record {
        status = get_status d real_temp my_threshold;
        real_temp = real_temp;
        thermal_zone = thermal_zone;
        device = thermal_get_device sysfs thermal_zone;
        kind = kind;
        critical_temp = shown_limit s.selected_thermal_zone (◌/ℤ◌ crit_temp (pos 1000));
      })

  -- `names` is the directory of the thermal zones; `zone` and `kind` are what the variables of
  -- `main` hold before.
  unfoldable pub main :
      List Opt → Bool → Option (List Bytes) → ℕ → Option Bytes → Outcome (Report d.D)
  unfolding process_options thresholds_or_usage thermal_get_temperature report
  main opts mounted names zone kind = process_options opts >>= λ s.
      thresholds_or_usage d s.warning s.critical >>= λ t.
      if not mounted
      then exits state_unknown
      else thermal_get_temperature strtoull sysfs s.selected_thermal_zone names zone kind >>= λ r.
          report s t r
