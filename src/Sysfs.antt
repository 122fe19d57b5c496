-- ===== src/Sysfs.antt =====
-- lib/sysfsparser.c: the values of files of sysfs, and the thermal zones. A file is what the first
-- `getline` reads from it: `none` where it cannot be opened or is empty. `strtoull` with base 0 is a
-- parameter.
pub mod Hottest
use nagios_plugins_linux.Base.{
  ℕ, ◌+◌, ◌-◌, Bool, true, false, ◌&&◌, ◌||◌, not, [], ◌∷◌, List, Option, none, some, Bytes, codes,
  streq, starts_with, drop, length, get_or, is_space, ltb, leb, ◌==◌, if◌then◌else◌, u32,
}
use nagios_plugins_linux.Base.Int.{ℤ, pos, negsuc, to_int}
use nagios_plugins_linux.Base.Numeral.{Number, strtol, strtoul}
use nagios_plugins_linux.Messages.{state_unknown, Outcome, returns, plugin_error, ◌>>=◌}

-- The files that are read, by the numbers and names that their paths are made of.
pub data File : Type 0 where
  cpufreq_file : ℕ → Bytes → File
  zone_file : Bytes → Bytes → File
  trip_type trip_temp : ℕ → ℕ → File
  device_path : ℕ → File
  kernel_max : File
  thread_siblings core_siblings : ℕ → File
  fc_port_state : Bytes → File
  fc_statistic : Bytes → Bytes → File

-- The entries of a directory, as `readdir` returns them: `d_name` and `d_type`.
pub record Entry : Type 0 where
  pub d_name : Bytes
  pub d_type : ℕ

abbrev pub is_dot : Bytes → Bool
is_dot name = streq name (codes ".") || streq name (codes "..")

-- `common` is whether `dp->d_type & flags` is not 0; `failed` is the error of the last `readdir`.
-- The result is the entry and the rest of the directory.
unfoldable pub readfilename : (ℕ → Bool) → List Entry → Bool → Outcome (Option (Entry × List Entry))
readfilename common [] failed = if failed then plugin_error state_unknown else returns none
readfilename common (dp ∷ rest) failed =
    let next = readfilename common rest failed in
    if is_dot dp.d_name then next else if common dp.d_type then returns (some (dp, rest)) else next

-- The text without a newline at its end.
unfoldable pub strip : Bytes → Bytes
strip [] = []
strip (c ∷ cs) = if c == 10 && streq cs [] then [] else c ∷ strip cs

-- `line[len-1]` of an empty text lies in front of it.
pub data Text : Type 0 where
  no_text : Text
  text : Bytes → Text
  out_of_bounds : Text

abbrev stripped_again : Bytes → Text
stripped_again [] = out_of_bounds
stripped_again (c ∷ cs) = text (strip (c ∷ cs))

-- The return value of `sysfsparser_getvalue` and `*value`.
pub record Value : Type 0 where
  pub succeeded : Bool
  pub value : ℕ

module _ (sysfs : File → Option Bytes) where
  unfoldable pub getline : File → Option Bytes
  unfolding strip
  getline file = elim (sysfs file) [ none ↦ none | some line ↦ some (strip line) ]

  number : Option Bytes → ℕ
  number none = 0
  number (some line) = let r = strtoul line in if r.used == 0 || r.failed then 0 else r.value

  unfoldable pub cpufreq_get_value : ℕ → Bytes → ℕ
  unfolding getline number
  cpufreq_get_value cpunum which = number (getline (cpufreq_file cpunum which))

  again : Option Bytes → Text
  unfolding strip
  again none = no_text
  again (some line) = stripped_again line

  unfoldable pub cpufreq_get_string : ℕ → Bytes → Text
  unfolding getline again
  cpufreq_get_string cpunum which = again (getline (cpufreq_file cpunum which))

  -- The return value, 0 or -ENODEV, with `*min` and `*max`, which are not null.
  unfoldable pub cpufreq_get_hardware_limits : ℕ → ℕ → ℕ → ℤ × ℕ × ℕ
  unfolding cpufreq_get_value
  cpufreq_get_hardware_limits cpu old_min old_max =
      let min = cpufreq_get_value cpu (codes "cpuinfo_min_freq") in
      let max = cpufreq_get_value cpu (codes "cpuinfo_max_freq") in
      if min == 0
      then (negsuc 18, min, old_max)
      else if max == 0
      then (negsuc 18, min, max)
      else (pos 0, min, max)

  unfoldable pub cpufreq_get_freq_kernel : ℕ → ℕ
  unfolding cpufreq_get_value
  cpufreq_get_freq_kernel cpu = cpufreq_get_value cpu (codes "scaling_cur_freq")

  unfoldable pub cpufreq_get_available_freqs : ℕ → Text
  unfolding cpufreq_get_string
  cpufreq_get_available_freqs cpu = cpufreq_get_string cpu (codes "scaling_available_frequencies")

  unfoldable pub cpufreq_get_transition_latency : ℕ → ℕ
  unfolding cpufreq_get_value
  cpufreq_get_transition_latency cpu = cpufreq_get_value cpu (codes "cpuinfo_transition_latency")

  unfoldable pub cpufreq_get_driver : ℕ → Text
  unfolding cpufreq_get_string
  cpufreq_get_driver cpu = cpufreq_get_string cpu (codes "scaling_driver")

  unfoldable pub cpufreq_get_governor : ℕ → Text
  unfolding cpufreq_get_string
  cpufreq_get_governor cpu = cpufreq_get_string cpu (codes "scaling_governor")

  unfoldable pub cpufreq_get_available_governors : ℕ → Text
  unfolding cpufreq_get_string
  cpufreq_get_available_governors cpu = cpufreq_get_string cpu (codes "scaling_available_governors")

  unfoldable pub thermal_get_device : ℕ → Bytes
  unfolding getline
  thermal_get_device thermal_zone = elim (getline (device_path thermal_zone)) [
    | none ↦ codes "Virtual device"
    | some device ↦ if starts_with (codes "\\_TZ_.") device then drop 6 device else device
  ]

-- The loop over `line + len`; the value written, or `none` for the result 0.
unfoldable pub linelookup_numeric : Bytes → Bytes → Option ℤ
linelookup_numeric line pattern =
    if streq line [] || ltb (length line) (length pattern + 1)
    then none
    else if not (starts_with pattern line) || not (is_space (get_or line (length pattern) 0))
    then none
    else some (strtol (drop (length pattern) line)).value

-- The variables of `sysfsparser_thermal_get_temperature`; `kind` is `*type`.
pub record Thermal : Type 0 where
  pub found_data : Bool
  pub max_temp : ℕ
  pub temp : ℕ
  pub zone : ℕ
  pub kind : Option Bytes

-- The number behind `thermal_zone` in a name, as an `unsigned int`.
abbrev pub zone_of : Bytes → ℕ
zone_of d_name = u32 (strtoul (drop 12 d_name)).value

-- The names that the loop does not leave out; `none` is ALL_THERMAL_ZONES.
abbrev pub is_selected : Option ℕ → Bytes → Bool
is_selected none d_name = not (is_dot d_name) && starts_with (codes "thermal_zone") d_name
is_selected (some z) d_name =
    (not (is_dot d_name) && starts_with (codes "thermal_zone") d_name) && zone_of d_name == z

abbrev pub start : ℕ → Option Bytes → Thermal
start zone kind = record { found_data = false; max_temp = 0; temp = 0; zone = zone; kind = kind }

module _ (strtoull : Bytes → Number ℕ) (sysfs : File → Option Bytes) where
  converted : ℕ → Option Bytes → Value
  converted old none = record { succeeded = false; value = old }
  converted old (some line) =
      let r = strtoull line in record { succeeded = not (r.used == 0 || r.failed); value = r.value }

  -- `old` is what `*value` holds before.
  unfoldable pub getvalue : ℕ → File → Value
  unfolding getline converted
  getvalue old file = converted old (getline sysfs file)

  -- One of the four trip points: `continue`, or the value of a critical one and `break`.
  unfoldable pub trip_point : ℕ → ℕ → Option Bytes → Option Value
  unfolding getvalue
  trip_point thermal_zone i none = none
  trip_point thermal_zone i (some kind) =
      if starts_with (codes "critical") kind
      then some (getvalue 0 (trip_temp thermal_zone i))
      else none

  unfoldable pub critical_in : ℕ → List ℕ → Outcome ℕ
  unfolding trip_point getline
  critical_in thermal_zone [] = returns 0
  critical_in thermal_zone (i ∷ is) =
      let later = critical_in thermal_zone is in
      elim (trip_point thermal_zone i (getline sysfs (trip_type thermal_zone i)))
        as (λ o. Outcome ℕ) [
          | none ↦ later
          | some v ↦ if v.succeeded then returns v.value else plugin_error state_unknown
        ]

  unfoldable pub thermal_get_critical_temperature : ℕ → Outcome ℤ
  unfolding critical_in
  thermal_get_critical_temperature thermal_zone =
      critical_in thermal_zone (0 ∷ 1 ∷ 2 ∷ 3 ∷ []) >>= λ crit_temp. returns (to_int crit_temp)

  -- The round for a zone.
  unfoldable pub read_zone : Bytes → Thermal → Thermal
  unfolding getvalue getline
  read_zone d_name s =
      let v = getvalue s.temp (zone_file d_name (codes "temp")) in
      let hotter = ltb s.max_temp v.value || s.max_temp == 0 in
      record {
        found_data = true;
        max_temp = if hotter then v.value else s.max_temp;
        temp = v.value;
        zone = if hotter then zone_of d_name else s.zone;
        kind = getline sysfs (zone_file d_name (codes "type"));
      }

  unfoldable pub read_zones : Option ℕ → List Bytes → Thermal → Thermal
  unfolding read_zone
  read_zones selected_zone [] s = s
  read_zones selected_zone (d_name ∷ names) s =
      read_zones selected_zone names
        (if is_selected selected_zone d_name then read_zone d_name s else s)

  -- `names` is the directory, `none` where there is no thermal support or `opendir` fails; `zone` and
  -- `kind` are what `*zone` and `*type` hold before. The temperature, `*zone` and `*type`.
  unfoldable pub thermal_get_temperature :
      Option ℕ → Option (List Bytes) → ℕ → Option Bytes → Outcome (ℤ × ℕ × Option Bytes)
  unfolding read_zones
  thermal_get_temperature selected_zone none zone kind = plugin_error state_unknown
  thermal_get_temperature selected_zone (some names) zone kind =
      let s = read_zones selected_zone names (start zone kind) in
      if s.found_data
      then returns (to_int s.max_temp, s.zone, s.kind)
      else plugin_error state_unknown
