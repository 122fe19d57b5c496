-- ===== src/Temperature/Zones.antt =====
-- The zone that plugins/check_temperature.c decides on.
use nagios_plugins_linux.Base.{ℕ, ◌<◌, ◌^◌, ◌≡◌, refl, true, List, Option, some, Bytes, arith}
use nagios_plugins_linux.Base.Int.{ℤ, pos, bits64, ◌/ℤ◌}
use nagios_plugins_linux.Base.Double.{Double}
use nagios_plugins_linux.Base.Numeral.{Number}
use nagios_plugins_linux.Messages.{returns}
use nagios_plugins_linux.Messages.Worst.{ladder}
use nagios_plugins_linux.Thresholds.{Range, parse_argument, alerts, get_status}
use nagios_plugins_linux.Program.Ladder.{thresholds_or_usage-parsed}
use nagios_plugins_linux.Sysfs.{File, thermal_get_critical_temperature, thermal_get_device}
use nagios_plugins_linux.Sysfs.Hottest.{
  AllRead, highest, some_selected, thermal_get_temperature-highest, IsAt, Any,
}
use nagios_plugins_linux.Temperature.{
  Settings, Opt, process_options, Celsius, get_real_temp, Report, report, main, shown_limit,
}

bits64-pos : (n : ℕ) → n < 2 ^ 31 → bits64 (pos n) ≡ n
bits64-pos n h = omega arith

-- With options that are read, ranges that can be parsed, selected zones that can all be read, of
-- which there is one and none of 2^31 or more, and critical trip points that can be read,
-- check_temperature decides on the highest temperature in the unit asked for: CRITICAL if it alerts
-- the critical range, else WARNING if it alerts the warning range, else OK.
pub main-hottest :
    (strtoull : Bytes → Number ℕ) (sysfs : File → Option Bytes) (d : Double) (k : Celsius d.D)
    (temp_of : Bytes → ℕ) (opts : List Opt) (names : List Bytes) (zone : ℕ) (kind : Option Bytes)
    (s : Settings) (w c : Option (Range d)) (limit : ℕ → ℤ)
    → process_options opts ≡ returns s
    → parse_argument d s.warning ≡ some w
    → parse_argument d s.critical ≡ some c
    → AllRead strtoull sysfs s.selected_thermal_zone temp_of names
    → some_selected strtoull sysfs s.selected_thermal_zone temp_of names ≡ true
    → highest strtoull sysfs s.selected_thermal_zone temp_of 0 names < 2 ^ 31
    → ((z : ℕ) → thermal_get_critical_temperature strtoull sysfs z ≡ returns (limit z))
    → let hottest = highest strtoull sysfs s.selected_thermal_zone temp_of 0 names in
      let v = get_real_temp d k hottest s.temperature_unit in
      (r : Report d.D) × (main strtoull sysfs d k opts true (some names) zone kind ≡ returns r)
      × (r.real_temp ≡ v)
      × Any (IsAt strtoull sysfs s.selected_thermal_zone temp_of r.thermal_zone hottest) names
      × (r.status ≡ ladder (alerts d v c) (alerts d v w))
unfolding main report get_status
main-hottest strtoull sysfs d k temp_of opts names zone kind s w c limit o hw hc all one small
      crit =
    let (z, last, e, found) =
      thermal_get_temperature-highest strtoull sysfs s.selected_thermal_zone temp_of names zone kind
        all one small in
    let same = bits64-pos (highest strtoull sysfs s.selected_thermal_zone temp_of 0 names) small in
    let hottest = highest strtoull sysfs s.selected_thermal_zone temp_of 0 names in
    let v = get_real_temp d k (bits64 (pos hottest)) s.temperature_unit in
    (
      record {
        status = ladder (alerts d v c) (alerts d v w);
        real_temp = v;
        thermal_zone = z;
        device = thermal_get_device sysfs z;
        kind = last;
        critical_temp = shown_limit s.selected_thermal_zone (◌/ℤ◌ (limit z) (pos 1000));
      },
      rw (o, thresholds_or_usage-parsed d s.warning s.critical w c hw hc, e, crit z) refl,
      rw same refl,
      found,
      rw same refl,
    )
