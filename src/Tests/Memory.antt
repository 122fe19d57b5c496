-- ===== src/Tests/Memory.antt =====
-- The memory figures of a small /proc/meminfo, without MemAvailable and LowTotal.
use nagios_plugins_linux.Base.{
  ◌+◌, ◌-◌, ◌*◌, ◌/◌, ◌≡◌, refl, false, if◌then◌else◌, ◌==◌, min, [], ◌∷◌, List, none, some, arith,
  Bytes, codes,
}
use mathlib.Core.Option.{get_or}
use nagios_plugins_linux.Base.Int.{pos}
use nagios_plugins_linux.Base.Numeral.{strtoul}
use nagios_plugins_linux.Thresholds.{Range, outside}
use nagios_plugins_linux.Memory.{Settings, defaults}
use nagios_plugins_linux.Tests.{whole}
use nagios_plugins_linux.Messages.{returns}
use nagios_plugins_linux.Procparser.{split_at}
use nagios_plugins_linux.Procparser.Rows.{last_value}
use nagios_plugins_linux.Meminfo.{ProcSysmemData, zeroed, meminfo_unset, estimate, read_data}
use nagios_plugins_linux.Meminfo.Derived.{file_cache, estimate_lem}
use nagios_plugins_linux.Meminfo.Parsed.{Figure, label, figure, read_data-figure}
use nagios_plugins_linux.Meminfo.Fallbacks.{last_or_unset, read_data-available}
use nagios_plugins_linux.Tests.Tables.{linear}

abbrev meminfo : List Bytes
meminfo = codes "MemTotal:  900 kB" ∷ codes "MemFree: 100 kB" ∷ codes "Cached: 300 kB" ∷ []

abbrev figures : ProcSysmemData
figures = record zeroed {
  kb_main_total = 900;
  kb_main_free = 100;
  kb_page_cache = 300;
  kb_inactive_file = 80;
  kb_active_file = 60;
  kb_slab_reclaimable = 20;
}

read_data-figure_example :
    (m' : ProcSysmemData) × (read_data linear (some meminfo) false 16 zeroed ≡ returns m')
    × ((f : Figure) → figure f m' ≡ get_or (last_value (label f) b':' meminfo) (figure f zeroed))
read_data-figure_example = read_data-figure linear meminfo false 16 zeroed

labels_run :
    (last_value (codes "MemTotal") b':' meminfo ≡ some 900)
    × (last_value (codes "MemAvailable") b':' meminfo ≡ none)
unfolding split_at strtoul
labels_run = (refl, refl)

read_data-available_example :
    (m' : ProcSysmemData) × (read_data linear (some meminfo) false 16 zeroed ≡ returns m')
    × (m'.kb_main_available ≡ (
        if last_or_unset "MemAvailable" meminfo == meminfo_unset
        then (if false then m'.kb_main_free else estimate 16 m')
        else last_or_unset "MemAvailable" meminfo))
read_data-available_example = read_data-available linear meminfo false 16 zeroed

estimate_lem_example :
    estimate 16 figures
    ≡ 100
      + file_cache figures
      + 20
      - (16 * 5 / 4 + min (file_cache figures / 2) (16 * 5 / 4) + min (20 / 2) (16 * 5 / 4))
estimate_lem_example = estimate_lem 16 figures (omega arith)

-- Three quarters of the memory are used; the warning is at more than 50%.
abbrev warned : Settings
warned = record defaults { warning = some (codes "50%") }

abbrev half : Range whole
half = record {
  start = pos 0;
  end = pos 50;
  start_infinity = false;
  end_infinity = false;
  alert_on = outside;
}
