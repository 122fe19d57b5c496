-- ===== src/Tests/Cpu.antt =====
-- A small /proc/stat, and load averages.
use nagios_plugins_linux.Base.{
  ℕ, ◌≡◌, ◌↔◌, refl, true, false, [], ◌∷◌, List, Option, some, Bytes, arith, codes, drop,
}
use nagios_plugins_linux.Base.Int.{pos}
use nagios_plugins_linux.Base.Numeral.{strtol, strtoul}
use nagios_plugins_linux.Messages.{state_ok, state_warning, state_critical, state_unknown}
use nagios_plugins_linux.Load.{Average, loadavg_status}
use nagios_plugins_linux.Load.Status.{exceeds, loadavg_status-exceeds}
use nagios_plugins_linux.Cpustats.{
  no_time, complete, ended, read_times, store_times, modify_at, cpu_stats_get_time,
}
use nagios_plugins_linux.Cpustats.Bounds.{IsRead, cpu_stats_get_time-IsRead}
use nagios_plugins_linux.Tests.{whole}

-- The first number behind the name of the processor, and the text as its name.
abbrev one_number : Bytes → List ℕ
one_number line = (strtoul (drop 3 line)).value ∷ []

abbrev name_of : ℕ → Bytes
name_of n = n ∷ []

abbrev stat : List Bytes
stat = codes "cpu 70 1" ∷ codes "cpu0 40 1" ∷ codes "ctxt 5" ∷ []

cpu_stats_get_time-IsRead_example :
    IsRead 2 stat (cpu_stats_get_time one_number one_number name_of 2 (some stat))
cpu_stats_get_time-IsRead_example =
    cpu_stats_get_time-IsRead one_number one_number name_of 2 (omega arith) stat

stat_runs :
    (cpu_stats_get_time one_number one_number name_of 1 (some stat)
      ≡ complete (record no_time { cpuname = some (codes "cpu"); user = 70 } ∷ []) true)
    × (cpu_stats_get_time one_number one_number name_of 1 (some (codes "cpu0 40 1" ∷ stat))
        ≡ ended state_unknown)
unfolding cpu_stats_get_time read_times store_times modify_at strtol strtoul
stat_runs = (refl, refl)

abbrev number_of : Bytes → Option ℕ
number_of text = some (strtoul text).value

abbrev averages : List (Average whole)
averages =
    record { loadavg = pos 7; wload = pos 5; cload = pos 9; required = true }
    ∷ record { loadavg = pos 12; wload = pos 5; cload = pos 9; required = false }
    ∷ []

loadavg_status-exceeds_example :
    ((loadavg_status whole averages ≡ state_critical)
      ↔ (exceeds whole (λ (a : Average whole). a.cload) averages ≡ true))
    × ((loadavg_status whole averages ≡ state_warning) ↔ (
        (exceeds whole (λ (a : Average whole). a.cload) averages ≡ false)
        × (exceeds whole (λ (a : Average whole). a.wload) averages ≡ true)))
    × ((loadavg_status whole averages ≡ state_ok) ↔ (
        (exceeds whole (λ (a : Average whole). a.cload) averages ≡ false)
        × (exceeds whole (λ (a : Average whole). a.wload) averages ≡ false)))
loadavg_status-exceeds_example = loadavg_status-exceeds whole averages
