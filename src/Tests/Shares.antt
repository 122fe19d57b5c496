-- ===== src/Tests/Shares.antt =====
-- The shares of a processor between two readings.
use nagios_plugins_linux.Base.{◌+◌, ◌≡◌, refl, [], ◌∷◌, none, arith}
use nagios_plugins_linux.Base.Int.{pos}
use nagios_plugins_linux.Cpustats.{CpuTime, no_time}
use nagios_plugins_linux.Thresholds.{Thresholds}
use nagios_plugins_linux.Cpu.{Share, next_share, idle_step, with_ratio}
use nagios_plugins_linux.Cpu.Idle.{idle_total, owing, peak, idle_total-peak}
use nagios_plugins_linux.Cpu.Shares.{Grows, SharesGrown, IsWhole, next_share-IsWhole}
use nagios_plugins_linux.Tests.{whole}

-- The counter goes from 100 to 90, and then to 130.
idle_total-peak_example :
    (idle_total (owing 0) 100 (90 ∷ 130 ∷ [])).0 + (100 + 0) ≡ peak (100 + 0) (90 ∷ 130 ∷ [])
idle_total-peak_example =
    idle_total-peak 0 100 (90 ∷ 130 ∷ []) (omega arith)
      ((omega arith, omega arith, omega arith), ((omega arith, omega arith, omega arith), tt))

abbrev before : CpuTime
before = record no_time { user = 1000; system = 500; idle = 8000 }

abbrev now : CpuTime
now = record no_time { user = 1030; system = 510; idle = 8060 }

abbrev idle_share : Share
idle_share = record {
  duser = 0;
  dsystem = 0;
  didle = 1;
  diowait = 0;
  dsteal = 0;
  debt = pos 0;
  ratio = 1;
}

now-Grows : Grows before now
now-Grows = record {
  user = omega arith;
  nice = omega arith;
  system = omega arith;
  irq = omega arith;
  softirq = omega arith;
  idle = omega arith;
  iowait = omega arith;
  steal = omega arith;
  bounded = omega arith;
  small = omega arith;
}

next_share-IsWhole_example :
    SharesGrown before now (next_share before now idle_share)
    × IsWhole (next_share before now idle_share)
next_share-IsWhole_example = next_share-IsWhole before now idle_share refl now-Grows

shares_run : next_share before now idle_share ≡ record {
  duser = 30;
  dsystem = 10;
  didle = 60;
  diowait = 0;
  dsteal = 0;
  debt = pos 0;
  ratio = 100;
}
unfolding next_share with_ratio idle_step
shares_run = refl

abbrev limits : Thresholds whole
limits = record { warning = none; critical = none }
