-- ===== src/Cpu/Status.antt =====
-- The status of plugins/check_cpu.c over all processors.
use nagios_plugins_linux.Base.{◌≡◌, refl, List, Bytes}
use nagios_plugins_linux.Base.Double.{Double}
use nagios_plugins_linux.Messages.Worst.{ladder, any, worst_by-ladder}
use nagios_plugins_linux.Thresholds.{Thresholds, get_status, alerts}
use nagios_plugins_linux.Cpu.{Share, cpu_perc, cpu_status}

module _ (d : Double) (to_float : d.D → d.D) where
  share_ladder :
      (p : Bytes) (t : Thresholds d) (s : Share)
      → get_status d (cpu_perc d to_float p s) t
        ≡ ladder
            (alerts d (cpu_perc d to_float p s) t.critical)
            (alerts d (cpu_perc d to_float p s) t.warning)
  unfolding get_status
  share_ladder p t s = refl

  -- The status is CRITICAL if the percentage of some processor alerts the critical range, WARNING if
  -- none does but one alerts the warning range, and OK otherwise, in whatever order they come.
  pub cpu_status-worst :
      (p : Bytes) (t : Thresholds d) (ss : List Share)
      → cpu_status d to_float p t ss
        ≡ ladder
            (any (λ (s : Share). alerts d (cpu_perc d to_float p s) t.critical) ss)
            (any (λ (s : Share). alerts d (cpu_perc d to_float p s) t.warning) ss)
  unfolding cpu_status
  cpu_status-worst p t ss = worst_by-ladder _ _ _ (share_ladder p t) ss
