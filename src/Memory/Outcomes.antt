-- ===== src/Memory/Outcomes.antt =====
-- The outcomes of plugins/check_memory.c, from its arguments and /proc/meminfo.
use nagios_plugins_linux.Base.{ℕ, Option, some, if◌then◌else◌}
use nagios_plugins_linux.Base.Int.{pos}
use nagios_plugins_linux.Base.Double.{Double}
use nagios_plugins_linux.Thresholds.{Thresholds}
use nagios_plugins_linux.Procparser.{Bsearch}
use nagios_plugins_linux.Meminfo.{ProcSysmem, ProcSysmemData}
use nagios_plugins_linux.Memory.{Settings, Report, report}

-- The figure that is monitored.
abbrev pub monitored_in : Settings → ProcSysmemData → ℕ
monitored_in s m = if s.available then m.kb_main_available else m.kb_main_used

abbrev with_contents : ProcSysmemData → Option ProcSysmem
with_contents c = some (record { refcount = pos 1; contents = c })

module _ (d : Double) (to_float : d.D → d.D) (b : Bsearch) (uninitialised : ℕ) where
  reported : Settings → Thresholds d → ProcSysmemData → Report
  reported s t m =
      report d to_float b uninitialised s t (some (record { refcount = pos 1; contents = m }))
