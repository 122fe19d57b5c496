-- ===== src/Swap/Figures.antt =====
-- The figures of plugins/check_swap.c against each other and against the status.
use nagios_plugins_linux.Base.{ℕ, ◌+◌, ◌^◌, ◌<◌, ◌≤◌, ◌≡◌, refl, Option, some, arith, sub64}
use nagios_plugins_linux.Base.Double.{Double}
use nagios_plugins_linux.Messages.Worst.{ladder}
use nagios_plugins_linux.Thresholds.{Thresholds, alerts, get_status}
use nagios_plugins_linux.Perfdata.{UnitShift, b_shift, k_shift, m_shift, g_shift, unit_convert}
use nagios_plugins_linux.Meminfo.{ProcSysmem, proc_sysmem_get, proc_sysmem_get_swap_used}
use nagios_plugins_linux.Swap.{Settings, percent_used, report}

converted_sum :
    (total free : ℕ) (shift : UnitShift)
    → free ≤ total
    → total < 2 ^ 54
    → unit_convert (sub64 total free) shift + unit_convert free shift ≤ unit_convert total shift
unfolding unit_convert
converted_sum total free b_shift h l = omega arith
converted_sum total free k_shift h l = omega arith
converted_sum total free m_shift h l = omega arith
converted_sum total free g_shift h l = omega arith

converted_next :
    (total free : ℕ) (shift : UnitShift)
    → free ≤ total
    → total < 2 ^ 54
    → unit_convert total shift ≤ unit_convert (sub64 total free) shift + unit_convert free shift + 1
unfolding unit_convert
converted_next total free b_shift h l = omega arith
converted_next total free k_shift h l = omega arith
converted_next total free m_shift h l = omega arith
converted_next total free g_shift h l = omega arith

module _ (d : Double) (to_float : d.D → d.D) where
  -- With no more free swap space than there is in all, the figures shown for the used and for the
  -- free space add up to the one for the total, or to one less of the unit.
  pub report-sum :
      (s : Settings) (t : Thresholds d) (sysmem : ProcSysmem) (pages : Option (ℕ × ℕ))
      → sysmem.contents.kb_swap_free ≤ sysmem.contents.kb_swap_total
      → sysmem.contents.kb_swap_total < 2 ^ 54
      → let shown = (report d to_float s t (some sysmem) pages).shown in
        (shown.swap_used + shown.swap_free ≤ shown.swap_total)
        × (shown.swap_total ≤ shown.swap_used + shown.swap_free + 1)
  unfolding report proc_sysmem_get proc_sysmem_get_swap_used
  report-sum s t sysmem pages h l = (converted_sum _ _ s.shift h l, converted_next _ _ s.shift h l)

  -- The state is CRITICAL if the percentage of the used space in the total alerts the critical
  -- range, else WARNING if it alerts the warning range, else OK; the used space is what is not
  -- free.
  pub report-ladder :
      (s : Settings) (t : Thresholds d) (sysmem : ProcSysmem) (pages : Option (ℕ × ℕ))
      → let m = sysmem.contents in
        let used = percent_used d to_float (sub64 m.kb_swap_total m.kb_swap_free) m.kb_swap_total in
        (report d to_float s t (some sysmem) pages).status
        ≡ ladder (alerts d used t.critical) (alerts d used t.warning)
  unfolding report get_status proc_sysmem_get proc_sysmem_get_swap_used
  report-ladder s t sysmem pages = refl
