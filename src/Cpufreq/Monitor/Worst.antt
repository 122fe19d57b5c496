-- ===== src/Cpufreq/Monitor/Worst.antt =====
-- The status of plugins/check_cpufreq.c.
use nagios_plugins_linux.Base.{
  ℕ, zero, suc, ◌+◌, ◌≡◌, refl, ◌∙◌, Bool, true, [], ◌∷◌, List, Option, some, Bytes, ltb,
  if◌then◌else◌, Bool-cases, inl, inr,
}
use nagios_plugins_linux.Base.Int.{pos, pos_part}
use nagios_plugins_linux.Base.Double.{Double}
use nagios_plugins_linux.Messages.{NagStatus, state_ok, returns}
use nagios_plugins_linux.Messages.Worst.{ladder, any, worst_by, worst_by-ladder}
use nagios_plugins_linux.Thresholds.{Range, Thresholds, parse_argument, alerts, get_status}
use nagios_plugins_linux.Program.{getopt_loop}
use nagios_plugins_linux.Program.Ladder.{thresholds_or_usage-parsed}
use nagios_plugins_linux.Cpudesc.{CpuDesc, cpu_desc_new, cpu_desc_read}
use nagios_plugins_linux.Sysfs.{File, cpufreq_get_freq_kernel}
use nagios_plugins_linux.Cpufreq.Monitor.{
  Scale, Settings, defaults, Opt, switch_option, figures_from, model_of, System, new_or_exit,
  status_from, report, main,
}

-- The frequencies that can be read of `left` processors from `c` on, in their order.
abbrev pub known : (File → Option Bytes) → ℕ → ℕ → List ℕ
known sysfs zero c = []
known sysfs (suc left) c =
    let freq = cpufreq_get_freq_kernel sysfs c in
    let rest = known sysfs left (c + 1) in if ltb 0 freq then freq ∷ rest else rest

module _ (d : Double) where
  -- Some frequency alerts a range.
  abbrev pub some_alerts : Option (Range d) → List ℕ → Bool
  some_alerts r = any (λ (freq : ℕ). alerts d (d.of_ℤ (pos freq)) r)

  status_from-worst :
      (t : Thresholds d) (sysfs : File → Option Bytes) (left c : ℕ) (status : NagStatus)
      → status_from d t sysfs left c status
        ≡ worst_by (λ (freq : ℕ). get_status d (d.of_ℤ (pos freq)) t) (known sysfs left c) status
  unfolding status_from worst_by
  status_from-worst t sysfs zero c status = refl
  status_from-worst t sysfs (suc left) c status =
      elim (Bool-cases (ltb 0 (cpufreq_get_freq_kernel sysfs c))) [
        | inl e ↦ rw e (status_from-worst t sysfs left (c + 1) _)
        | inr e ↦ rw e (status_from-worst t sysfs left (c + 1) status)
      ]

  freq-ladder :
      (t : Thresholds d) (freq : ℕ)
      → let v = d.of_ℤ (pos freq) in
        get_status d v t ≡ ladder (alerts d v t.critical) (alerts d v t.warning)
  unfolding get_status
  freq-ladder t freq = refl

  status_from-ladder :
      (t : Thresholds d) (sysfs : File → Option Bytes) (left : ℕ)
      → let freqs = known sysfs left 0 in
        status_from d t sysfs left 0 state_ok
        ≡ ladder (some_alerts t.critical freqs) (some_alerts t.warning freqs)
  status_from-ladder t sysfs left =
      status_from-worst t sysfs left 0 state_ok
      ∙ worst_by-ladder _ _ _ (freq-ladder t) (known sysfs left 0)

  -- Where sysfs is mounted, the description of the processors can be made, and options and ranges
  -- are read, `check_cpufreq` is CRITICAL if a frequency that can be read alerts the critical range,
  -- WARNING if none does but one alerts the warning range, and OK otherwise, in whatever order the
  -- processors come; the figures are those of the second pass.
  pub main-worst :
      (unit_convert : Scale → ℕ → ℕ) (opts : List Opt) (system : System) (s : Settings)
      (w c : Option (Range d)) (described : Option CpuDesc)
      → system.mounted ≡ true
      → system.allocated ≡ true
      → getopt_loop switch_option opts defaults ≡ returns s
      → parse_argument d s.warning ≡ some w
      → parse_argument d s.critical ≡ some c
      → cpu_desc_read system.cpuinfo system.machine system.ncpus system.kernel_max
          (cpu_desc_new true).1
        ≡ returns described
      → let freqs = known system.sysfs (pos_part system.ncpus) 0 in
        main d unit_convert opts system
        ≡ returns (record {
          status = ladder (some_alerts c freqs) (some_alerts w freqs);
          model = model_of s.cpu_model described;
          figures =
              figures_from (unit_convert s.factor) system.sysfs_after (pos_part system.ncpus) 0;
        })
  unfolding main report new_or_exit cpu_desc_new
  main-worst unit_convert opts system s w c described m n o hw hc r =
      rw
        (
          m,
          n,
          o,
          thresholds_or_usage-parsed d s.warning s.critical w c hw hc,
          r,
          status_from-ladder (record { warning = w; critical = c }) system.sysfs
              (pos_part system.ncpus),
        )
        refl
