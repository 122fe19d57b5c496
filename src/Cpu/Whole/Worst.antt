-- ===== src/Cpu/Whole/Worst.antt =====
-- The status that plugins/check_cpu.c returns.
use nagios_plugins_linux.Base.{ℕ, ◌≡◌, refl, Bool, true, List, Option, some, Bytes}
use nagios_plugins_linux.Base.Double.{Double}
use nagios_plugins_linux.Messages.{returns}
use nagios_plugins_linux.Messages.Worst.{ladder, any}
use nagios_plugins_linux.Thresholds.{Range, parse_argument, alerts}
use nagios_plugins_linux.Program.Arguments.{Arguments}
use nagios_plugins_linux.Program.Ladder.{thresholds_or_usage-parsed}
use nagios_plugins_linux.Cpudesc.{CpuDesc, cpu_desc_new, cpu_desc_read}
use nagios_plugins_linux.Cpu.{Share, shares, cpu_perc}
use nagios_plugins_linux.Cpu.Status.{cpu_status-worst}
use nagios_plugins_linux.Cpu.Options.{Settings, Opt, program_part, read_command_line}
use nagios_plugins_linux.Cpu.Whole.{
  System, reports, and_then, and_measured, model_of, measured, decide, main,
}

module _ (d : Double) (to_float : d.D → d.D) where
  -- The percentage of some processor alerts a range.
  abbrev pub some_alerts : Bytes → Option (Range d) → List Share → Bool
  some_alerts p r = any (λ (s : Share). alerts d (cpu_perc d to_float p s) r)

module _ (d : Double) (to_float : d.D → d.D) (scan_total scan_cpu : Bytes → List ℕ)
    (cpu_name : ℕ → Bytes) where
  -- With a name that is a program's, sysfs mounted, a command line and ranges that are read, a
  -- measurement that ends with shares and a description of the processors that can be read,
  -- `check_cpu` is CRITICAL if the percentage of some processor alerts the critical range, WARNING
  -- if none does but one alerts the warning range, and OK otherwise.
  pub main-some_alerts :
      (program_name p : Bytes) (opts : List Opt) (args : List Bytes) (system : System)
      (s : Settings) (a : Arguments) (w c : Option (Range d)) (ss : List Share)
      (described : Option CpuDesc)
      → program_part program_name ≡ returns p
      → system.mounted ≡ true
      → system.allocated ≡ true
      → read_command_line opts args ≡ returns (s, a)
      → parse_argument d s.warning ≡ some w
      → parse_argument d s.critical ≡ some c
      → measured d to_float scan_total scan_cpu cpu_name system s a ≡ shares ss
      → cpu_desc_read system.cpuinfo system.machine system.total system.kernel_max
          (cpu_desc_new true).1
        ≡ returns described
      → main d to_float scan_total scan_cpu cpu_name program_name opts args system
        ≡ reports (record {
          status = ladder (some_alerts d to_float p c ss) (some_alerts d to_float p w ss);
          model = model_of s.cpu_model described;
          shares = ss;
        })
  unfolding main decide and_then and_measured
  main-some_alerts program_name p opts args system s a w c ss described n m l r hw hc e i =
      rw
        (
          n,
          m,
          l,
          r,
          thresholds_or_usage-parsed d s.warning s.critical w c hw hc,
          e,
          i,
          cpu_status-worst d to_float p (record { warning = w; critical = c }) ss,
        )
        refl
