-- ===== src/Pressure/Decided.antt =====
-- The figure that plugins/check_pressure.c decides on.
use nagios_plugins_linux.Base.{
  ℕ, ◌<◌, ◌≤◌, ◌^◌, ◌-◌, ◌/◌, ◌≡◌, refl, Bool, false, List, Option, some, Bytes, codes,
  if◌then◌else◌,
}
use nagios_plugins_linux.Base.Int.{pos}
use nagios_plugins_linux.Base.Double.{Double}
use nagios_plugins_linux.Messages.{returns, ◌>>=◌}
use nagios_plugins_linux.Messages.Worst.{ladder}
use nagios_plugins_linux.Thresholds.{Range, Thresholds, parse_argument, alerts, get_status}
use nagios_plugins_linux.Program.Ladder.{thresholds_or_usage-parsed}
use nagios_plugins_linux.Pressure.{ProcPsiOneline, ProcPsiTwolines, proc_psi_read}
use nagios_plugins_linux.Pressure.Starvation.{Holds, proc_psi_read-starvation}
use nagios_plugins_linux.Pressure.Starved.{
  linux_psi_none, linux_psi_cpu, linux_psi_io, linux_psi_memory, LinuxPsiId, Settings, Opt,
  process_options, is_usage, read_delay, Psi, two_report, read_mode, main, two_lines,
}

-- The file of a mode with two lines.
abbrev pub file_of : LinuxPsiId → Psi → Psi → Psi
file_of linux_psi_io io memory = io
file_of mode io memory = memory

abbrev pub HasTwoLines : LinuxPsiId → Type 0
HasTwoLines linux_psi_io = Unit
HasTwoLines linux_psi_memory = Unit
HasTwoLines mode = ⊥

is_usage-two : (mode : LinuxPsiId) (full : Bool) → HasTwoLines mode → is_usage mode full ≡ false
is_usage-two linux_psi_none full h = absurd h
is_usage-two linux_psi_cpu full h = absurd h
is_usage-two linux_psi_io full h = refl
is_usage-two linux_psi_memory full h = refl

module _ (d : Double) (scan : ℕ → Bytes → Option (ProcPsiOneline d.D)) where
  -- Both modes read their own file in the same way.
  read_mode-two :
      (mode : LinuxPsiId) (delay : ℕ) (cpu io memory : Psi) (s : Settings) (t : Thresholds d)
      → HasTwoLines mode
      → let file = file_of mode io memory in
        read_mode d scan mode delay cpu io memory s t ≡ (
          proc_psi_read scan delay file.before file.before_full file.after file.after_full >>= λ r.
          two_lines d scan s t r)
  unfolding read_mode
  read_mode-two linux_psi_none delay cpu io memory s t h = absurd h
  read_mode-two linux_psi_cpu delay cpu io memory s t h = absurd h
  read_mode-two linux_psi_io delay cpu io memory s t h = refl
  read_mode-two linux_psi_memory delay cpu io memory s t h = refl

  -- With `--io` or `--memory`, options, ranges and a delay that are read, and a file that holds a
  -- line of each label at all four readings, with totals below 2^64 that do not run backwards, the
  -- figures of the last two columns are what the totals grew by in a second, and the state is
  -- CRITICAL if the one of `full` (with `--full`) or of `some` alerts the critical range, else WARNING
  -- if it alerts the warning range, else OK.
  pub main-starvation :
      (opts : List Opt) (args : List Bytes) (cpu io memory : Psi) (s : Settings) (delay : ℕ)
      (w c : Option (Range d)) {before before_full after after_full : List Bytes}
      {first full psi psi_full : ProcPsiOneline d.D}
      → process_options opts ≡ returns s
      → HasTwoLines s.pressure_mode
      → parse_argument d s.warning ≡ some w
      → parse_argument d s.critical ≡ some c
      → read_delay args ≡ returns delay
      → 0 < delay
      → file_of s.pressure_mode io memory ≡ record {
        before = some before;
        before_full = some before_full;
        after = some after;
        after_full = some after_full;
      }
      → Holds scan (codes "some") first before
      → Holds scan (codes "full") full before_full
      → Holds scan (codes "some") psi after
      → Holds scan (codes "full") psi_full after_full
      → first.total ≤ psi.total
      → psi.total < 2 ^ 64
      → full.total ≤ psi_full.total
      → psi_full.total < 2 ^ 64
      → let some_growth = (psi.total - first.total) / delay in
        let full_growth = (psi_full.total - full.total) / delay in
        let v = d.of_ℤ (pos (if s.threshold_full then full_growth else some_growth)) in
        (shown : ProcPsiTwolines d.D) × (main d scan opts args cpu io memory
          ≡ returns
              (two_report (ladder (alerts d v c) (alerts d v w)) shown some_growth full_growth))
  unfolding main get_status
  main-starvation opts args cpu io memory s delay w c {first = first} {full = full} {psi = psi}
        {psi_full = psi_full} o two hw hc a pos_delay f hs hf hs' hf' l b l' b' =
      let read = proc_psi_read-starvation scan delay pos_delay hs hf hs' hf' l b l' b' in
      let t = thresholds_or_usage-parsed d s.warning s.critical w c hw hc in
      let used = is_usage-two s.pressure_mode s.threshold_full two in
      let by_file =
        read_mode-two s.pressure_mode delay cpu io memory s (record { warning = w; critical = c })
          two in
      (
        record {
          some_total = first.total;
          full_total = full.total;
          some_avg10 = first.avg10;
          some_avg60 = first.avg60;
          some_avg300 = first.avg300;
          full_avg10 = full.avg10;
          full_avg60 = full.avg60;
          full_avg300 = full.avg300;
        },
        rw (o, used, t, a, by_file, f, read) refl,
      )
