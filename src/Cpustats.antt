-- ===== src/Cpustats.antt =====
-- lib/cpustats.c: the times of the processors and the counters of /proc/stat. What `sscanf` stores
-- is a parameter. A write past the end of the caller's array is an outcome of its own.
pub mod Bounds
pub mod Value
use nagios_plugins_linux.Base.{
  ℕ, ◌+◌, zero, suc, Bool, true, false, ◌&&◌, not, [], ◌∷◌, List, Option, none, some, Bytes, codes,
  starts_with, drop, leb, ◌==◌, if◌then◌else◌, length, replicate, u32,
}
use nagios_plugins_linux.Base.Int.{bits64}
use nagios_plugins_linux.Base.Numeral.{Number, strtol}
use nagios_plugins_linux.Messages.{NagStatus, state_unknown, Outcome, returns, plugin_error}

-- `struct cpu_time`
pub record CpuTime : Type 0 where
  pub cpuname : Option Bytes
  pub user : ℕ
  pub nice : ℕ
  pub system : ℕ
  pub idle : ℕ
  pub iowait : ℕ
  pub irq : ℕ
  pub softirq : ℕ
  pub steal : ℕ
  pub guest : ℕ
  pub guestn : ℕ

-- What `memset` leaves.
abbrev pub no_time : CpuTime
no_time = record {
  cpuname = none;
  user = 0;
  nice = 0;
  system = 0;
  idle = 0;
  iowait = 0;
  irq = 0;
  softirq = 0;
  steal = 0;
  guest = 0;
  guestn = 0;
}

-- The place of the ten numbers in the order of the pattern.
abbrev pub set_time : ℕ → ℕ → CpuTime → CpuTime
set_time place v t =
    if place == 0
    then record t { user = v }
    else if place == 1
    then record t { nice = v }
    else if place == 2
    then record t { system = v }
    else if place == 3
    then record t { idle = v }
    else if place == 4
    then record t { iowait = v }
    else if place == 5
    then record t { irq = v }
    else if place == 6
    then record t { softirq = v }
    else if place == 7
    then record t { steal = v }
    else if place == 8
    then record t { guest = v }
    else if place == 9
    then record t { guestn = v }
    else t

-- The numbers that a line provides: `sscanf` stores as many as it can read, in this order.
unfoldable pub store_times : ℕ → List ℕ → CpuTime → CpuTime
store_times place [] t = t
store_times place (v ∷ values) t = store_times (place + 1) values (set_time place v t)

-- What the loop over the lines does: it comes to its end, with the array and `found`, it ends the
-- process, or it writes past the end of the array.
pub data Reading : Type 0 where
  complete : List CpuTime → Bool → Reading
  ended : NagStatus → Reading
  out_of_bounds : Reading

-- A write to one element.
unfoldable pub modify_at : ℕ → (CpuTime → CpuTime) → List CpuTime → Option (List CpuTime)
modify_at i f [] = none
modify_at zero f (t ∷ ts) = some (f t ∷ ts)
modify_at (suc i) f (t ∷ ts) = elim (modify_at i f ts) [ none ↦ none | some ts' ↦ some (t ∷ ts') ]

written : Option (List CpuTime) → (List CpuTime → Reading) → Reading
written none k = out_of_bounds
written (some ts) k = k ts

-- `scan_total` and `scan_cpu` are `sscanf` with the patterns of the two branches, and `cpu_name` is
-- `xasprintf ("cpu%u", cpunum)`.
module _ (scan_total scan_cpu : Bytes → List ℕ) (cpu_name : ℕ → Bytes) (lines : ℕ) where
  total_line : Bytes → CpuTime → CpuTime
  unfolding store_times
  total_line line t = store_times 0 (scan_total line) (record t { cpuname = some (codes "cpu") })

  cpu_line : ℕ → Bytes → CpuTime → CpuTime
  unfolding store_times
  cpu_line cpunum rest t =
      store_times 0 (scan_cpu rest) (record t { cpuname = some (cpu_name cpunum) })

  -- `strtol (line + 3, &endptr, 10)`, stored in an `unsigned int`, and `endptr`.
  abbrev pub cpunum_of : Bytes → ℕ
  cpunum_of line = u32 (bits64 (strtol (drop 3 line)).value)

  abbrev behind_number : Bytes → Bytes
  behind_number line = drop (strtol (drop 3 line)).used (drop 3 line)

  -- The loop over the lines of /proc/stat.
  unfoldable pub read_times : List Bytes → List CpuTime → Bool → Reading
  unfolding modify_at written total_line cpu_line
  read_times [] ts found = complete ts found
  read_times (line ∷ rest) ts found =
      if starts_with (codes "cpu ") line
      then written (modify_at 0 (total_line line) ts)
          (λ ts'. if lines == 1 then complete ts' true else read_times rest ts' true)
      else if starts_with (codes "cpu") line
      then (if leb lines (u32 (cpunum_of line + 1))
          then ended state_unknown
          else written
              (modify_at (u32 (cpunum_of line + 1)) (cpu_line (cpunum_of line) (behind_number line))
                ts)
              (λ ts'. read_times rest ts' found))
      else read_times rest ts found

  all_found : Reading → Reading
  all_found (complete ts false) = ended state_unknown
  all_found r = r

  -- `none` is a file that cannot be opened; the caller's array has `lines` elements.
  unfoldable pub cpu_stats_get_time : Option (List Bytes) → Reading
  unfolding read_times all_found
  cpu_stats_get_time none = ended state_unknown
  cpu_stats_get_time (some file) = all_found (read_times file (replicate lines no_time) false)

-- `scan` is `sscanf` with the pattern "%llu", which may leave `value` alone.
module _ (scan : Bytes → Option ℕ) where
  value_or_zero : Option ℕ → ℕ
  value_or_zero none = 0
  value_or_zero (some v) = v

  -- The loop: only the first line with the pattern is scanned.
  find_value : Bytes → List Bytes → Option ℕ
  unfolding value_or_zero
  find_value pattern [] = none
  find_value pattern (line ∷ lines) =
      let later = find_value pattern lines in
      if starts_with pattern line
      then some (value_or_zero (scan (drop (length pattern) line)))
      else later

  found_value : Option ℕ → Bool → Outcome ℕ
  found_value (some v) mandatory = returns v
  found_value none mandatory = if mandatory then plugin_error state_unknown else returns 0

  unfoldable pub cpu_stats_get_value_with_pattern : Bytes → Bool → Option (List Bytes) → Outcome ℕ
  unfolding find_value found_value
  cpu_stats_get_value_with_pattern pattern mandatory none = plugin_error state_unknown
  cpu_stats_get_value_with_pattern pattern mandatory (some lines) =
      found_value (find_value pattern lines) mandatory

  unfoldable pub cpu_stats_get_cswch : Option (List Bytes) → Outcome ℕ
  unfolding cpu_stats_get_value_with_pattern
  cpu_stats_get_cswch file = cpu_stats_get_value_with_pattern (codes "ctxt ") true file

  unfoldable pub cpu_stats_get_intr : Option (List Bytes) → Outcome ℕ
  unfolding cpu_stats_get_value_with_pattern
  cpu_stats_get_intr file = cpu_stats_get_value_with_pattern (codes "intr ") true file

  unfoldable pub cpu_stats_get_softirq : Option (List Bytes) → Outcome ℕ
  unfolding cpu_stats_get_value_with_pattern
  cpu_stats_get_softirq file = cpu_stats_get_value_with_pattern (codes "softirq ") false file
