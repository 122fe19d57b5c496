-- ===== src/Cpu.antt =====
-- plugins/check_cpu.c: the shares of the processor time between two readings of /proc/stat, and the
-- status. `jiff` has 64 bits and `int` 32; what `printf` shows is left out.
pub mod Options
pub mod Idle
pub mod Shares
pub mod Status
pub mod Whole
use nagios_plugins_linux.Base.{
  ℕ, ◌+◌, ◌-◌, ◌^◌, ◌%◌, Bool, true, false, not, [], ◌∷◌, List, Option, none, some, Bytes, codes,
  starts_with, ltb, ◌==◌, if◌then◌else◌, u64, add64, sub64,
}
use nagios_plugins_linux.Base.Int.{ℤ, pos, negsuc, ◌+ℤ◌, ltb_ℤ, bits64, to_int}
use nagios_plugins_linux.Base.Double.{Double}
use nagios_plugins_linux.Messages.{NagStatus, state_ok}
use nagios_plugins_linux.Messages.Worst.{worst_by}
use nagios_plugins_linux.Thresholds.{Thresholds, get_status}
use nagios_plugins_linux.Cpustats.{
  CpuTime, Reading, complete, ended, out_of_bounds, cpu_stats_get_time,
}

-- One index of the arrays `duser` to `debt`.
pub record Share : Type 0 where
  pub duser : ℕ
  pub dsystem : ℕ
  pub didle : ℕ
  pub diowait : ℕ
  pub dsteal : ℕ
  pub debt : ℤ
  pub ratio : ℕ

abbrev pub sum_of : Share → ℕ
sum_of s = add64 (add64 (add64 (add64 s.duser s.dsystem) s.didle) s.diowait) s.dsteal

-- `ratio[c] = …; if (!ratio[c]) ratio[c] = 1, didle[c] = 1;`
unfoldable pub with_ratio : Share → Share
with_ratio s =
    let sum = sum_of s in
    if sum == 0 then record s { ratio = 1; didle = 1 } else record s { ratio = sum }

-- The first loop over the processors.
unfoldable pub first_share : CpuTime → Share
unfolding with_ratio
first_share t = with_ratio (record {
  duser = add64 t.user t.nice;
  dsystem = add64 (add64 t.system t.irq) t.softirq;
  didle = t.idle;
  diowait = t.iowait;
  dsteal = t.steal;
  debt = pos 0;
  ratio = 0;
})

is_zero : ℤ → Bool
is_zero (pos n) = n == 0
is_zero (negsuc n) = false

-- `if ((int) didle[c] < 0)`: the idle ticks and the debt after it
owed : ℕ → ℤ → ℕ × ℤ
unfolding to_int
owed didle debt = if ltb_ℤ (to_int didle) (pos 0) then (0, to_int didle) else (didle, debt)

-- The idle ticks that are counted and the debt left, from the debt and what the counter grew by.
unfoldable pub idle_step : ℤ → ℕ → ℕ × ℤ
unfolding owed is_zero to_int ◌+ℤ◌
idle_step debt grown =
    if is_zero debt then owed grown debt else owed (bits64 (to_int grown +ℤ debt)) (pos 0)

-- One round for a processor: its readings before and now, and the share before.
unfoldable pub next_share : CpuTime → CpuTime → Share → Share
unfolding with_ratio idle_step
next_share old new s =
    let idle = idle_step s.debt (sub64 new.idle old.idle) in
    with_ratio (record {
      duser = sub64 (add64 (sub64 new.user old.user) new.nice) old.nice;
      dsystem =
          sub64 (add64 (sub64 (add64 (sub64 new.system old.system) new.irq) old.irq) new.softirq)
            old.softirq;
      didle = idle.0;
      diowait = sub64 new.iowait old.iowait;
      dsteal = sub64 new.steal old.steal;
      debt = idle.1;
      ratio = s.ratio;
    })

first_shares : List CpuTime → List Share
unfolding first_share
first_shares [] = []
first_shares (t ∷ ts) = first_share t ∷ first_shares ts

-- The inner loop; the three arrays have `ncpus` elements each.
next_shares : List CpuTime → List CpuTime → List Share → List Share
unfolding next_share
next_shares (o ∷ os) (n ∷ ns) (s ∷ ss) = next_share o n s ∷ next_shares os ns ss
next_shares _ _ _ = []

-- What the measurement comes to: the shares, the end of the process in `cpu_stats_get_time`, or a
-- write of that function past the end of its array.
pub data Measured : Type 0 where
  shares : List Share → Measured
  stopped : NagStatus → Measured
  overrun : Measured

-- The cases of what a reading comes to.
after : Reading → (List CpuTime → Measured) → Measured
after (complete ts found) k = k ts
after (ended status) k = stopped status
after out_of_bounds k = overrun

-- `ncpus` is the number of elements; `scan_total`, `scan_cpu` and `cpu_name` are those of
-- lib/cpustats.c.
module _ (scan_total scan_cpu : Bytes → List ℕ) (cpu_name : ℕ → Bytes) (ncpus : ℕ) where
  -- The loop over the readings behind the first, each of the file as it is then.
  unfoldable pub measure_again : List (Option (List Bytes)) → List CpuTime → List Share → Measured
  unfolding after next_shares cpu_stats_get_time
  measure_again [] old ss = shares ss
  measure_again (file ∷ files) old ss =
      after (cpu_stats_get_time scan_total scan_cpu cpu_name ncpus file)
        λ new. measure_again files new (next_shares old new ss)

  -- The measurement of `main`, with a list of `count` files, the first apart.
  unfoldable pub measure : Option (List Bytes) → List (Option (List Bytes)) → Measured
  unfolding after first_shares cpu_stats_get_time measure_again
  measure file files =
      after (cpu_stats_get_time scan_total scan_cpu cpu_name ncpus file)
        λ ts. measure_again files ts (first_shares ts)

-- `cpu_value`, by the name of the program behind `check_`.
unfoldable pub cpu_value : Bytes → Share → ℕ
cpu_value p s = if starts_with (codes "iowait") p then s.diowait else s.duser

-- `to_float` is the conversion of a `double` to `float` and back.
module _ (d : Double) (to_float : d.D → d.D) where
  unfoldable pub cpu_perc : Bytes → Share → d.D
  unfolding cpu_value
  cpu_perc p s =
      to_float
        (d.div (d.mul (d.of_ℤ (pos 100)) (d.of_ℤ (pos (cpu_value p s)))) (d.of_ℤ (pos s.ratio)))

  -- The last loop over the processors.
  unfoldable pub cpu_status : Bytes → Thresholds d → List Share → NagStatus
  unfolding worst_by cpu_perc get_status
  cpu_status p my_threshold ss =
      worst_by (λ (s : Share). get_status d (cpu_perc p s) my_threshold) ss state_ok
