-- ===== src/Intr.antt =====
-- plugins/check_intr.c: the interrupts of a second against the thresholds, and those of each
-- processor. `unsigned long` and `unsigned long long` have 64 bits, `unsigned int` 32.
pub mod Rate
use nagios_plugins_linux.Base.{
  ℕ, zero, suc, ◌+◌, ◌-◌, ◌/◌, Bool, true, false, not, [], ◌∷◌, List, Option, none, some, Bytes,
  sub64, length, ltb, leb, ◌==◌, if◌then◌else◌, u32,
}
use nagios_plugins_linux.Base.Int.{pos}
use nagios_plugins_linux.Base.Double.{Double}
use nagios_plugins_linux.Messages.{NagStatus, Outcome, returns, ◌>>=◌}
use nagios_plugins_linux.Thresholds.{get_status}
use nagios_plugins_linux.Cpustats.{cpu_stats_get_intr}
use nagios_plugins_linux.Interrupts.{
  Result, no_file, counters, out_of_bounds, proc_interrupts_get_nintr_per_cpu,
}
use nagios_plugins_linux.Program.{
  getopt_loop, thresholds_or_usage, Limits, no_limits, Opt, switch_option, Slots, slot, put,
}
use nagios_plugins_linux.Program.Arguments.{Arguments, read_arguments}

-- The two arrays `vintr` with their lengths, as far as they are read.
pub record Vintr : Type 0 where
  pub vintr0 : Option Result
  pub vintr1 : Option Result

-- `count - 2 == i` and `count - 1 == i`, where `count - 2` wraps around at 0.
abbrev store : ℕ → ℕ → Result → Vintr → Vintr
store count i r v =
    if u32 (count + 4294967294) == i
    then record v { vintr0 = some r }
    else if u32 (count + 4294967295) == i
    then record v { vintr1 = some r }
    else v

-- `get i` is what /proc/stat has at the i-th reading and `per_cpu i` what /proc/interrupts has.
module _ (get : ℕ → Outcome ℕ) (per_cpu : ℕ → Result) where
  -- The loop from `i` on, with the rounds that are left.
  intr_loop : ℕ → ℕ → ℕ → ℕ → Bool → Slots → ℕ → Vintr → Outcome (ℕ × Vintr)
  intr_loop count delay zero i tog nintr dnintr v = returns (dnintr, v)
  intr_loop count delay (suc left) i tog nintr dnintr v = get i >>= λ n.
      let filled = put (not tog) n nintr in
      intr_loop count delay left (suc i) (not tog) filled
        (sub64 (slot (not tog) filled) (slot tog filled) / delay) (store count i (per_cpu i) v)

  unfoldable pub get_intrdelta : ℕ → ℕ → Outcome (ℕ × Vintr)
  unfolding intr_loop
  get_intrdelta count delay = get 0 >>= λ n.
      intr_loop count delay (count - 1) 1 false (record { first = n; second = 0 }) n
        (record { vintr0 = if leb count 2 then some (per_cpu 0) else none; vintr1 = none })

-- The figure of each processor that both arrays have; with no second array there is none.
abbrev differences : ℕ → List ℕ → List ℕ → List ℕ
differences delay [] new = []
differences delay (v ∷ vs) [] = []
differences delay (v ∷ vs) (w ∷ ws) = (sub64 w v / delay) ∷ differences delay vs ws

-- What is printed for the processors; an array that is not there, or null, has the length 0. It is
-- not known behind a read out of bounds.
pub data PerCpu : Type 0 where
  shown : List ℕ → PerCpu
  not_known : PerCpu

per_processor : ℕ → Option Result → Option Result → PerCpu
per_processor delay (some out_of_bounds) new = not_known
per_processor delay (some (counters vs)) (some (counters ws)) = shown (differences delay vs ws)
per_processor delay old (some out_of_bounds) = not_known
per_processor delay old new = shown []

pub record Report : Type 0 where
  pub status : NagStatus
  pub dnintr : ℕ
  pub per_second : Bool
  pub intr_cpu : PerCpu

-- `scan` is `sscanf` of lib/cpustats.c; /proc/stat and /proc/interrupts are given for each reading.
module _ (scan : Bytes → Option ℕ) (d : Double) where
  unfoldable pub main :
      List Opt
      → List Bytes
      → (ℕ → Option (List Bytes))
      → (ℕ → Option (List Bytes))
      → ℕ
      → Outcome Report
  unfolding getopt_loop switch_option read_arguments thresholds_or_usage get_intrdelta get_status
      cpu_stats_get_intr proc_interrupts_get_nintr_per_cpu per_processor
  main opts args stat interrupts ncpus = getopt_loop switch_option opts no_limits >>= λ s.
      read_arguments args >>= λ a. thresholds_or_usage d s.warning s.critical >>= λ t.
      get_intrdelta (λ i. cpu_stats_get_intr scan (stat i))
        (λ i. proc_interrupts_get_nintr_per_cpu (interrupts i) ncpus) a.count a.delay
      >>= λ r. returns (record {
        status = get_status d (d.of_ℤ (pos r.0)) t;
        dnintr = r.0;
        per_second = ltb 1 a.count;
        intr_cpu = per_processor a.delay r.1.vintr0 r.1.vintr1;
      })
