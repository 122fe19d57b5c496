-- ===== src/Cswch.antt =====
-- plugins/check_cswch.c: the context switches of a second against the thresholds. An
-- `unsigned long long` has 64 bits.
pub mod Rate
use nagios_plugins_linux.Base.{
  ℕ, zero, suc, ◌-◌, ◌/◌, Bool, true, false, not, List, Option, Bytes, sub64, ltb,
}
use nagios_plugins_linux.Base.Int.{pos}
use nagios_plugins_linux.Base.Double.{Double}
use nagios_plugins_linux.Messages.{NagStatus, Outcome, returns, ◌>>=◌}
use nagios_plugins_linux.Thresholds.{get_status}
use nagios_plugins_linux.Cpustats.{cpu_stats_get_cswch}
use nagios_plugins_linux.Program.{
  getopt_loop, thresholds_or_usage, Limits, no_limits, Opt, switch_option, Slots, slot, put,
}
use nagios_plugins_linux.Program.Arguments.{Arguments, read_arguments}

-- The loop from `i` on, with the rounds that are left; `get i` is the reading of the round.
ctxt_loop : (ℕ → Outcome ℕ) → ℕ → ℕ → ℕ → Bool → Slots → ℕ → Outcome ℕ
ctxt_loop get delay zero i tog nctxt dnctxt = returns dnctxt
ctxt_loop get delay (suc left) i tog nctxt dnctxt = get i >>= λ v.
    let filled = put (not tog) v nctxt in
    ctxt_loop get delay left (suc i) (not tog) filled
      (sub64 (slot (not tog) filled) (slot tog filled) / delay)

unfoldable pub get_ctxtdelta : (ℕ → Outcome ℕ) → ℕ → ℕ → Outcome ℕ
unfolding ctxt_loop
get_ctxtdelta get count delay =
    get 0 >>= λ v. ctxt_loop get delay (count - 1) 1 false (record { first = v; second = 0 }) v

-- What is printed and returned; the unit is `/s` behind more than one reading.
pub record Report : Type 0 where
  pub status : NagStatus
  pub dnctxt : ℕ
  pub per_second : Bool

-- `scan` is `sscanf` of lib/cpustats.c, and `stat i` is /proc/stat at the i-th reading.
module _ (scan : Bytes → Option ℕ) (d : Double) where
  unfoldable pub main : List Opt → List Bytes → (ℕ → Option (List Bytes)) → Outcome Report
  unfolding getopt_loop switch_option read_arguments thresholds_or_usage get_ctxtdelta get_status
      cpu_stats_get_cswch
  main opts args stat = getopt_loop switch_option opts no_limits >>= λ s.
      read_arguments args >>= λ a. thresholds_or_usage d s.warning s.critical >>= λ t.
      get_ctxtdelta (λ i. cpu_stats_get_cswch scan (stat i)) a.count a.delay >>= λ dnctxt.
      returns (record {
        status = get_status d (d.of_ℤ (pos dnctxt)) t;
        dnctxt = dnctxt;
        per_second = ltb 1 a.count;
      })
