-- ===== src/Cswch/Rate.antt =====
-- What plugins/check_cswch.c measures, and the state it gives.
use native.Mathlib.Nat.{add-zero}
use nagios_plugins_linux.Base.{
  ℕ, zero, suc, ◌+◌, ◌-◌, ◌/◌, ◌≡◌, refl, ap, ◌∙◌, Bool, true, false, not, List, Option, some,
  Bytes, sub64, arith, lt→ltb,
}
use nagios_plugins_linux.Base.Int.{pos}
use nagios_plugins_linux.Base.Double.{Double}
use nagios_plugins_linux.Messages.{Outcome, returns}
use nagios_plugins_linux.Messages.Worst.{ladder}
use nagios_plugins_linux.Thresholds.{Range, parse_argument, alerts, get_status}
use nagios_plugins_linux.Cpustats.{cpu_stats_get_cswch}
use nagios_plugins_linux.Program.{
  getopt_loop, Limits, no_limits, Opt, switch_option, Slots, slot, put,
}
use nagios_plugins_linux.Program.Rates.{rate, slot-put_here, slot-put_there}
use nagios_plugins_linux.Program.Arguments.{read_arguments}
use nagios_plugins_linux.Program.Ladder.{thresholds_or_usage-parsed}
use nagios_plugins_linux.Cswch.{ctxt_loop, get_ctxtdelta, main}

module _ (get : ℕ → Outcome ℕ) (value : ℕ → ℕ) (delay : ℕ) where
  ctxt_loop-rate :
      (left j : ℕ) (tog : Bool) (nctxt : Slots) (dnctxt : ℕ)
      → ((i : ℕ) → get i ≡ returns (value i))
      → slot tog nctxt ≡ value j
      → ctxt_loop get delay (suc left) (suc j) tog nctxt dnctxt
        ≡ returns (rate value delay (j + left))
  unfolding ctxt_loop
  ctxt_loop-rate zero j tog nctxt dnctxt h e =
      rw
        (
          h (suc j),
          slot-put_here tog (value (suc j)) nctxt,
          slot-put_there tog (value (suc j)) nctxt,
          e,
          add-zero j,
        )
        refl
  ctxt_loop-rate (suc left) j tog nctxt dnctxt h e =
      let filled = put (not tog) (value (suc j)) nctxt in
      let next : ℕ = sub64 (slot (not tog) filled) (slot tog filled) / delay in
      rw (h (suc j)) (
        ctxt_loop-rate left (suc j) (not tog) filled next h
          (slot-put_here tog (value (suc j)) nctxt)
        ∙ ap (λ n. returns (rate value delay n)) (omega arith))

  pub get_ctxtdelta-rate :
      (more : ℕ)
      → ((i : ℕ) → get i ≡ returns (value i))
      → get_ctxtdelta get (suc (suc more)) delay ≡ returns (rate value delay more)
  unfolding get_ctxtdelta
  get_ctxtdelta-rate more h =
      let one : suc (suc more) - 1 ≡ suc more = omega arith in
      rw (h 0, one)
        (ctxt_loop-rate more 0 false (record { first = value 0; second = 0 }) (value 0) h refl
          ∙ ap (λ n. returns (rate value delay n)) (omega arith))

-- With options and arguments that are read, ranges that can be parsed and two or more readings, all
-- of which find the counter, check_cswch reports what the counter grew by in a second between the
-- last two, modulo 2^64, and is CRITICAL if that alerts the critical range, else WARNING if it alerts
-- the warning range, else OK.
pub main-rate :
    (scan : Bytes → Option ℕ) (d : Double) (opts : List Opt) (args : List Bytes)
    (stat : ℕ → Option (List Bytes)) (value : ℕ → ℕ) (s : Limits) (delay more : ℕ)
    (w c : Option (Range d))
    → getopt_loop switch_option opts no_limits ≡ returns s
    → read_arguments args ≡ returns (record { delay = delay; count = suc (suc more) })
    → parse_argument d s.warning ≡ some w
    → parse_argument d s.critical ≡ some c
    → ((i : ℕ) → cpu_stats_get_cswch scan (stat i) ≡ returns (value i))
    → let dnctxt = rate value delay more in
      let v = d.of_ℤ (pos dnctxt) in
      main scan d opts args stat
      ≡ returns (record {
        status = ladder (alerts d v c) (alerts d v w);
        dnctxt = dnctxt;
        per_second = true;
      })
unfolding main get_status
main-rate scan d opts args stat value s delay more w c o a hw hc h =
    rw
      (
        o,
        a,
        thresholds_or_usage-parsed d s.warning s.critical w c hw hc,
        get_ctxtdelta-rate (λ i. cpu_stats_get_cswch scan (stat i)) value delay more h,
        lt→ltb 1 (suc (suc more)) (omega arith),
      )
      refl
