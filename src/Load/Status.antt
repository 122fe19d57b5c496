-- ===== src/Load/Status.antt =====
-- The state of plugins/check_load.c without the loop.
use nagios_plugins_linux.Base.{
  ◌≡◌, ◌↔◌, Bool, true, false, ◌&&◌, ◌||◌, [], ◌∷◌, List, if◌then◌else◌, arith,
}
use nagios_plugins_linux.Base.Double.{Double}
use nagios_plugins_linux.Messages.{NagStatus, state_ok, state_warning, state_critical}
use nagios_plugins_linux.Load.{Average, load_loop, loadavg_status}

module _ (d : Double) where
  -- Whether some average that is asked for exceeds the limit that `limit` picks.
  abbrev pub exceeds : (Average d → d.D) → List (Average d) → Bool
  exceeds limit [] = false
  exceeds limit (a ∷ rest) = (a.required && d.lt (limit a) a.loadavg) || exceeds limit rest

  abbrev critical : List (Average d) → Bool
  critical = exceeds (λ (a : Average d). a.cload)

  abbrev warning : List (Average d) → Bool
  warning = exceeds (λ (a : Average d). a.wload)

  load_loop-exceeds :
      (averages : List (Average d)) (status : NagStatus)
      → load_loop d averages status ≡ (
          if critical averages
          then state_critical
          else if warning averages
          then state_warning
          else status)
  unfolding load_loop
  load_loop-exceeds [] status = ground arith
  load_loop-exceeds (a ∷ rest) status =
      let skipped = load_loop-exceeds rest status in
      let warned = load_loop-exceeds rest state_warning in ground (arith, skipped, warned)

  -- The state is CRITICAL exactly when an average that is asked for exceeds its critical limit,
  -- WARNING exactly when none does but one exceeds its warning limit, and OK otherwise, in whatever
  -- order the averages come.
  pub loadavg_status-exceeds :
      (averages : List (Average d))
      → ((loadavg_status d averages ≡ state_critical)
          ↔ (exceeds (λ (a : Average d). a.cload) averages ≡ true))
        × ((loadavg_status d averages ≡ state_warning) ↔ (
            (exceeds (λ (a : Average d). a.cload) averages ≡ false)
            × (exceeds (λ (a : Average d). a.wload) averages ≡ true)))
        × ((loadavg_status d averages ≡ state_ok) ↔ (
            (exceeds (λ (a : Average d). a.cload) averages ≡ false)
            × (exceeds (λ (a : Average d). a.wload) averages ≡ false)))
  unfolding loadavg_status
  loadavg_status-exceeds averages = let e = load_loop-exceeds averages state_ok in ground (arith, e)
