-- ===== src/Load.antt =====
-- plugins/check_load.c: the state that the load averages of 1, 5 and 15 minutes give.
pub mod Status
pub mod Averages
pub mod Limits
use nagios_plugins_linux.Base.{Bool, [], ◌∷◌, List, not, if◌then◌else◌}
use nagios_plugins_linux.Base.Double.{Double}
use nagios_plugins_linux.Messages.{NagStatus, state_ok, state_warning, state_critical}

-- One index of the four arrays `loadavg`, `wload`, `cload` and `required`.
pub record Average (d : Double) : Type 0 where
  pub loadavg : d.D
  pub wload : d.D
  pub cload : d.D
  pub required : Bool

module _ (d : Double) where
  -- The loop, with `status` as it is before the index; `a > b` is `b < a`.
  load_loop : List (Average d) → NagStatus → NagStatus
  load_loop [] status = status
  load_loop (a ∷ rest) status =
      let skipped = load_loop rest status in
      let next = load_loop rest (if d.lt a.wload a.loadavg then state_warning else status) in
      if not a.required then skipped else if d.lt a.cload a.loadavg then state_critical else next

  unfoldable pub loadavg_status : List (Average d) → NagStatus
  unfolding load_loop
  loadavg_status averages = load_loop averages state_ok
