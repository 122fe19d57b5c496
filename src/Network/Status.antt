-- ===== src/Network/Status.antt =====
-- The status of plugins/check_network.c over all interfaces.
use nagios_plugins_linux.Base.{
  ℕ, ◌≡◌, refl, Bool, false, ◌||◌, [], ◌∷◌, List, ltb, if◌then◌else◌, arith,
}
use nagios_plugins_linux.Base.Double.{Double}
use nagios_plugins_linux.Messages.{NagStatus, state_ok, state_unknown, returns}
use nagios_plugins_linux.Messages.Worst.{ladder, any, worst_by, worst_by-ladder}
use nagios_plugins_linux.Thresholds.{Thresholds, get_status, alerts}
use nagios_plugins_linux.Netinfo.{Interface}
use nagios_plugins_linux.Network.{
  Settings, NetworkCheck, counter_of, inconvertible, check_interfaces, network_status,
}

or_false_split : (a b : Bool) → (a || b) ≡ false → (a ≡ false) × (b ≡ false)
or_false_split a b h = ground arith

module _ (d : Double) (s : Settings) (check : NetworkCheck) (t : Thresholds d) where
  abbrev status_at : Interface → NagStatus
  status_at ifl = get_status d (counter_of d s check ifl) t

  status_ladder :
      (ifl : Interface)
      → status_at ifl
        ≡ ladder
            (alerts d (counter_of d s check ifl) t.critical)
            (alerts d (counter_of d s check ifl) t.warning)
  unfolding get_status
  status_ladder ifl = refl

  check_interfaces-worst :
      (ifls : List Interface) (status : NagStatus)
      → any (inconvertible d s) ifls ≡ false
      → check_interfaces d s check t ifls status ≡ returns (worst_by status_at ifls status)
  unfolding check_interfaces worst_by
  check_interfaces-worst [] status h = refl
  check_interfaces-worst (ifl ∷ ifls) status h =
      let (here, later) = or_false_split (inconvertible d s ifl) (any (inconvertible d s) ifls) h in
      rw here (check_interfaces-worst ifls _ later)

  -- Unless percentages are asked for on a link without a speed, the status is UNKNOWN if no
  -- interface was counted, else CRITICAL if the counter of some interface alerts the critical
  -- range, WARNING if none does but one alerts the warning range, and OK otherwise.
  pub network_status-worst :
      (ifls : List Interface) (ninterfaces : ℕ)
      → any (inconvertible d s) ifls ≡ false
      → network_status d s check t ifls ninterfaces
        ≡ returns (
            if ltb ninterfaces 1
            then state_unknown
            else ladder
                (any (λ (ifl : Interface). alerts d (counter_of d s check ifl) t.critical) ifls)
                (any (λ (ifl : Interface). alerts d (counter_of d s check ifl) t.warning) ifls))
  unfolding network_status
  network_status-worst ifls ninterfaces h =
      rw (check_interfaces-worst ifls state_ok h, worst_by-ladder status_at _ _ status_ladder ifls)
        refl
