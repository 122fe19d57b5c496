-- ===== src/Thresholds/Status.antt =====
-- What `check_range` and `get_status` of lib/thresholds.c decide, against the range read as a
-- closed interval whose ends may be infinite.
use nagios_plugins_linux.Base.{
  Bool, if◌then◌else◌, true, false, ◌≡◌, refl, ◌⊎◌, ◌↔◌, Option, none, some, arith,
}
use nagios_plugins_linux.Base.Double.{Double}
use nagios_plugins_linux.Messages.{state_ok, state_warning, state_critical}
use nagios_plugins_linux.Thresholds.{
  AlertOn, outside, inside, Range, Thresholds, check_range, get_status, alerts,
}

-- The ladder of `get_status` over two tests that decide `C` and `W`.
ladder_iff :
    {C W : Type 0} (c w : Bool)
    → (c ≡ true) ↔ C
    → (w ≡ true) ↔ W
    → ((if c then state_critical else if w then state_warning else state_ok) ≡ state_critical ↔ C)
      × ((if c then state_critical else if w then state_warning else state_ok) ≡ state_warning
          ↔ ((¬ C) × W))
      × ((if c then state_critical else if w then state_warning else state_ok) ≡ state_ok
          ↔ ((¬ C) × (¬ W)))
ladder_iff true w hc hw = ground arith
ladder_iff false true hc hw = ground arith
ladder_iff false false hc hw = ground arith

module _ (d : Double) (value : d.D) where
  abbrev pub Within : Range d → Type 0
  Within r =
      ((r.start_infinity ≡ true) ⊎ (d.le r.start value ≡ true))
      × ((r.end_infinity ≡ true) ⊎ (d.le value r.end ≡ true))

  abbrev pub AlertsOn : AlertOn → Range d → Type 0
  AlertsOn outside r = ¬ Within r
  AlertsOn inside r = Within r

  -- The specification of a threshold: an absent one never alerts.
  abbrev pub Alerts : Option (Range d) → Type 0
  Alerts none = ⊥
  Alerts (some r) = AlertsOn r.alert_on r

  check_range-outside :
      (r : Range d) → r.alert_on ≡ outside → (check_range d value r ≡ true) ↔ (¬ Within r)
  unfolding check_range
  check_range-outside r a = ground arith

  check_range-inside :
      (r : Range d) → r.alert_on ≡ inside → (check_range d value r ≡ true) ↔ Within r
  unfolding check_range
  check_range-inside r a = ground arith

  check_range-AlertsOn :
      (a : AlertOn) (r : Range d) → r.alert_on ≡ a → (check_range d value r ≡ true) ↔ AlertsOn a r
  check_range-AlertsOn outside r e = check_range-outside r e
  check_range-AlertsOn inside r e = check_range-inside r e

  pub alerts_iff : (o : Option (Range d)) → (alerts d value o ≡ true) ↔ Alerts o
  unfolding alerts
  alerts_iff none = ground arith
  alerts_iff (some r) = check_range-AlertsOn r.alert_on r refl

  -- `check_range` alerts on a value exactly when the value lies outside the closed interval of the
  -- range (or inside it, where the range is an `@` range), each end being infinite or not.
  pub check_range-Alerts : (r : Range d) → (check_range d value r ≡ true) ↔ Alerts (some r)
  check_range-Alerts r = check_range-AlertsOn r.alert_on r refl

  -- `get_status` is critical exactly when the critical range alerts, a warning exactly when the
  -- warning range alerts and the critical one does not, and OK exactly when neither alerts.
  pub get_status-Alerts :
      (t : Thresholds d)
      → ((get_status d value t ≡ state_critical) ↔ Alerts t.critical)
        × ((get_status d value t ≡ state_warning) ↔ ((¬ Alerts t.critical) × Alerts t.warning))
        × ((get_status d value t ≡ state_ok) ↔ ((¬ Alerts t.critical) × (¬ Alerts t.warning)))
  unfolding get_status
  get_status-Alerts t =
      ladder_iff (alerts d value t.critical) (alerts d value t.warning) (alerts_iff t.critical)
        (alerts_iff t.warning)
