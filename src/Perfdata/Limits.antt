-- ===== src/Perfdata/Limits.antt =====
-- The limits of lib/perfdata.c are ends of the threshold's range, and the unit conversion of
-- include/units.h is exact below 2 ^ 54.
use nagios_plugins_linux.Base.{
  ℕ, ◌*◌, ◌/◌, ◌^◌, ◌<◌, ◌≡◌, ◌≢◌, ◌⊎◌, if◌then◌else◌, inl, inr, refl, Bool, true, false, Option,
  none, some, arith,
}
use nagios_plugins_linux.Base.Int.{pos}
use nagios_plugins_linux.Base.Double.{Double}
use nagios_plugins_linux.Thresholds.{Range, AlertOn, outside, inside, check_range}
use nagios_plugins_linux.Perfdata.{
  b_shift, k_shift, m_shift, g_shift, unit_convert, get_perfdata_limit, scaled, limit_of,
}

-- `UNIT_CONVERT` turns a count of kilobytes below 2 ^ 54 into bytes, kilobytes, and whole megabytes
-- and gigabytes, with no bit lost.
pub unit_convert-exact :
    (kb : ℕ)
    → kb < 2 ^ 54
    → (unit_convert kb b_shift ≡ kb * 1024)
      × (unit_convert kb k_shift ≡ kb)
      × (unit_convert kb m_shift ≡ kb / 1024)
      × (unit_convert kb g_shift ≡ kb / (1024 * 1024))
unfolding unit_convert
unit_convert-exact kb h = omega arith

module _ (d : Double) where
  open d use {D, le}

  -- `b` is an end of the range `t` past which every value alerts.
  pub record IsEdge (t : Range d) (b : D) : Type 0 where
    pub above : t.end_infinity ≡ false → (v : D) → le v b ≡ false → check_range d v t ≡ true
    pub below : t.end_infinity ≡ true → (v : D) → le b v ≡ false → check_range d v t ≡ true

  limit_of-IsEdge :
      (a : AlertOn) (t : Range d) (base old : ℕ) (percent : Bool)
      → t.alert_on ≡ a
      → (limit_of d a t base old percent).error ≡ pos 0
      → (b : D) × ((limit_of d a t base old percent).limit ≡ scaled d b base percent) × IsEdge t b
  unfolding limit_of check_range
  limit_of-IsEdge inside t base old percent a e = cc
  limit_of-IsEdge outside t base old percent a e = (
    if t.end_infinity then t.start else t.end,
    ground arith,
    record { above = λ f v h. ground arith; below = λ f v h. ground arith },
  )

  limit_of-refused :
      (a : AlertOn) (t : Range d) (base old : ℕ) (percent : Bool)
      → t.alert_on ≡ a
      → (limit_of d a t base old percent).error ≢ pos 0
      → ((limit_of d a t base old percent).limit ≡ old)
        × ((t.alert_on ≡ inside) ⊎ (t.start_infinity ≡ true))
  unfolding limit_of
  limit_of-refused inside t base old percent a e = (refl, inl a)
  limit_of-refused outside t base old percent a e = ground arith

  -- A limit that is reported is the scaled value of an end of the range past which every value
  -- alerts; one that is not leaves the caller's variable alone, and is that of no range, of an
  -- `@` range, or of a range that starts at minus infinity.
  pub get_perfdata_limit-IsEdge :
      (threshold : Option (Range d)) (base old : ℕ) (percent : Bool)
      → ((get_perfdata_limit d threshold base old percent).error ≡ pos 0
          → (t : Range d) × (threshold ≡ some t)
            × ((b : D) × ((get_perfdata_limit d threshold base old percent).limit
                  ≡ scaled d b base percent)
                × IsEdge t b))
        × ((get_perfdata_limit d threshold base old percent).error ≢ pos 0
            → ((get_perfdata_limit d threshold base old percent).limit ≡ old)
              × ((threshold ≡ none)
                  ⊎ ((t : Range d) × (threshold ≡ some t)
                      × ((t.alert_on ≡ inside) ⊎ (t.start_infinity ≡ true)))))
  unfolding get_perfdata_limit
  get_perfdata_limit-IsEdge none base old percent = (λ e. ground arith, λ e. (refl, inl refl))
  get_perfdata_limit-IsEdge (some t) base old percent = (
    λ e. (t, refl, limit_of-IsEdge t.alert_on t base old percent refl e),
    λ e.
        let (kept, why) = limit_of-refused t.alert_on t base old percent refl e in
        (kept, inr (t, refl, why)),
  )
