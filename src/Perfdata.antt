-- ===== src/Perfdata.antt =====
-- lib/perfdata.c and the units of include/units.h: the warning and critical limits that are
-- printed among the performance data.
pub mod Limits
use nagios_plugins_linux.Base.{ℕ, ◌*◌, zero, ◌/◌, ◌^◌, Bool, Option, none, some, u64, if◌then◌else◌}
use nagios_plugins_linux.Base.Int.{ℤ, pos, negsuc}
use nagios_plugins_linux.Base.Double.{Double}
use nagios_plugins_linux.Thresholds.{Range, AlertOn, outside, inside}

pub data UnitShift : Type 0 where
  b_shift k_shift m_shift g_shift : UnitShift

unfoldable pub shift_of : UnitShift → ℕ
shift_of b_shift = 0
shift_of k_shift = 10
shift_of m_shift = 20
shift_of g_shift = 30

-- UNIT_CONVERT: the left shift loses the high bits of a 64-bit word.
unfoldable pub unit_convert : ℕ → UnitShift → ℕ
unfolding shift_of
unit_convert x shift = u64 (u64 x * 2 ^ 10) / 2 ^ shift_of shift

-- What `get_perfdata_limit` leaves: the value that it returns, and `*limit`.
pub record Limit : Type 0 where
  pub error : ℤ
  pub limit : ℕ

module _ (d : Double) where
  open d use {D, of_ℤ, mul, div, to_u64}

  -- From the computed `threshold_limit` on.
  pub scaled : D → ℕ → Bool → ℕ
  scaled threshold_limit base percent =
      let limit : ℕ = to_u64 (mul (of_ℤ (pos base)) threshold_limit) in
      if percent then to_u64 (div (of_ℤ (pos limit)) (of_ℤ (pos 100))) else limit

  -- The cascade over a threshold that is there; the first flag is the test of `alert_on`.
  limit_of : AlertOn → Range d → ℕ → ℕ → Bool → Limit
  unfolding scaled
  limit_of inside t base old percent = record { error = negsuc 0; limit = old }
  limit_of outside t base old percent =
      if t.start_infinity
      then record { error = negsuc 0; limit = old }
      else if t.end_infinity
      then record { error = pos 0; limit = scaled t.start base percent }
      else record { error = pos 0; limit = scaled t.end base percent }

  -- `old` is what `*limit` held.
  unfoldable pub get_perfdata_limit : Option (Range d) → ℕ → ℕ → Bool → Limit
  unfolding limit_of
  get_perfdata_limit none base old percent = record { error = negsuc 0; limit = old }
  get_perfdata_limit (some t) base old percent = limit_of t.alert_on t base old percent

  convert_on_success : ℤ → Limit → UnitShift → Limit
  unfolding unit_convert
  convert_on_success (pos zero) l shift = record l { limit = unit_convert l.limit shift }
  convert_on_success _ l shift = l

  unfoldable pub get_perfdata_limit_converted : Option (Range d) → ℕ → UnitShift → ℕ → Bool → Limit
  unfolding get_perfdata_limit convert_on_success
  get_perfdata_limit_converted t base shift old percent =
      let l = get_perfdata_limit t base old percent in convert_on_success l.error l shift
