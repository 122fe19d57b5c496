-- ===== src/Xstrton.antt =====
-- lib/xstrton.c: numbers with a suffix for ages and sizes, and `strtol` that ends the process on
-- a text that is no number.
pub mod Suffix
pub mod Strict
pub mod Units
use nagios_plugins_linux.Base.{
  ℕ, ◌+◌, ◌*◌, Bool, true, false, not, ◌&&◌, ◌||◌, [], ◌∷◌, ◌++◌, Option, none, some, Bytes, ◌==◌,
  if◌then◌else◌, get_or, length,
}
use nagios_plugins_linux.Base.Int.{ℤ, pos, negsuc}
use nagios_plugins_linux.Base.Double.{Double, Scan}
use nagios_plugins_linux.Base.Numeral.{strtol}
use nagios_plugins_linux.Messages.{state_unknown, Outcome, returns, plugin_error}

-- The four texts that are stored in `*errmesg`; `silent` leaves it alone.
pub data Message : Type 0 where
  silent invalid_suffix trailing_character conversion_failed empty_string : Message

-- What a conversion leaves: the value returned, `*result` and `*errmesg`.
pub record Converted : Type 0 where
  pub code : ℤ
  pub result : ℤ
  pub errmesg : Message

module _ (d : Double) where
  open d use {D, of_ℤ, mul, to_i64, strtod}

  -- The switch of `agemultiplier`: the age in seconds, or `none` for `return -1`.
  age_in_seconds : D → ℕ → Option D
  age_in_seconds age mult =
      if mult == 0 || mult == b's' || mult == b'S'
      then some age
      else if mult == b'm' || mult == b'M'
      then some (mul age (of_ℤ (pos 60)))
      else if mult == b'h' || mult == b'H'
      then some (mul age (of_ℤ (pos 3600)))
      else if mult == b'd' || mult == b'D'
      then some (mul age (of_ℤ (pos 86400)))
      else if mult == b'w' || mult == b'W'
      then some (mul age (of_ℤ (pos (7 * 86400))))
      else if mult == b'y' || mult == b'Y'
      then some (mul age (of_ℤ (pos 31557600)))
      else none

  -- The switch of `sizemultiplier`. The factors are constants, which the compiler multiplies out.
  size_in_bytes : D → ℕ → Option D
  size_in_bytes size mult =
      if mult == 0 || mult == b'b' || mult == b'B'
      then some size
      else if mult == b'k' || mult == b'K'
      then some (mul size (of_ℤ (pos 1000)))
      else if mult == b'm' || mult == b'M'
      then some (mul size (of_ℤ (pos (1000 * 1000))))
      else if mult == b'g' || mult == b'G'
      then some (mul size (of_ℤ (pos (1000 * 1000 * 1000))))
      else if mult == b't' || mult == b'T'
      then some (mul size (of_ℤ (pos (1000 * 1000 * 1000 * 1000))))
      else if mult == b'p' || mult == b'P'
      then some (mul size (of_ℤ (pos (1000 * 1000 * 1000 * 1000 * 1000))))
      else none

  -- `*result = (long long int) temp; return 0`, or `return -1`
  store : Option D → ℤ → ℤ × ℤ
  store none result = (negsuc 0, result)
  store (some temp) result = (pos 0, to_i64 temp)

  unfoldable pub agemultiplier : D → ℕ → ℤ → ℤ × ℤ
  unfolding age_in_seconds store
  agemultiplier age mult result = store (age_in_seconds age mult) result

  unfoldable pub sizemultiplier : D → ℕ → ℤ → ℤ × ℤ
  unfolding size_in_bytes store
  sizemultiplier size mult result = store (size_in_bytes size mult) result

  -- From `int res = converter (temp, *end, result)` on; `next` is `*(end + 1)`.
  pub checked : ℤ × ℤ → ℕ → Converted
  checked (negsuc n, result) next = record {
    code = negsuc 0;
    result = result;
    errmesg = invalid_suffix;
  }
  checked (pos n, result) next =
      if not (next == 0)
      then record { code = negsuc 0; result = result; errmesg = trailing_character }
      else record { code = pos 0; result = result; errmesg = silent }

  -- `beyond` holds the bytes that stand in memory behind the NUL of `str`: where `*end` is that
  -- NUL, `*(end + 1)` is the first of them.
  convert : (D → ℕ → ℤ → ℤ × ℤ) → Bytes → Bytes → ℤ → Converted
  unfolding checked
  convert converter str beyond result =
      let s = strtod str in
      let memory = str ++ 0 ∷ beyond in
      if not s.failed && not (s.used == 0)
      then checked (converter s.value (get_or memory s.used 0) result)
          (get_or memory (s.used + 1) 0)
      else record { code = negsuc 0; result = result; errmesg = conversion_failed }

  -- `none` is the null pointer; `result` is what `*result` held.
  unfoldable pub strtollint : (D → ℕ → ℤ → ℤ × ℤ) → Option Bytes → Bytes → ℤ → Converted
  unfolding convert
  strtollint converter none beyond result = record {
    code = negsuc 0;
    result = result;
    errmesg = empty_string;
  }
  strtollint converter (some []) beyond result = record {
    code = negsuc 0;
    result = result;
    errmesg = empty_string;
  }
  strtollint converter (some (c ∷ cs)) beyond result = convert converter (c ∷ cs) beyond result

  unfoldable pub agetollint : Option Bytes → Bytes → ℤ → Converted
  unfolding strtollint
  agetollint = strtollint agemultiplier

  unfoldable pub sizetollint : Option Bytes → Bytes → ℤ → Converted
  unfolding strtollint
  sizetollint = strtollint sizemultiplier

unfoldable pub strtol_checked : Bytes → Outcome ℤ
strtol_checked str =
    let n = strtol str in
    if not n.failed && not (n.used == 0) && n.used == length str
    then returns n.value
    else plugin_error state_unknown

-- The `return 0` behind `plugin_error` is never reached.
unfoldable pub strtol_or_err : Option Bytes → Outcome ℤ
unfolding strtol_checked
strtol_or_err none = plugin_error state_unknown
strtol_or_err (some []) = plugin_error state_unknown
strtol_or_err (some (c ∷ cs)) = strtol_checked (c ∷ cs)
