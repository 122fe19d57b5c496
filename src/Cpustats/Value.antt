-- ===== src/Cpustats/Value.antt =====
-- The single counters of lib/cpustats.c.
use nagios_plugins_linux.Base.{
  ℕ, ◌≡◌, refl, ap, Bool, true, false, ◌||◌, [], ◌∷◌, ◌++◌, List, Option, none, some, Bytes, arith,
  starts_with, drop, if◌then◌else◌, length,
}
use mathlib.Core.Option.{get_or}
use nagios_plugins_linux.Messages.{returns, exits, state_unknown, plugin_error}
use nagios_plugins_linux.Cpustats.{
  value_or_zero, find_value, found_value, cpu_stats_get_value_with_pattern,
}

abbrev pub has_line : Bytes → List Bytes → Bool
has_line pattern [] = false
has_line pattern (line ∷ lines) = starts_with pattern line || has_line pattern lines

module _ (scan : Bytes → Option ℕ) (pattern : Bytes) where
  find_value-absent :
      (lines : List Bytes) → has_line pattern lines ≡ false → find_value scan pattern lines ≡ none
  unfolding find_value
  find_value-absent [] h = refl
  find_value-absent (line ∷ lines) h = let rest = find_value-absent lines in ground (arith, rest)

  value_or_zero_lem : (o : Option ℕ) → value_or_zero scan o ≡ get_or o 0
  unfolding value_or_zero
  value_or_zero_lem none = refl
  value_or_zero_lem (some v) = refl

  find_value-append :
      (before behind : List Bytes) (line : Bytes)
      → has_line pattern before ≡ false
      → starts_with pattern line ≡ true
      → find_value scan pattern (before ++ line ∷ behind)
        ≡ some (get_or (scan (drop (length pattern) line)) 0)
  unfolding find_value
  find_value-append [] behind line h s =
      rw s (ap some (value_or_zero_lem (scan (drop (length pattern) line))))
  find_value-append (x ∷ before) behind line h s =
      let rest = find_value-append before behind line in ground (arith, rest)

  -- A counter is the number behind the pattern in the first line that begins with it, or 0 where
  -- none can be read there; where no line begins with it, a mandatory counter ends the process with
  -- UNKNOWN and an optional one is 0.
  pub cpu_stats_get_value_with_pattern_lem :
      (before behind : List Bytes) (line : Bytes) (mandatory : Bool)
      → has_line pattern before ≡ false
      → starts_with pattern line ≡ true
      → (cpu_stats_get_value_with_pattern scan pattern mandatory (some (before ++ line ∷ behind))
          ≡ returns (get_or (scan (drop (length pattern) line)) 0))
        × (cpu_stats_get_value_with_pattern scan pattern mandatory (some before)
            ≡ (if mandatory then exits state_unknown else returns 0))
  unfolding cpu_stats_get_value_with_pattern found_value plugin_error
  cpu_stats_get_value_with_pattern_lem before behind line mandatory h s =
      (rw (find_value-append before behind line h s), rw (find_value-absent before h))
