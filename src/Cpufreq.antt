-- ===== src/Cpufreq.antt =====
-- lib/cpufreq.c: the available frequencies, and the texts of frequencies and durations. The digits
-- that `xasprintf` writes are left as the numbers it is given.
pub mod Rounding
pub mod Monitor
use nagios_plugins_linux.Base.{
  ℕ, ◌+◌, ◌/◌, ◌%◌, [], ◌∷◌, ◌++◌, List, Bytes, ltb, leb, ◌==◌, if◌then◌else◌, u32, u64,
}
use nagios_plugins_linux.Base.Numeral.{Number, strtoul}

-- A token that was read, in front of the others; there are no empty ones.
abbrev finished : Bytes → List Bytes → List Bytes
finished [] rest = rest
finished (r ∷ rs) rest = (r ∷ rs) ∷ rest

-- The tokens of `strtok_r (str, " ", …)`, behind the bytes of one that is being read.
unfoldable pub tokens : Bytes → Bytes → List Bytes
tokens [] read = finished read []
tokens (c ∷ cs) read =
    if c == b' ' then finished read (tokens cs []) else tokens cs (read ++ c ∷ [])

abbrev values : List Bytes → List ℕ
values [] = []
values (token ∷ rest) = (strtoul token).value ∷ values rest

-- The linked list, for a text that is there.
unfoldable pub cpufreq_available_freqs : Bytes → List ℕ
unfolding tokens
cpufreq_available_freqs freqs = values (tokens freqs [])

-- What `xasprintf` is given: `%u.%02u` or `%u.%01u` of two numbers, `%u` or `%lu` of one.
pub data Shown : Type 0 where
  hundredths tenths : ℕ → ℕ → Shown
  whole base : ℕ → Shown

-- The three roundings, which wrap as 64 bits do; the casts keep 32 bits.
abbrev rounded : ℕ → ℕ → ℕ → ℕ
rounded n step half = if leb half (n % step) then u64 (n + step) else n

unfoldable pub cpufreq_freq_to_string : ℕ → Shown
cpufreq_freq_to_string freq =
    if ltb 1000000 freq
    then hundredths (u32 (rounded freq 10000 5000) / 1000000)
        (u32 (rounded freq 10000 5000 % 1000000) / 10000)
    else if ltb 100000 freq
    then whole (u32 (rounded freq 1000 500) / 1000)
    else if ltb 1000 freq
    then tenths (u32 (rounded freq 100 50) / 1000) (u32 (rounded freq 100 50 % 1000) / 100)
    else base freq

unfoldable pub cpufreq_duration_to_string : ℕ → Shown
cpufreq_duration_to_string duration =
    if ltb 1000000 duration
    then hundredths (u32 (rounded duration 10000 5000) / 1000000)
        (u32 (rounded duration 10000 5000 % 1000000) / 10000)
    else if ltb 100000 duration
    then whole (u32 (rounded duration 1000 500) / 1000)
    else if ltb 1000 duration
    then tenths (u32 (rounded duration 100 50) / 1000) (u32 (rounded duration 100 50 % 1000) / 100)
    else base duration
