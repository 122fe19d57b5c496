-- ===== src/Cpufreq/Rounding.antt =====
-- The texts of lib/cpufreq.c are the numbers rounded to the nearest unit that is shown.
use nagios_plugins_linux.Base.{ℕ, ◌+◌, ◌-◌, ◌*◌, ◌/◌, ◌^◌, ◌<◌, ◌≡◌, arith}
use nagios_plugins_linux.Cpufreq.{
  Shown, hundredths, tenths, whole, base, cpufreq_freq_to_string, cpufreq_duration_to_string,
}

-- A text is right for a number if its digits, as one number, are the nearest multiple of the last
-- digit's unit (the one above, in the middle), and the digits behind the point are in their range.
abbrev pub IsNearest : ℕ → Shown → Type 0
IsNearest n (hundredths a b) = (b < 100) × (a * 100 + b ≡ (n + 5000) / 10000)
IsNearest n (tenths a b) = (b < 10) × (a * 10 + b ≡ (n + 50) / 100)
IsNearest n (whole a) = a ≡ (n + 500) / 1000
IsNearest n (base a) = a ≡ n

-- The text of a frequency shows it in GHz, MHz or kHz, rounded to the nearest last digit, below
-- 2 ^ 32 - 10000 kHz; beyond, the cast to `unsigned int` may lose the number.
pub cpufreq_freq_to_string-IsNearest :
    (freq : ℕ) → freq < 2 ^ 32 - 10000 → IsNearest freq (cpufreq_freq_to_string freq)
unfolding cpufreq_freq_to_string
cpufreq_freq_to_string-IsNearest freq h = ground arith

-- The text of a duration shows it in ms, us or ns, rounded to the nearest last digit, below
-- 2 ^ 32 - 10000 ns.
pub cpufreq_duration_to_string-IsNearest :
    (duration : ℕ)
    → duration < 2 ^ 32 - 10000
    → IsNearest duration (cpufreq_duration_to_string duration)
unfolding cpufreq_duration_to_string
cpufreq_duration_to_string-IsNearest duration h = ground arith
