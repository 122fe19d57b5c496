-- ===== src/Program/Arguments.antt =====
-- The delay and the count behind the options of plugins/check_cpu.c, which plugins/check_cswch.c,
-- plugins/check_intr.c and plugins/check_fc.c read in the same way.
use nagios_plugins_linux.Base.{
  ℕ, ◌≤◌, ◌≡◌, refl, [], ◌∷◌, List, some, Bytes, ltb, if◌then◌else◌, arith,
}
use nagios_plugins_linux.Base.Int.{bits64}
use nagios_plugins_linux.Messages.{state_unknown, Outcome, returns, exits, plugin_error, ◌>>=◌}
use nagios_plugins_linux.Xstrton.{strtol_or_err}

-- The arguments behind the options, from `optind` on; further ones are not looked at.
pub record Arguments : Type 0 where
  pub delay : ℕ
  pub count : ℕ

abbrev pub delay_max : ℕ
delay_max = 60

abbrev pub count_max : ℕ
count_max = 100

-- `unsigned long delay`, with its two tests.
unfoldable pub checked_delay : ℕ → Outcome ℕ
checked_delay delay =
    if ltb delay 1
    then plugin_error state_unknown
    else if ltb delay_max delay
    then plugin_error state_unknown
    else returns delay

unfoldable pub checked_count : ℕ → Outcome ℕ
checked_count count = if ltb count_max count then plugin_error state_unknown else returns count

unfoldable pub read_count : ℕ → List Bytes → Outcome Arguments
unfolding checked_count
read_count delay [] = returns (record { delay = delay; count = 2 })
read_count delay (arg ∷ args) = strtol_or_err (some arg) >>= λ n.
    checked_count (bits64 n) >>= λ count. returns (record { delay = delay; count = count })

unfoldable pub read_arguments : List Bytes → Outcome Arguments
unfolding read_count checked_delay strtol_or_err
read_arguments [] = read_count 1 []
read_arguments (arg ∷ args) =
    strtol_or_err (some arg) >>= λ n. checked_delay (bits64 n) >>= λ delay. read_count delay args

-- What a call returns has a property.
abbrev Ensures : (Arguments → Type 0) → Outcome Arguments → Type 0
Ensures P (returns a) = P a
Ensures P (exits status) = Unit

abbrev pub IsBounded : Arguments → Type 0
IsBounded a = (1 ≤ a.delay) × (a.delay ≤ 60) × (a.count ≤ 100)

bind_Ensures :
    {A : Type 0} (m : Outcome A) (f : A → Outcome Arguments)
    → ((a : A) → m ≡ returns a → Ensures IsBounded (f a))
    → Ensures IsBounded (m >>= f)
bind_Ensures (returns a) f h = h a refl
bind_Ensures (exits status) f h = tt

checked_delay_lem : (n m : ℕ) → checked_delay n ≡ returns m → (1 ≤ m) × (m ≤ 60)
unfolding checked_delay plugin_error
checked_delay_lem n m e = ground (arith, e)

checked_count_lem : (n m : ℕ) → checked_count n ≡ returns m → m ≤ 100
unfolding checked_count plugin_error
checked_count_lem n m e = ground (arith, e)

read_count-Ensures :
    (delay : ℕ) (args : List Bytes)
    → 1 ≤ delay
    → delay ≤ 60
    → Ensures IsBounded (read_count delay args)
unfolding read_count
read_count-Ensures delay [] l h = (l, h, omega arith)
read_count-Ensures delay (arg ∷ args) l h =
    bind_Ensures (strtol_or_err (some arg)) _ λ n e.
      bind_Ensures (checked_count (bits64 n)) _ λ count c. (l, h, checked_count_lem _ count c)

-- Whenever the arguments are accepted, the delay is from 1 to 60 seconds and the count is at most
-- 100.
pub read_arguments-Ensures : (args : List Bytes) → Ensures IsBounded (read_arguments args)
unfolding read_arguments
read_arguments-Ensures [] = read_count-Ensures 1 [] (omega arith) (omega arith)
read_arguments-Ensures (arg ∷ args) = bind_Ensures (strtol_or_err (some arg)) _ λ n e.
    bind_Ensures (checked_delay (bits64 n)) _ λ delay c.
      read_count-Ensures delay args (checked_delay_lem (bits64 n) delay c).0
        (checked_delay_lem (bits64 n) delay c).1
