-- ===== src/Uptime.antt =====
-- plugins/check_uptime.c: the uptime in minutes against the thresholds, and its text. `int` has 32
-- bits; a number of seconds that it does not hold is undefined in the source.
pub mod Spelled
use nagios_plugins_linux.Base.{
  ℕ, ◌/◌, ◌%◌, ◌*◌, Bool, true, not, [], ◌∷◌, ◌++◌, List, Option, none, some, Bytes, ◌==◌,
  if◌then◌else◌,
}
use nagios_plugins_linux.Base.Int.{pos}
use nagios_plugins_linux.Base.Double.{Double}
use nagios_plugins_linux.Messages.{
  NagStatus, state_ok, state_unknown, Outcome, returns, exits, plugin_error, ◌>>=◌,
}
use nagios_plugins_linux.Thresholds.{Thresholds, set_thresholds, get_status, unparseable}

-- What a `snprintf` writes: a number, the unit behind it, and the unit's plural.
pub data Piece : Type 0 where
  days hours : ℕ → Bool → Piece
  minutes : ℕ → Piece

-- The three numbers, of a time in seconds.
abbrev updays : ℕ → ℕ
updays uptime_secs = uptime_secs / (60 * 60 * 24)

abbrev uphours : ℕ → ℕ
uphours uptime_secs = uptime_secs / 60 / 60 % 24

abbrev upminutes : ℕ → ℕ
upminutes uptime_secs = uptime_secs / 60 % 60

days_text : ℕ → List Piece
days_text n = if n == 0 then [] else days n (not (n == 1)) ∷ []

hours_text : ℕ → List Piece
hours_text n = if n == 0 then [] else hours n (not (n == 1)) ∷ []

-- The longest text is shorter than the buffer.
unfoldable pub sprint_uptime : ℕ → List Piece
unfolding days_text hours_text
sprint_uptime uptime_secs =
    days_text (updays uptime_secs)
    ++ (hours_text (uphours uptime_secs) ++ minutes (upminutes uptime_secs) ∷ [])

-- The two functions that `uptime` may be, with what the system gives them.
pub data Clock : Type 0 where
  sysinfo clock_monotonic : Clock

pub record Clocks : Type 0 where
  pub sysinfo_uptime : Option ℕ
  pub monotonic_secs : Option ℕ

known : Option ℕ → Outcome ℕ
known none = plugin_error state_unknown
known (some secs) = returns secs

unfoldable pub uptime : Clock → Clocks → Outcome ℕ
unfolding known
uptime sysinfo system = known system.sysinfo_uptime
uptime clock_monotonic system = known system.monotonic_secs

-- The variables of `main` that the options set.
pub record Settings : Type 0 where
  pub clock : Clock
  pub critical : Option Bytes
  pub warning : Option Bytes

abbrev pub defaults : Settings
defaults = record { clock = sysinfo; critical = none; warning = none }

-- What `getopt_long` returns, with `optarg`.
pub data Opt : Type 0 where
  opt_clock_monotonic opt_help opt_version opt_unrecognized : Opt
  opt_critical opt_warning : Bytes → Opt

switch_option : Opt → Settings → Outcome Settings
switch_option opt_clock_monotonic s = returns (record s { clock = clock_monotonic })
switch_option (opt_critical optarg) s = returns (record s { critical = some optarg })
switch_option (opt_warning optarg) s = returns (record s { warning = some optarg })
switch_option opt_help s = exits state_ok
switch_option opt_version s = exits state_ok
switch_option opt_unrecognized s = exits state_unknown

unfoldable pub process_options : List Opt → Settings → Outcome Settings
unfolding switch_option
process_options [] s = returns s
process_options (opt ∷ opts) s = switch_option opt s >>= λ s'. process_options opts s'

module _ (d : Double) where
  -- What is printed and returned: the state, the text, and the minutes of the performance data.
  pub record Report : Type 0 where
    pub status : NagStatus
    pub text : List Piece
    pub uptime_mins : ℕ

  -- `my_threshold` is not null where `set_thresholds` returns 0.
  report : Clock → Clocks → ℕ × Option (Thresholds d) → Outcome Report
  unfolding uptime get_status sprint_uptime
  report clock system (code, none) = exits state_unknown
  report clock system (code, some t) =
      if code == unparseable
      then exits state_unknown
      else uptime clock system >>= λ uptime_secs. returns (record {
        status = get_status d (d.of_ℤ (pos (uptime_secs / 60))) t;
        text = sprint_uptime uptime_secs;
        uptime_mins = uptime_secs / 60;
      })

  unfoldable pub main : List Opt → Clocks → Outcome Report
  unfolding process_options set_thresholds report
  main opts system = process_options opts defaults >>= λ s.
      set_thresholds d true none s.warning s.critical >>= λ r. report s.clock system r
