-- ===== src/Clock.antt =====
-- plugins/check_clock.c: the seconds between the clock of the host and a reference, against the
-- thresholds. `long` has 64 bits and `int` 32.
pub mod Delta
use nagios_plugins_linux.Base.{
  ℕ, suc, ◌-◌, ◌^◌, Bool, true, false, not, [], ◌∷◌, List, Option, none, some, Bytes, ◌==◌,
  if◌then◌else◌, sub64,
}
use nagios_plugins_linux.Base.Int.{ℤ, pos, negsuc, bits64, to_int}
use nagios_plugins_linux.Base.Double.{Double}
use nagios_plugins_linux.Base.Numeral.{strtol}
use nagios_plugins_linux.Messages.{
  NagStatus, state_ok, state_unknown, Outcome, returns, exits, plugin_error, ◌>>=◌,
}
use nagios_plugins_linux.Thresholds.{Thresholds, set_thresholds, get_status, unparseable}
use nagios_plugins_linux.Xstrton.{strtol_or_err}

-- `long timedelta`, by its 64 bits, returned as an `int`.
unfoldable pub elapsed : ℕ → ℕ → ℤ
unfolding to_int
elapsed now refclock = to_int (sub64 now refclock)

-- `outstr` is the text that `strftime` writes for `%s`, if it does.
unfoldable pub get_timedelta : ℕ → Option Bytes → Outcome ℤ
unfolding elapsed strtol
get_timedelta refclock none = plugin_error state_unknown
get_timedelta refclock (some outstr) = returns (elapsed (bits64 (strtol outstr).value) refclock)

unfoldable pub labs : ℤ → ℕ
labs (pos n) = n
labs (negsuc n) = suc n

-- The variables of `main` that the options set; `refclock` is by its 64 bits.
pub record Settings : Type 0 where
  pub refclock : ℕ
  pub verbose : Bool
  pub critical : Option Bytes
  pub warning : Option Bytes

-- `~0UL`
abbrev pub unset : ℕ
unset = 2 ^ 64 - 1

abbrev pub defaults : Settings
defaults = record { refclock = unset; verbose = false; critical = none; warning = none }

-- What `getopt_long` returns, with `optarg`.
pub data Opt : Type 0 where
  opt_verbose opt_help opt_version opt_unrecognized : Opt
  opt_refclock opt_critical opt_warning : Bytes → Opt

switch_option : Opt → Settings → Outcome Settings
unfolding strtol_or_err
switch_option (opt_refclock optarg) s =
    strtol_or_err (some optarg) >>= λ n. returns (record s { refclock = bits64 n })
switch_option (opt_critical optarg) s = returns (record s { critical = some optarg })
switch_option (opt_warning optarg) s = returns (record s { warning = some optarg })
switch_option opt_verbose s = returns (record s { verbose = true })
switch_option opt_help s = exits state_ok
switch_option opt_version s = exits state_ok
switch_option opt_unrecognized s = exits state_unknown

unfoldable pub process_options : List Opt → Settings → Outcome Settings
unfolding switch_option
process_options [] s = returns s
process_options (opt ∷ opts) s = switch_option opt s >>= λ s'. process_options opts s'

module _ (d : Double) where
  -- What is printed and returned.
  pub record Report : Type 0 where
    pub status : NagStatus
    pub timedelta : ℤ

  -- `my_threshold` is not null where `set_thresholds` returns 0.
  report : ℕ → Option Bytes → ℕ × Option (Thresholds d) → Outcome Report
  unfolding get_timedelta get_status labs
  report refclock outstr (code, none) = exits state_unknown
  report refclock outstr (code, some t) =
      if code == unparseable
      then exits state_unknown
      else get_timedelta refclock outstr >>= λ timedelta. returns (record {
        status = get_status d (d.of_ℤ (pos (labs timedelta))) t;
        timedelta = timedelta;
      })

  unfoldable pub main : List Opt → Option Bytes → Outcome Report
  unfolding process_options set_thresholds report
  main opts outstr = process_options opts defaults >>= λ s.
      if s.refclock == unset
      then exits state_unknown
      else set_thresholds d true none s.warning s.critical >>= λ r. report s.refclock outstr r
