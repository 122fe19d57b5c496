-- ===== src/Thresholds.antt =====
-- lib/thresholds.c and include/thresholds.h: ranges, the status of a value, and the parser of the
-- threshold arguments. `double` and `strtod` are the parameter `d`.
pub mod Status
pub mod Parse
use nagios_plugins_linux.Base.{
  ℕ, Bool, true, false, not, ◌&&◌, ◌||◌, [], ◌∷◌, Option, none, some, Bytes, ◌==◌, if◌then◌else◌,
  strchr, streq, contains, codes,
}
use nagios_plugins_linux.Base.Int.{pos}
use nagios_plugins_linux.Base.Double.{Double}
use nagios_plugins_linux.Messages.{
  NagStatus, state_ok, state_warning, state_critical, state_unknown, Outcome, returns, exits,
}

-- NP_RANGE_OUTSIDE and NP_RANGE_INSIDE
pub data AlertOn : Type 0 where
  outside inside : AlertOn

pub record Range (d : Double) : Type 0 where
  pub start : d.D
  pub end : d.D
  pub start_infinity : Bool
  pub end_infinity : Bool
  pub alert_on : AlertOn

-- A null pointer is `none`.
pub record Thresholds (d : Double) : Type 0 where
  pub warning : Option (Range d)
  pub critical : Option (Range d)

-- The local variable `yes` of `check_range`; `no` is its negation.
yes_of : AlertOn → Bool
yes_of inside = false
yes_of outside = true

-- NP_RANGE_UNPARSEABLE
abbrev pub unparseable : ℕ
unparseable = 1

module _ (d : Double) where
  unfoldable pub check_range : d.D → Range d → Bool
  unfolding yes_of
  check_range value r =
      let yes = yes_of r.alert_on in
      if not r.end_infinity && not r.start_infinity
      then (if d.le r.start value && d.le value r.end then not yes else yes)
      else if not r.start_infinity && r.end_infinity
      then (if d.le r.start value then not yes else yes)
      else if r.start_infinity && not r.end_infinity
      then (if d.le value r.end then not yes else yes)
      else not yes

  -- `p != NULL && check_range (value, p) == true`
  pub alerts : d.D → Option (Range d) → Bool
  alerts value none = false
  alerts value (some r) = check_range value r

  unfoldable pub get_status : d.D → Thresholds d → NagStatus
  unfolding alerts
  get_status value t =
      if alerts value t.critical
      then state_critical
      else if alerts value t.warning
      then state_warning
      else state_ok

  unfoldable pub set_range_start : Range d → d.D → Range d
  set_range_start r value = record r { start = value; start_infinity = false }

  unfoldable pub set_range_end : Range d → d.D → Range d
  set_range_end r value = record r { end = value; end_infinity = false }

  abbrev default_range : AlertOn → Range d
  default_range a = record {
    start = d.of_ℤ (pos 0);
    end = d.of_ℤ (pos 0);
    start_infinity = false;
    end_infinity = true;
    alert_on = a;
  }

  -- The test of `str[0] == '~'` before a colon.
  read_start : Bytes → Range d → Range d
  unfolding set_range_start
  read_start [] r = set_range_start r (d.strtod []).value
  read_start (c ∷ cs) r =
      if c == b'~'
      then record r { start_infinity = true }
      else set_range_start r (d.strtod (c ∷ cs)).value

  -- From `end = strtod (end_str, NULL)` on; a range that is refused is freed.
  read_end : Bytes → Range d → Option (Range d)
  unfolding set_range_end
  read_end end_str r =
      let r' = if not (streq end_str []) then set_range_end r (d.strtod end_str).value else r in
      if r'.start_infinity || r'.end_infinity || d.le r'.start r'.end then some r' else none

  -- The two cases of `index (str, ':')`; behind the colon, `end_str++`.
  read_range : Bytes → Option Bytes → Range d → Option (Range d)
  unfolding read_start read_end
  read_range str none r = read_end str r
  read_range str (some []) r = read_end str r
  read_range str (some (colon ∷ end_str)) r = read_end end_str (read_start str r)

  -- With the leading '@' taken off.
  unfoldable pub parse_range_string : Bytes → Option (Range d)
  unfolding read_range
  parse_range_string [] = read_range [] none (default_range outside)
  parse_range_string (c ∷ cs) =
      if c == b'@'
      then read_range cs (strchr b':' cs) (default_range inside)
      else read_range (c ∷ cs) (strchr b':' (c ∷ cs)) (default_range outside)

  -- `if (s != NULL) if ((p = parse_range_string (s)) == NULL) …`: the outer `none` is the refusal
  unfoldable pub parse_argument : Option Bytes → Option (Option (Range d))
  parse_argument none = some none
  parse_argument (some s) = elim (parse_range_string s) [ none ↦ none | some r ↦ some (some r) ]

  -- The value returned, and `*my_thresholds` after the call.
  set_parsed :
      Option (Thresholds d)
      → Option (Option (Range d))
      → Option (Option (Range d))
      → ℕ × Option (Thresholds d)
  set_parsed old none critical = (unparseable, old)
  set_parsed old (some w) none = (unparseable, old)
  set_parsed old (some w) (some c) = (0, some (record { warning = w; critical = c }))

  -- `allocated` says whether `malloc` returned memory; `old` is what `*my_thresholds` held.
  unfoldable pub set_thresholds :
      Bool
      → Option (Thresholds d)
      → Option Bytes
      → Option Bytes
      → Outcome (ℕ × Option (Thresholds d))
  unfolding parse_argument set_parsed
  set_thresholds allocated old warn_string critical_string =
      if allocated
      then returns (set_parsed old (parse_argument warn_string) (parse_argument critical_string))
      else exits state_unknown

-- `s && !STRCONTAINS (s, "%")`
lacks_percent : Option Bytes → Bool
lacks_percent none = false
lacks_percent (some s) = not (contains b'%' s)

unfoldable pub thresholds_expressed_as_percentages : Option Bytes → Option Bytes → Bool
unfolding lacks_percent
thresholds_expressed_as_percentages warn_string critical_string =
    if lacks_percent warn_string || lacks_percent critical_string then false else true
