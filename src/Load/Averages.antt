-- ===== src/Load/Averages.antt =====
-- plugins/check_load.c: the run of the program over its state of the averages.
use nagios_plugins_linux.Base.{
  ℕ, Bool, true, false, not, ◌||◌, [], ◌∷◌, List, Option, none, some, if◌then◌else◌, ltb, ◌==◌,
}
use nagios_plugins_linux.Base.Int.{pos}
use nagios_plugins_linux.Base.Double.{Double}
use nagios_plugins_linux.Messages.{
  NagStatus, state_ok, state_unknown, Outcome, returns, exits, plugin_error, ◌>>=◌,
}
use nagios_plugins_linux.Program.{getopt_loop}
use nagios_plugins_linux.Load.{Average, loadavg_status}

module _ (d : Double) where
  -- What `sscanf (optarg, "%lf,%lf", …)` returns and stores.
  pub record Pair : Type 0 where
    pub conversions : ℕ
    pub first : d.D
    pub second : d.D

  -- `wload`, `cload` and `required` at one index.
  pub record Limits : Type 0 where
    pub wload : d.D
    pub cload : d.D
    pub required : Bool

  pub record Settings : Type 0 where
    pub load1 : Limits
    pub load5 : Limits
    pub load15 : Limits
    pub normalize : Bool

  abbrev pub unset : Limits
  unset = record { wload = d.of_ℤ (pos 0); cload = d.of_ℤ (pos 0); required = false }

  abbrev pub defaults : Settings
  defaults = record { load1 = unset; load5 = unset; load15 = unset; normalize = false }

  -- `w >= c` is `c <= w`.
  unfoldable pub validate_input : Pair → Outcome Limits
  validate_input p =
      if not (p.conversions == 2) || d.le p.second p.first
      then plugin_error state_unknown
      else returns (record { wload = p.first; cload = p.second; required = true })

  pub data Opt : Type 0 where
    opt_load1 opt_load5 opt_load15 : Pair → Opt
    opt_percpu opt_help opt_version opt_unrecognized : Opt

  unfoldable pub switch_option : Opt → Settings → Outcome Settings
  unfolding validate_input
  switch_option (opt_load1 p) s = validate_input p >>= λ l. returns (record s { load1 = l })
  switch_option (opt_load5 p) s = validate_input p >>= λ l. returns (record s { load5 = l })
  switch_option (opt_load15 p) s = validate_input p >>= λ l. returns (record s { load15 = l })
  switch_option opt_percpu s = returns (record s { normalize = true })
  switch_option opt_help s = exits state_ok
  switch_option opt_version s = exits state_ok
  switch_option opt_unrecognized s = exits state_unknown

  unfoldable pub process_options : List Opt → Outcome Settings
  unfolding getopt_loop switch_option
  process_options opts = getopt_loop switch_option opts defaults

  -- One round of the loop; `numcpus` is what `get_processor_number_online` returns.
  unfoldable pub normalize_loadavg : ℕ → d.D → d.D
  normalize_loadavg numcpus loadavg =
      if ltb 1 numcpus then d.div loadavg (d.of_ℤ (pos numcpus)) else loadavg

  -- The three averages, as `getloadavg` reports them.
  pub record Loadavg : Type 0 where
    pub avg1 : d.D
    pub avg5 : d.D
    pub avg15 : d.D

  abbrev pub average : Limits → d.D → Average d
  average l loadavg = record {
    loadavg = loadavg;
    wload = l.wload;
    cload = l.cload;
    required = l.required;
  }

  unfoldable pub averages : Settings → ℕ → Loadavg → List (Average d)
  unfolding normalize_loadavg
  averages s numcpus l =
      let scaled = λ (v : d.D). if s.normalize then normalize_loadavg numcpus v else v in
      average s.load1 (scaled l.avg1)
      ∷ average s.load5 (scaled l.avg5)
      ∷ average s.load15 (scaled l.avg15)
      ∷ []

  -- From the test of sysfs on.
  behind_options : Bool → Option Loadavg → ℕ → Settings → Outcome (NagStatus × List (Average d))
  unfolding averages loadavg_status
  behind_options mounted none numcpus s = exits state_unknown
  behind_options mounted (some l) numcpus s =
      if mounted
      then returns (loadavg_status d (averages s numcpus l), averages s numcpus l)
      else exits state_unknown

  unfoldable pub main :
      List Opt → Bool → Option Loadavg → ℕ → Outcome (NagStatus × List (Average d))
  unfolding process_options behind_options
  main opts mounted loadavg numcpus =
      process_options opts >>= λ s. behind_options mounted loadavg numcpus s
