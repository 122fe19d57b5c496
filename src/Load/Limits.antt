-- ===== src/Load/Limits.antt =====
-- The limits that plugins/check_load.c goes on with.
use nagios_plugins_linux.Base.{
  ◌≡◌, refl, true, false, [], ◌∷◌, List, Option, none, some, ◌==◌, ==_iff, Bool-cases, inl, inr,
}
use nagios_plugins_linux.Base.Double.{Double}
use nagios_plugins_linux.Messages.{plugin_error}
use nagios_plugins_linux.Program.{getopt_loop}
use nagios_plugins_linux.Program.Options.{Ensures, bind_Ensures}
use nagios_plugins_linux.Load.Averages.{
  Pair, Limits, Settings, unset, defaults, validate_input, Opt, opt_load1, opt_load5, opt_load15,
  opt_percpu, opt_help, opt_version, opt_unrecognized, switch_option, process_options,
}

module _ (d : Double) where
  -- The pairs that the last option of each kind gives, if there is one.
  pub record Given : Type 0 where
    pub given1 : Option (Pair d)
    pub given5 : Option (Pair d)
    pub given15 : Option (Pair d)

  abbrev pub nothing_given : Given
  nothing_given = record { given1 = none; given5 = none; given15 = none }

  abbrev with_option : Opt d → Given → Given
  with_option (opt_load1 p) g = record g { given1 = some p }
  with_option (opt_load5 p) g = record g { given5 = some p }
  with_option (opt_load15 p) g = record g { given15 = some p }
  with_option _ g = g

  abbrev pub last_given : List (Opt d) → Given → Given
  last_given [] g = g
  last_given (opt ∷ opts) g = last_given opts (with_option opt g)

  -- An average is asked for exactly if a pair is given: both numbers were read, the critical limit is
  -- not below the warning limit, nor the same, and these are the limits.
  abbrev pub AreOf : Option (Pair d) → Limits d → Type 0
  AreOf none l = l ≡ unset d
  AreOf (some p) l =
      (l ≡ record { wload = p.first; cload = p.second; required = true })
      × (p.conversions ≡ 2)
      × (d.le p.second p.first ≡ false)

  abbrev pub AreOrdered : Given → Settings d → Type 0
  AreOrdered g s = AreOf g.given1 s.load1 × AreOf g.given5 s.load5 × AreOf g.given15 s.load15

  validate_input-AreOf : (p : Pair d) → Ensures (AreOf (some p)) (validate_input d p)
  unfolding validate_input plugin_error
  validate_input-AreOf p = elim (Bool-cases (p.conversions == 2)) [
    | inl e ↦ elim (Bool-cases (d.le p.second p.first)) [
      | inl o ↦ rw (e, o) tt
      | inr o ↦ rw (e, o) (refl, (==_iff _ _).0 e, o)
    ]
    | inr e ↦ rw e tt
  ]

  switch_option-AreOrdered :
      (opt : Opt d) (g : Given) (s : Settings d)
      → AreOrdered g s
      → Ensures (AreOrdered (with_option opt g)) (switch_option d opt s)
  unfolding switch_option
  switch_option-AreOrdered (opt_load1 p) g s (a, b, c) =
      bind_Ensures (AreOf (some p)) _ (validate_input d p) _ (validate_input-AreOf p)
        (λ l h. (h, b, c))
  switch_option-AreOrdered (opt_load5 p) g s (a, b, c) =
      bind_Ensures (AreOf (some p)) _ (validate_input d p) _ (validate_input-AreOf p)
        (λ l h. (a, h, c))
  switch_option-AreOrdered (opt_load15 p) g s (a, b, c) =
      bind_Ensures (AreOf (some p)) _ (validate_input d p) _ (validate_input-AreOf p)
        (λ l h. (a, b, h))
  switch_option-AreOrdered opt_percpu g s h = h
  switch_option-AreOrdered opt_help g s h = tt
  switch_option-AreOrdered opt_version g s h = tt
  switch_option-AreOrdered opt_unrecognized g s h = tt

  getopt_loop-AreOrdered :
      (opts : List (Opt d)) (g : Given) (s : Settings d)
      → AreOrdered g s
      → Ensures (AreOrdered (last_given opts g)) (getopt_loop (switch_option d) opts s)
  unfolding getopt_loop
  getopt_loop-AreOrdered [] g s h = h
  getopt_loop-AreOrdered (opt ∷ opts) g s h =
      bind_Ensures (AreOrdered (with_option opt g)) _ (switch_option d opt s) _
        (switch_option-AreOrdered opt g s h)
        (λ t k. getopt_loop-AreOrdered opts (with_option opt g) t k)

  -- Whatever the options, if the program goes on, the averages that are asked for are those for which
  -- a pair is given, and their limits are the numbers of the last one: both were read, and the
  -- warning limit does not reach the critical one.
  pub process_options-AreOrdered :
      (opts : List (Opt d))
      → Ensures (AreOrdered (last_given opts nothing_given)) (process_options d opts)
  unfolding process_options
  process_options-AreOrdered opts =
      getopt_loop-AreOrdered opts nothing_given (defaults d) (refl, refl, refl)
