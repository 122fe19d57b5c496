-- ===== src/Messages/Worst.antt =====
-- The loops of the programs that keep the worst status: `if (currstatus > status) status =
-- currstatus;`, with the numbers of `nagstatus` in include/common.h.
use nagios_plugins_linux.Base.{
  ℕ, ◌≡◌, refl, ◌∙◌, Bool, true, false, ◌||◌, [], ◌∷◌, List, ltb, if◌then◌else◌, arith,
}
use nagios_plugins_linux.Messages.{
  NagStatus, state_ok, state_warning, state_critical, state_unknown, state_dependent,
}

abbrev pub to_ℕ : NagStatus → ℕ
to_ℕ state_ok = 0
to_ℕ state_warning = 1
to_ℕ state_critical = 2
to_ℕ state_unknown = 3
to_ℕ state_dependent = 4

-- One round of the loop.
unfoldable pub worse : NagStatus → NagStatus → NagStatus
worse currstatus status = if ltb (to_ℕ status) (to_ℕ currstatus) then currstatus else status

-- The status of a value by two tests, the first of which decides that it is critical.
abbrev pub ladder : Bool → Bool → NagStatus
ladder c w = if c then state_critical else if w then state_warning else state_ok

ladder-worse : (c w cs ws : Bool) → worse (ladder cs ws) (ladder c w) ≡ ladder (c || cs) (w || ws)
unfolding worse
ladder-worse true w true ws = refl
ladder-worse true w false true = refl
ladder-worse true w false false = refl
ladder-worse false true true ws = refl
ladder-worse false true false true = refl
ladder-worse false true false false = refl
ladder-worse false false true ws = refl
ladder-worse false false false true = refl
ladder-worse false false false false = refl

or_assoc : (a b c : Bool) → ((a || b) || c) ≡ (a || (b || c))
or_assoc a b c = ground arith

or_false : (a : Bool) → (a || false) ≡ a
or_false a = ground arith

module _ {ℓ} {A : Type ℓ} where
  abbrev pub any : (A → Bool) → List A → Bool
  any test [] = false
  any test (a ∷ l) = test a || any test l

  -- The loop over the elements of a list.
  unfoldable pub worst_by : (A → NagStatus) → List A → NagStatus → NagStatus
  unfolding worse
  worst_by f [] status = status
  worst_by f (a ∷ l) status = worst_by f l (worse (f a) status)

  worst_by-from :
      (f : A → NagStatus) (critical warning : A → Bool)
      → ((a : A) → f a ≡ ladder (critical a) (warning a))
      → (l : List A) (c w : Bool)
      → worst_by f l (ladder c w) ≡ ladder (c || any critical l) (w || any warning l)
  unfolding worst_by
  worst_by-from f critical warning e [] c w = rw (or_false c, or_false w) refl
  worst_by-from f critical warning e (a ∷ l) c w =
      rw (e a, ladder-worse c w (critical a) (warning a))
        (worst_by-from f critical warning e l (c || critical a) (w || warning a)
          ∙ rw (or_assoc c (critical a) (any critical l), or_assoc w (warning a) (any warning l))
              refl)

  -- From OK on, the loop ends in the status of the worst element.
  pub worst_by-ladder :
      (f : A → NagStatus) (critical warning : A → Bool)
      → ((a : A) → f a ≡ ladder (critical a) (warning a))
      → (l : List A) → worst_by f l state_ok ≡ ladder (any critical l) (any warning l)
  worst_by-ladder f critical warning e l = worst_by-from f critical warning e l false false
