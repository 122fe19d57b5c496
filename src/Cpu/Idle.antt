-- ===== src/Cpu/Idle.antt =====
-- The idle ticks that plugins/check_cpu.c counts while the kernel's counter may run backwards.
use native.Mathlib.Nat.{zero-add, add-zero}
use nagios_plugins_linux.Base.{
  ℕ, zero, suc, ◌+◌, ◌-◌, ◌^◌, ◌<◌, ◌≡◌, refl, [], ◌∷◌, List, leb, ◌∙◌, arith, sub64, if◌then◌else◌,
  false,
}
use nagios_plugins_linux.Base.Int.{ℤ, pos, sub_ℕ, ◌+ℤ◌, bits64, to_int}
use nagios_plugins_linux.Cpu.{is_zero, owed, idle_step}

-- A debt is never above 0: `k` ticks are owed.
abbrev pub owing : ℕ → ℤ
owing k = sub_ℕ 0 k

to_int-bits64 :
    (a b : ℕ) → a < b + 2 ^ 31 → b < a + 2 ^ 31 → to_int (bits64 (sub_ℕ a b)) ≡ sub_ℕ a b
unfolding to_int
to_int-bits64 a b ha hb = ground arith

sub64-bits64 : (a b : ℕ) → a < 2 ^ 64 → b < 2 ^ 64 → sub64 a b ≡ bits64 (sub_ℕ a b)
sub64-bits64 a b ha hb = ground arith

owed-sub_ℕ :
    (a b : ℕ)
    → a < b + 2 ^ 31
    → b < a + 2 ^ 31
    → owed (bits64 (sub_ℕ a b)) (pos 0) ≡ (a - b, owing (b - a))
unfolding owed
owed-sub_ℕ a b ha hb = rw (to_int-bits64 a b ha hb) (ground arith)

sub_ℕ-owing : (a b k : ℕ) → sub_ℕ a b +ℤ owing (suc k) ≡ sub_ℕ a (b + suc k)
unfolding ◌+ℤ◌
sub_ℕ-owing a b k = ground arith

idle_step-debt :
    (debt : ℤ) (grown : ℕ)
    → is_zero debt ≡ false
    → idle_step debt grown ≡ owed (bits64 (to_int grown +ℤ debt)) (pos 0)
unfolding idle_step
idle_step-debt debt grown z = rw z refl

owing-suc : (k : ℕ) → is_zero (owing (suc k)) ≡ false
unfolding is_zero
owing-suc k = ground arith

-- A round counts what the counter moved past the ticks that were owed, and owes what it is short.
pub idle_step-owing :
    (k old new : ℕ)
    → old < 2 ^ 64
    → new < 2 ^ 64
    → new < old + 2 ^ 31
    → old + k < new + 2 ^ 31
    → idle_step (owing k) (sub64 new old) ≡ (new - (old + k), owing (old + k - new))
unfolding idle_step is_zero
idle_step-owing zero old new ho hn hf hb =
    rw (add-zero old, sub64-bits64 new old hn ho) (owed-sub_ℕ new old hf (omega arith))
idle_step-owing (suc k) old new ho hn hf hb =
    idle_step-debt (owing (suc k)) (sub64 new old) (owing-suc k)
    ∙ rw (sub64-bits64 new old hn ho, to_int-bits64 new old hf (omega arith), sub_ℕ-owing new old k)
        (owed-sub_ℕ new (old + suc k) (omega arith) (omega arith))

-- The idle ticks of the rounds over the later values of a counter, and the ticks owed at the end.
abbrev pub idle_total : ℤ → ℕ → List ℕ → ℕ × ℤ
idle_total debt old [] = (0, debt)
idle_total debt old (new ∷ later) =
    let step = idle_step debt (sub64 new old) in
    let rest = idle_total step.1 new later in (step.0 + rest.0, rest.1)

abbrev higher : ℕ → ℕ → ℕ
higher a b = if leb a b then b else a

-- The highest value of a counter, from a first one on.
abbrev pub peak : ℕ → List ℕ → ℕ
peak highest [] = highest
peak highest (new ∷ later) = peak (higher highest new) later

-- Each value is in the reach of an `int` from the one before and from the highest so far.
abbrev pub Steady : ℕ → ℕ → List ℕ → Type 0
Steady highest old [] = Unit
Steady highest old (new ∷ later) =
    ((new < 2 ^ 64) × (new < old + 2 ^ 31) × (highest < new + 2 ^ 31))
    × Steady (higher highest new) new later

higher-owing : (h new : ℕ) → new + (h - new) ≡ higher h new
higher-owing h new = ground arith

rise : (new h rest p : ℕ) → rest + higher h new ≡ p → ((new - h) + rest) + h ≡ p
rise new h rest p e = ground arith

-- However the idle counter runs backwards and forwards within the reach of an `int`, the ticks
-- counted in all rounds, on top of the first value and the ticks owed there, make up the highest
-- value that the counter reached.
pub idle_total-peak :
    (k old : ℕ) (later : List ℕ)
    → old < 2 ^ 64
    → Steady (old + k) old later
    → (idle_total (owing k) old later).0 + (old + k) ≡ peak (old + k) later
idle_total-peak k old [] ho s = zero-add (old + k)
idle_total-peak k old (new ∷ later) ho s =
    let h = higher-owing (old + k) new in
    let e = idle_step-owing k old new ho s.0.0 s.0.1 s.0.2 in
    let ih = idle_total-peak (old + k - new) new later s.0.0 (rw h s.1) in
    rw e (rise new (old + k) _ _ (rw (← h) ih))
