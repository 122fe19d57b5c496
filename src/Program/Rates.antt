-- ===== src/Program/Rates.antt =====
-- Two readings in turn, in an array of two that a toggle switch indexes.
use nagios_plugins_linux.Base.{ℕ, suc, ◌/◌, ◌≡◌, refl, Bool, true, false, not, sub64}
use nagios_plugins_linux.Program.{Slots, slot, put}

-- The rate between two readings in a row.
abbrev pub rate : (ℕ → ℕ) → ℕ → ℕ → ℕ
rate value delay i = sub64 (value (suc i)) (value i) / delay

pub slot-put_here : (tog : Bool) (v : ℕ) (s : Slots) → slot (not tog) (put (not tog) v s) ≡ v
slot-put_here false v s = refl
slot-put_here true v s = refl

pub slot-put_there : (tog : Bool) (v : ℕ) (s : Slots) → slot tog (put (not tog) v s) ≡ slot tog s
slot-put_there false v s = refl
slot-put_there true v s = refl
