-- ===== src/Intr/Rate.antt =====
-- What plugins/check_intr.c measures: the rate of all interrupts and the arrays of the processors
-- stem from the same two readings.
use nagios_plugins_linux.Base.{
  ℕ, zero, suc, ◌+◌, ◌-◌, ◌/◌, ◌≤◌, ◌≡◌, refl, ap, ◌∙◌, Bool, false, not, some, none, sub64, arith,
  if◌then◌else◌, leb,
}
use nagios_plugins_linux.Messages.{Outcome, returns}
use nagios_plugins_linux.Interrupts.{Result}
use nagios_plugins_linux.Program.{Slots, slot, put}
use nagios_plugins_linux.Program.Rates.{rate, slot-put_here, slot-put_there}
use nagios_plugins_linux.Intr.{Vintr, store, intr_loop, get_intrdelta}

-- The arrays of two readings in a row.
abbrev pub arrays : (ℕ → Result) → ℕ → Vintr
arrays per_cpu i = record { vintr0 = some (per_cpu i); vintr1 = some (per_cpu (suc i)) }

store-last :
    (j : ℕ) (r : Result) (v : Vintr)
    → suc (suc j) ≤ 100
    → store (suc (suc j)) (suc j) r v ≡ record v { vintr1 = some r }
store-last j r v h = ground arith

store-last_but_one :
    (j : ℕ) (r : Result) (v : Vintr)
    → suc (suc (suc j)) ≤ 100
    → store (suc (suc (suc j))) (suc j) r v ≡ record v { vintr0 = some r }
store-last_but_one j r v h = ground arith

module _ (get : ℕ → Outcome ℕ) (per_cpu : ℕ → Result) (value : ℕ → ℕ) (delay : ℕ) where
  intr_loop-rate :
      (left j count : ℕ) (tog : Bool) (nintr : Slots) (dnintr : ℕ) (v : Vintr)
      → ((i : ℕ) → get i ≡ returns (value i))
      → slot tog nintr ≡ value j
      → count ≡ j + suc (suc left)
      → count ≤ 100
      → (left ≡ 0 → v.vintr0 ≡ some (per_cpu j))
      → intr_loop get per_cpu count delay (suc left) (suc j) tog nintr dnintr v
        ≡ returns (rate value delay (j + left), arrays per_cpu (j + left))
  unfolding intr_loop
  intr_loop-rate zero j count tog nintr dnintr v h e n b first =
      let k : count ≡ suc (suc j) = omega arith in
      let same : j + 0 ≡ j = omega arith in
      rw
        (
          same,
          k,
          h (suc j),
          slot-put_here tog (value (suc j)) nintr,
          slot-put_there tog (value (suc j)) nintr,
          e,
          store-last j (per_cpu (suc j)) v (omega arith),
          first refl,
        )
        refl
  intr_loop-rate (suc left) j count tog nintr dnintr v h e n b first =
      let filled = put (not tog) (value (suc j)) nintr in
      let next : ℕ = sub64 (slot (not tog) filled) (slot tog filled) / delay in
      let stored : left ≡ 0
          → (store count (suc j) (per_cpu (suc j)) v).vintr0 ≡ some (per_cpu (suc j)) =
        λ z.
          let k : count ≡ suc (suc (suc j)) = omega arith in
          rw (k, store-last_but_one j (per_cpu (suc j)) v (omega arith)) refl in
      rw (h (suc j)) (
        intr_loop-rate left (suc j) count (not tog) filled next
          (store count (suc j) (per_cpu (suc j)) v) h (slot-put_here tog (value (suc j)) nintr)
          (omega arith) b stored
        ∙ ap (λ n. returns (rate value delay n, arrays per_cpu n)) (omega arith))

  -- With two to 100 readings of /proc/stat that all find the counter, get_intrdelta returns what it
  -- grew by in a second between the last two, modulo 2^64, and the arrays of the processors at the
  -- same two readings.
  pub get_intrdelta-rate :
      (more : ℕ)
      → suc (suc more) ≤ 100
      → ((i : ℕ) → get i ≡ returns (value i))
      → get_intrdelta get per_cpu (suc (suc more)) delay
        ≡ returns (rate value delay more, arrays per_cpu more)
  unfolding get_intrdelta
  get_intrdelta-rate more b h =
      let one : suc (suc more) - 1 ≡ suc more = omega arith in
      let start : Vintr = record {
        vintr0 = if leb (suc (suc more)) 2 then some (per_cpu 0) else none;
        vintr1 = none;
      } in
      let two : more ≡ 0 → start.vintr0 ≡ some (per_cpu 0) = λ z. ground arith in
      rw (h 0, one)
        (intr_loop-rate more 0 (suc (suc more)) false (record { first = value 0; second = 0 })
            (value 0) start h refl (omega arith) b two
          ∙ ap (λ n. returns (rate value delay n, arrays per_cpu n)) (omega arith))
