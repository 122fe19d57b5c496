-- ===== src/Netinfo/Rates.antt =====
-- What lib/netinfo.c returns for two snapshots of the same interfaces.
use native.Mathlib.Nat.{zero-add, div-add-mod, mod-lt}
use nagios_plugins_linux.Base.{
  ℕ, suc, ◌+◌, ◌-◌, ◌*◌, ◌/◌, ◌^◌, ◌<◌, ◌≤◌, ◌≡◌, refl, Bool, true, false, ◌&&◌, ◌||◌, not, [], ◌∷◌,
  List, Option, none, some, streq_iff, ◌==◌, if◌then◌else◌, arith, length, sub32, u32, bit_of,
  Bool-cases, inl, inr,
}
use nagios_plugins_linux.Messages.{state_critical, returns, exits, plugin_error}
use nagios_plugins_linux.Netinfo.{
  Ifstats, Interface, Run, ends, check_link, if_flags_up, if_flags_running, div, stats_rate,
  rate_of, prepend, end_of_round, rates, netinfo,
}

-- Statistics that are there in the first snapshot are there in the second.
abbrev KeepsStats : Option Ifstats → Option Ifstats → Type 0
KeepsStats none s2 = Unit
KeepsStats (some s) none = ⊥
KeepsStats (some s) (some s2) = Unit

-- The interfaces of both snapshots are the same, in the same order.
abbrev pub Matches : List Interface → List Interface → Type 0
Matches [] [] = Unit
Matches [] (y ∷ ys) = ⊥
Matches (x ∷ xs) [] = ⊥
Matches (x ∷ xs) (y ∷ ys) = ((x.ifname ≡ y.ifname) × KeepsStats x.stats y.stats) × Matches xs ys

abbrev grown : ℕ → Option Ifstats → Option Ifstats → Option Ifstats
grown seconds (some s) (some s2) = some (stats_rate seconds s s2)
grown seconds _ s2 = none

-- Each interface with what its counters grew by per second.
abbrev per_second : ℕ → List Interface → List Interface → List Interface
per_second seconds [] ys = []
per_second seconds (x ∷ xs) [] = x ∷ xs
per_second seconds (x ∷ xs) (y ∷ ys) =
    record x { stats = grown seconds x.stats y.stats } ∷ per_second seconds xs ys

-- The ten counters.
pub data Counter : Type 0 where
  tx_packets rx_packets tx_bytes rx_bytes tx_errors rx_errors : Counter
  tx_dropped rx_dropped collisions multicast : Counter

abbrev pub count : Counter → Ifstats → ℕ
count tx_packets s = s.tx_packets
count rx_packets s = s.rx_packets
count tx_bytes s = s.tx_bytes
count rx_bytes s = s.rx_bytes
count tx_errors s = s.tx_errors
count rx_errors s = s.rx_errors
count tx_dropped s = s.tx_dropped
count rx_dropped s = s.rx_dropped
count collisions s = s.collisions
count multicast s = s.multicast

-- A number is what a counter grew by, modulo 2 ^ 32, in a second, rounded up.
abbrev pub IsRate : ℕ → ℕ → ℕ → ℕ → Type 0
IsRate seconds old new rate =
    (sub32 new old ≤ rate * seconds) × (rate * seconds < sub32 new old + seconds)

-- Each of the counters is a rate; statistics that were not there stay away.
abbrev pub AreRates : ℕ → Option Ifstats → Option Ifstats → Option Ifstats → Type 0
AreRates seconds (some s) (some s2) (some rates) =
    (c : Counter) → IsRate seconds (count c s) (count c s2) (count c rates)
AreRates seconds none _ none = Unit
AreRates seconds _ _ _ = ⊥

-- The interfaces of the first list, with the rates between both in place of their counters.
abbrev pub ArePerSecond : ℕ → List Interface → List Interface → List Interface → Type 0
ArePerSecond seconds [] [] [] = Unit
ArePerSecond seconds (x ∷ xs) (y ∷ ys) (z ∷ zs) =
    (z.ifname ≡ x.ifname)
    × (z.flags ≡ x.flags)
    × (z.speed ≡ x.speed)
    × (z.duplex ≡ x.duplex)
    × AreRates seconds x.stats y.stats z.stats
    × ArePerSecond seconds xs ys zs
ArePerSecond seconds _ _ _ = ⊥

abbrev pub is_down : Interface → Bool
is_down ifl = not (if_flags_up ifl.flags && if_flags_running ifl.flags)

abbrev pub some_down : List Interface → Bool
some_down [] = false
some_down (x ∷ xs) = is_down x || some_down xs

rate_of-grown :
    (seconds : ℕ) (s s2 : Option Ifstats)
    → KeepsStats s s2
    → rate_of seconds s s2 ≡ some (grown seconds s s2)
unfolding rate_of
rate_of-grown seconds none s2 k = refl
rate_of-grown seconds (some s) none k = absurd k
rate_of-grown seconds (some s) (some s2) k = refl

abbrev result : Bool → ℕ → List Interface → List Interface → ℕ → Run
result opt seconds xs ys n =
    if opt && some_down xs
    then ends (exits state_critical)
    else ends (returns (per_second seconds xs ys, n + length xs))

round :
    (opt : Bool) (seconds : ℕ) (x y : Interface) (xs ys : List Interface) (n : ℕ)
    → end_of_round opt x (some (grown seconds x.stats y.stats)) (result opt seconds xs ys (n + 1))
      ≡ result opt seconds (x ∷ xs) (y ∷ ys) n
unfolding end_of_round prepend plugin_error
round opt seconds x y xs ys n =
    let e : (n + 1) + length xs ≡ n + suc (length xs) = omega arith in
    elim opt
      as (λ o.
        end_of_round o x (some (grown seconds x.stats y.stats)) (result o seconds xs ys (n + 1))
        ≡ result o seconds (x ∷ xs) (y ∷ ys) n) [
          | true ↦ elim (Bool-cases (is_down x)) [
            | inl d ↦ rw d refl
            | inr d ↦ elim (Bool-cases (some_down xs)) [
              | inl s ↦ rw (d, s) refl
              | inr s ↦ rw (d, s, e) refl
            ]
          ]
          | false ↦ rw e refl
        ]

rates-result :
    (opt : Bool) (seconds : ℕ) (xs ys : List Interface) (n : ℕ)
    → Matches xs ys
    → n + length xs < 2 ^ 32
    → rates opt seconds xs ys n ≡ result opt seconds xs ys n
unfolding rates
rates-result opt seconds [] [] n m b = ground arith
rates-result opt seconds [] (y ∷ ys) n m b = absurd m
rates-result opt seconds (x ∷ xs) [] n m b = absurd m
rates-result opt seconds (x ∷ xs) (y ∷ ys) n ((e, k), m) b =
    let small : u32 (n + 1) ≡ n + 1 = omega arith in
    rw
      (
        small,
        (streq_iff x.ifname y.ifname).1 e,
        rate_of-grown seconds x.stats y.stats k,
        rates-result opt seconds xs ys (n + 1) m (omega arith),
      )
      (round opt seconds x y xs ys n)

ceil_lem :
    (n seconds : ℕ)
    → 0 < seconds
    → (n ≤ (n + seconds - 1) / seconds * seconds)
      × ((n + seconds - 1) / seconds * seconds < n + seconds)
ceil_lem n seconds s =
    let e = div-add-mod (n + seconds - 1) seconds in
    let r = mod-lt (n + seconds - 1) s in (omega (arith, e, r), omega (arith, e, r))

count-stats_rate :
    (c : Counter) (seconds : ℕ) (s s2 : Ifstats)
    → count c (stats_rate seconds s s2) ≡ div seconds (count c s) (count c s2)
unfolding stats_rate
count-stats_rate tx_packets seconds s s2 = refl
count-stats_rate rx_packets seconds s s2 = refl
count-stats_rate tx_bytes seconds s s2 = refl
count-stats_rate rx_bytes seconds s s2 = refl
count-stats_rate tx_errors seconds s s2 = refl
count-stats_rate rx_errors seconds s s2 = refl
count-stats_rate tx_dropped seconds s s2 = refl
count-stats_rate rx_dropped seconds s s2 = refl
count-stats_rate collisions seconds s s2 = refl
count-stats_rate multicast seconds s s2 = refl

grown-AreRates :
    (seconds : ℕ) (s s2 : Option Ifstats)
    → 0 < seconds
    → KeepsStats s s2
    → AreRates seconds s s2 (grown seconds s s2)
grown-AreRates seconds none s2 h k = tt
grown-AreRates seconds (some s) none h k = absurd k
grown-AreRates seconds (some s) (some s2) h k =
    λ c. rw (count-stats_rate c seconds s s2) (ceil_lem (sub32 (count c s2) (count c s)) seconds h)

per_second-ArePerSecond :
    (seconds : ℕ) (xs ys : List Interface)
    → 0 < seconds
    → Matches xs ys
    → ArePerSecond seconds xs ys (per_second seconds xs ys)
per_second-ArePerSecond seconds [] [] h m = tt
per_second-ArePerSecond seconds [] (y ∷ ys) h m = absurd m
per_second-ArePerSecond seconds (x ∷ xs) [] h m = absurd m
per_second-ArePerSecond seconds (x ∷ xs) (y ∷ ys) h m = (
  refl,
  refl,
  refl,
  refl,
  grown-AreRates seconds x.stats y.stats h m.0.1,
  per_second-ArePerSecond seconds xs ys h m.1,
)

-- For two snapshots of the same interfaces, fewer than 2 ^ 32, taken some seconds apart, `netinfo`
-- counts all interfaces and returns each with the rates of its ten counters: what the counter grew
-- by, modulo 2 ^ 32, in a second, rounded up; with `--check-link`, if one is not up and running, it
-- ends the process with CRITICAL.
pub netinfo-per_second :
    (options seconds ninterfaces : ℕ) (xs ys : List Interface)
    → 0 < seconds
    → Matches xs ys
    → length xs < 2 ^ 32
    → (zs : List Interface) × ArePerSecond seconds xs ys zs
      × (netinfo true options xs ys seconds ninterfaces ≡ (
          if bit_of options check_link && some_down xs
          then ends (exits state_critical)
          else ends (returns (zs, length xs))))
unfolding netinfo
netinfo-per_second options seconds ninterfaces xs ys s m b =
    let positive : (seconds == 0) ≡ false = ground arith in
    (
      per_second seconds xs ys,
      per_second-ArePerSecond seconds xs ys s m,
      rw
          (
            positive,
            rates-result (bit_of options check_link) seconds xs ys 0 m (omega arith),
            zero-add,
          )
          refl,
    )

-- A rate is what the counter grew by, modulo 2 ^ 32, per second and rounded up.
pub div_lem :
    (seconds a grown : ℕ)
    → 0 < seconds
    → a < 2 ^ 32
    → grown < 2 ^ 32
    → (grown ≤ div seconds a (u32 (a + grown)) * seconds)
      × (div seconds a (u32 (a + grown)) * seconds < grown + seconds)
div_lem seconds a grown s ha hg =
    let e : sub32 (u32 (a + grown)) a ≡ grown = omega arith in rw e (ceil_lem grown seconds s)
