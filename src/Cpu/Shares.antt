-- ===== src/Cpu/Shares.antt =====
-- The shares of plugins/check_cpu.c add up to their ratio.
use nagios_plugins_linux.Base.{
  ℕ, ◌+◌, ◌-◌, ◌^◌, ◌<◌, ◌≤◌, ◌≡◌, ◌∙◌, ap, ◌==◌, arith, add64, sub64, Bool-cases, inl, inr,
}
use nagios_plugins_linux.Base.Int.{ℤ, pos}
use nagios_plugins_linux.Cpustats.{CpuTime}
use nagios_plugins_linux.Cpu.{Share, sum_of, with_ratio, next_share, idle_step}
use nagios_plugins_linux.Cpu.Idle.{owing, idle_step-owing}

abbrev pub user_of : CpuTime → ℕ
user_of t = t.user + t.nice

abbrev pub system_of : CpuTime → ℕ
system_of t = t.system + t.irq + t.softirq

abbrev pub total_of : CpuTime → ℕ
total_of t = user_of t + system_of t + t.idle + t.iowait + t.steal

-- No counter runs backwards, and all together they stay below 2 ^ 63 and grow by less than 2 ^ 31.
pub record Grows (old new : CpuTime) : Type 0 where
  pub user : old.user ≤ new.user
  pub nice : old.nice ≤ new.nice
  pub system : old.system ≤ new.system
  pub irq : old.irq ≤ new.irq
  pub softirq : old.softirq ≤ new.softirq
  pub idle : old.idle ≤ new.idle
  pub iowait : old.iowait ≤ new.iowait
  pub steal : old.steal ≤ new.steal
  pub bounded : total_of new < 2 ^ 63
  pub small : total_of new < total_of old + 2 ^ 31

-- The shares add up to their ratio, which is not 0.
abbrev pub IsWhole : Share → Type 0
IsWhole s = (0 < s.ratio) × (s.duser + s.dsystem + s.didle + s.diowait + s.dsteal ≡ s.ratio)

sum_of_plain :
    (a b c e f : ℕ)
    → a + b + c + e + f < 2 ^ 64
    → add64 (add64 (add64 (add64 a b) c) e) f ≡ a + b + c + e + f
sum_of_plain a b c e f h = omega arith

with_ratio-IsWhole :
    (s : Share)
    → s.duser + s.dsystem + s.didle + s.diowait + s.dsteal < 2 ^ 64
    → IsWhole (with_ratio s)
unfolding with_ratio
with_ratio-IsWhole s b =
    let e = sum_of_plain s.duser s.dsystem s.didle s.diowait s.dsteal b in
    elim (Bool-cases (sum_of s == 0)) [
      | inl z ↦ rw z (ground (arith, e))
      | inr z ↦ rw z (ground (arith, e))
    ]

-- The shares of `with_ratio` other than the idle one are those it is given.
abbrev pub SharesGrown : CpuTime → CpuTime → Share → Type 0
SharesGrown old new s =
    (s.duser + user_of old ≡ user_of new)
    × (s.dsystem + system_of old ≡ system_of new)
    × (s.diowait + old.iowait ≡ new.iowait)
    × (s.dsteal + old.steal ≡ new.steal)

with_ratio-kept :
    (s : Share)
    → ((with_ratio s).duser ≡ s.duser)
      × ((with_ratio s).dsystem ≡ s.dsystem)
      × ((with_ratio s).diowait ≡ s.diowait)
      × ((with_ratio s).dsteal ≡ s.dsteal)
unfolding with_ratio
with_ratio-kept s = ground arith

two_grown :
    (a a' b b' : ℕ)
    → a ≤ a'
    → b ≤ b'
    → a' + b' < 2 ^ 64
    → sub64 (add64 (sub64 a' a) b') b + (a + b) ≡ a' + b'
two_grown a a' b b' h k l = omega arith

three_grown :
    (a a' b b' c c' : ℕ)
    → a ≤ a'
    → b ≤ b'
    → c ≤ c'
    → a' + b' + c' < 2 ^ 64
    → sub64 (add64 (sub64 (add64 (sub64 a' a) b') b) c') c + (a + b + c) ≡ a' + b' + c'
three_grown a a' b b' c c' h k l m = omega arith

one_grown : (a a' : ℕ) → a ≤ a' → a' < 2 ^ 64 → sub64 a' a + a ≡ a'
one_grown a a' h k = omega arith

-- What `next_share` computes before the ratio, with the idle ticks apart.
abbrev raw_share : CpuTime → CpuTime → ℕ × ℤ → ℕ → Share
raw_share old new idle ratio = record {
  duser = sub64 (add64 (sub64 new.user old.user) new.nice) old.nice;
  dsystem =
      sub64 (add64 (sub64 (add64 (sub64 new.system old.system) new.irq) old.irq) new.softirq)
        old.softirq;
  didle = idle.0;
  diowait = sub64 new.iowait old.iowait;
  dsteal = sub64 new.steal old.steal;
  debt = idle.1;
  ratio = ratio;
}

small_sum :
    (a a0 a1 b b0 b1 c c0 c1 e e0 e1 f f0 f1 : ℕ)
    → a + a0 ≡ a1
    → b + b0 ≡ b1
    → c + c0 ≡ c1
    → e + e0 ≡ e1
    → f + f0 ≡ f1
    → a1 + b1 + c1 + e1 + f1 < 2 ^ 63
    → a + b + c + e + f < 2 ^ 64
small_sum a a0 a1 b b0 b1 c c0 c1 e e0 e1 f f0 f1 ha hb hc he hf h = omega arith

forward :
    (old new : ℕ)
    → old ≤ new
    → ◌≡◌ {A = ℕ × ℤ} (new - (old + 0), owing (old + 0 - new)) (new - (old + 0), pos 0)
forward old new h = ground arith

raw_share-IsWhole :
    (old new : CpuTime) (idle : ℕ) (debt : ℤ) (ratio : ℕ)
    → Grows old new
    → idle + old.idle ≡ new.idle
    → SharesGrown old new (with_ratio (raw_share old new (idle, debt) ratio))
      × IsWhole (with_ratio (raw_share old new (idle, debt) ratio))
raw_share-IsWhole old new idle debt ratio g i =
    let k = with_ratio-kept (raw_share old new (idle, debt) ratio) in
    let b = g.bounded in
    let u = two_grown old.user new.user old.nice new.nice g.user g.nice (omega (arith, b)) in
    let y =
      three_grown old.system new.system old.irq new.irq old.softirq new.softirq g.system g.irq
        g.softirq (omega (arith, b)) in
    let w = one_grown old.iowait new.iowait g.iowait (omega (arith, b)) in
    let t = one_grown old.steal new.steal g.steal (omega (arith, b)) in
    (
      (rw k.0 u, rw k.1 y, rw k.2 w, rw k.3 t),
      with_ratio-IsWhole (raw_share old new (idle, debt) ratio)
          (small_sum _ _ _ _ _ _ _ _ _ _ _ _ _ _ _ u y i w t b),
    )

-- Between two readings in which no counter runs backwards and the sum of all counters stays below
-- 2 ^ 63 and grows by less than 2 ^ 31, with no idle ticks owed, the shares of the user, the system,
-- the waiting and the stolen time are what the counters grew by, all five shares add up to the
-- ratio that they are divided by, and that is not 0.
pub next_share-IsWhole :
    (old new : CpuTime) (s : Share)
    → s.debt ≡ pos 0
    → Grows old new
    → SharesGrown old new (next_share old new s) × IsWhole (next_share old new s)
unfolding next_share
next_share-IsWhole old new s e g =
    let b = g.bounded in
    let m = g.small in
    let i : idle_step s.debt (sub64 new.idle old.idle) ≡ (new.idle - (old.idle + 0), pos 0) =
      ap (λ (z : ℤ). idle_step z (sub64 new.idle old.idle)) e
      ∙ (idle_step-owing 0 old.idle new.idle (omega (arith, b, g.idle)) (omega (arith, b))
            (omega (arith, m, g.user, g.nice, g.system, g.irq, g.softirq, g.iowait, g.steal))
            (omega (arith, g.idle))
          ∙ forward old.idle new.idle g.idle) in
    rw i (
      raw_share-IsWhole old new (new.idle - (old.idle + 0)) (pos 0) s.ratio g
        (omega (arith, g.idle)))
