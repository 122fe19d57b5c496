-- ===== src/Base/Numeral.antt =====
-- `strtol` and `strtoul` of libc, base 10, on a C string: white space, a sign, digits, and the
-- clamping of a value that does not fit 64 bits.
use Prim.Native.Nat.{ℕ, zero, suc, ◌+◌, ◌-◌, ◌*◌, ◌^◌, ◌<◌}
use mathlib.Core.Path.{◌≡◌, ap, ap₂, ◌∙◌}
use mathlib.Core.Bool.{Bool, true, false}
use mathlib.Core.List.{[], ◌∷◌, ◌++◌}
use native.Mathlib.Omega.{arith}
use native.Mathlib.Nat.{pow-suc}
use nagios_plugins_linux.Base.Tests.{ltb, lt→ltb, leb, ◌==◌, if◌then◌else◌}
use nagios_plugins_linux.Base.Lists.{length, replicate}
use nagios_plugins_linux.Base.CString.{Bytes, is_space, is_digit}
use nagios_plugins_linux.Base.Words.{ulong_max, sub64}
use nagios_plugins_linux.Base.Int.{ℤ, pos, sub_ℕ}

-- `used` is `endptr - str`, which is 0 where there is no number; `failed` is ERANGE.
pub record Number (A : Type 0) : Type 0 where
  pub value : A
  pub used : ℕ
  pub failed : Bool

-- The digits at the head of a text, on top of the value and the count so far.
pub record Digits : Type 0 where
  pub value : ℕ
  pub count : ℕ

abbrev pub scan_digits : ℕ → ℕ → Bytes → Digits
scan_digits acc n [] = record { value = acc; count = n }
scan_digits acc n (c ∷ cs) =
    let more = scan_digits (acc * 10 + (c - b'0')) (n + 1) cs in
    if is_digit c then more else record { value = acc; count = n }

-- A sign, the magnitude, and how many bytes were taken.
pub record Signed : Type 0 where
  pub negative : Bool
  pub magnitude : ℕ
  pub used : ℕ

abbrev unsigned_part : Bool → ℕ → Bytes → Signed
unsigned_part neg before s =
    let d = scan_digits 0 0 s in
    record {
      negative = neg;
      magnitude = d.value;
      used = if d.count == 0 then 0 else before + d.count;
    }

abbrev pub scan_signed : ℕ → Bytes → Signed
scan_signed before [] = record { negative = false; magnitude = 0; used = 0 }
scan_signed before (c ∷ cs) =
    let after_space = scan_signed (before + 1) cs in
    if is_space c
    then after_space
    else if c == b'-'
    then unsigned_part true (before + 1) cs
    else if c == b'+'
    then unsigned_part false (before + 1) cs
    else unsigned_part false before (c ∷ cs)

unfoldable pub strtol : Bytes → Number ℤ
strtol s =
    let r = scan_signed 0 s in
    if r.negative
    then (if leb r.magnitude (2 ^ 63)
        then record { value = sub_ℕ 0 r.magnitude; used = r.used; failed = false }
        else record { value = sub_ℕ 0 (2 ^ 63); used = r.used; failed = true })
    else if ltb r.magnitude (2 ^ 63)
    then record { value = pos r.magnitude; used = r.used; failed = false }
    else record { value = pos (2 ^ 63 - 1); used = r.used; failed = true }

unfoldable pub strtoul : Bytes → Number ℕ
strtoul s =
    let r = scan_signed 0 s in
    if ltb ulong_max r.magnitude
    then record { value = ulong_max; used = r.used; failed = true }
    else record {
      value = if r.negative then sub64 0 r.magnitude else r.magnitude;
      used = r.used;
      failed = false;
    }

-- A text of decimal digits, and the number that it writes by its positions.
abbrev pub AllDigits : Bytes → Type 0
AllDigits [] = Unit
AllDigits (c ∷ cs) = (is_digit c ≡ true) × AllDigits cs

abbrev pub value_of : Bytes → ℕ
value_of [] = 0
value_of (c ∷ cs) = (c - b'0') * 10 ^ length cs + value_of cs

-- The text behind a number: it ends, or goes on with a byte that is no digit.
abbrev pub no_digit : Bytes → Bool
no_digit [] = true
no_digit (c ∷ cs) = if is_digit c then false else true

horner : (acc x L v : ℕ) → (acc * 10 + x) * 10 ^ L + v ≡ acc * 10 ^ suc L + (x * 10 ^ L + v)
horner acc x L v = rw pow-suc (omega arith)

pub scan_digits-value_of :
    (acc n : ℕ) (ds rest : Bytes)
    → AllDigits ds
    → no_digit rest ≡ true
    → scan_digits acc n (ds ++ rest)
      ≡ record { value = acc * 10 ^ length ds + value_of ds; count = n + length ds }
scan_digits-value_of acc n [] [] a h = ground arith
scan_digits-value_of acc n [] (c ∷ cs) a h = ground arith
scan_digits-value_of acc n (c ∷ cs) rest a h = rw a.0 (
    scan_digits-value_of (acc * 10 + (c - b'0')) (n + 1) cs rest a.1 h
    ∙ ap₂ (λ v k. record { value = v; count = k }) (horner acc (c - b'0') (length cs) (value_of cs))
        (omega arith))

digit_is_plain :
    (c : ℕ)
    → is_digit c ≡ true
    → (is_space c ≡ false) × ((c == b'-') ≡ false) × ((c == b'+') ≡ false)
digit_is_plain c h = ground arith

pub scan_signed-digits :
    (ds rest : Bytes)
    → AllDigits ds
    → 0 < length ds
    → no_digit rest ≡ true
    → scan_signed 0 (ds ++ rest)
      ≡ record { negative = false; magnitude = value_of ds; used = length ds }
scan_signed-digits [] rest a l h = absurd (omega arith)
scan_signed-digits (c ∷ cs) rest a l h =
    let (s, m, p) = digit_is_plain c a.0 in
    let e = scan_digits-value_of 0 0 (c ∷ cs) rest a h in rw (s, m, p) (rw e (ground arith))

-- Behind white space, which is counted with what stands before it.
pub scan_signed-spaces :
    (k before : ℕ) (ds rest : Bytes)
    → AllDigits ds
    → 0 < length ds
    → no_digit rest ≡ true
    → scan_signed before (replicate k b' ' ++ (ds ++ rest))
      ≡ record { negative = false; magnitude = value_of ds; used = before + k + length ds }
scan_signed-spaces zero before [] rest a l h = absurd (omega arith)
scan_signed-spaces zero before (c ∷ cs) rest a l h =
    let (s, m, p) = digit_is_plain c a.0 in
    let e = scan_digits-value_of 0 0 (c ∷ cs) rest a h in rw (s, m, p) (rw e (ground arith))
scan_signed-spaces (suc k) before ds rest a l h =
    scan_signed-spaces k (before + 1) ds rest a l h
    ∙ ap (λ u. record { negative = false; magnitude = value_of ds; used = u }) (omega arith)

-- `strtoul` skips white space in front of a text of digits.
pub strtoul-spaces :
    (k : ℕ) (ds rest : Bytes)
    → AllDigits ds
    → 0 < length ds
    → no_digit rest ≡ true
    → value_of ds < 2 ^ 64
    → strtoul (replicate k b' ' ++ (ds ++ rest))
      ≡ record { value = value_of ds; used = 0 + k + length ds; failed = false }
unfolding strtoul
strtoul-spaces k ds rest a l h b = rw (scan_signed-spaces k 0 ds rest a l h) (ground arith)

-- `strtol` reads a text of digits as the number that they write, if that is below 2 ^ 63.
pub strtol-digits :
    (ds rest : Bytes)
    → AllDigits ds
    → 0 < length ds
    → no_digit rest ≡ true
    → value_of ds < 2 ^ 63
    → strtol (ds ++ rest) ≡ record { value = pos (value_of ds); used = length ds; failed = false }
unfolding strtol
strtol-digits ds rest a l h b = rw (scan_signed-digits ds rest a l h, lt→ltb _ _ b)

-- `strtoul` reads a text of digits as the number that they write, if that is below 2 ^ 64.
pub strtoul-digits :
    (ds rest : Bytes)
    → AllDigits ds
    → 0 < length ds
    → no_digit rest ≡ true
    → value_of ds < 2 ^ 64
    → strtoul (ds ++ rest) ≡ record { value = value_of ds; used = length ds; failed = false }
unfolding strtoul
strtoul-digits ds rest a l h b = rw (scan_signed-digits ds rest a l h) (ground arith)
