-- ===== src/Xstrton/Suffix.antt =====
-- `agetollint` and `sizetollint` of lib/xstrton.c against tables of their units.
use nagios_plugins_linux.Base.{
  ℕ, ◌+◌, ◌-◌, ◌*◌, ◌^◌, ◌<◌, ◌≡◌, ◌⊎◌, inl, inr, refl, false, [], ◌∷◌, ◌++◌, some, arith, Bytes,
  length, ◌==◌, get_or, get_or-append, get_or-append_here,
}
use mathlib.Core.List.{append_assoc}
use nagios_plugins_linux.Base.Int.{ℤ, pos}
use nagios_plugins_linux.Base.Double.{Double}
use nagios_plugins_linux.Xstrton.{strtollint, convert, checked, agemultiplier, sizemultiplier}

pub data AgeUnit : Type 0 where
  second minute hour day week year : AgeUnit

abbrev pub age_letter : AgeUnit → ℕ
age_letter second = b's'
age_letter minute = b'm'
age_letter hour = b'h'
age_letter day = b'd'
age_letter week = b'w'
age_letter year = b'y'

abbrev pub seconds : AgeUnit → ℕ
seconds second = 1
seconds minute = 60
seconds hour = 60 * 60
seconds day = 24 * 60 * 60
seconds week = 7 * 24 * 60 * 60
seconds year = 365 * 24 * 60 * 60 + 6 * 60 * 60

pub data SizeUnit : Type 0 where
  byte kilo mega giga tera peta : SizeUnit

abbrev pub size_letter : SizeUnit → ℕ
size_letter byte = b'b'
size_letter kilo = b'k'
size_letter mega = b'm'
size_letter giga = b'g'
size_letter tera = b't'
size_letter peta = b'p'

abbrev pub bytes : SizeUnit → ℕ
bytes byte = 1
bytes kilo = 10 ^ 3
bytes mega = 10 ^ 6
bytes giga = 10 ^ 9
bytes tera = 10 ^ 12
bytes peta = 10 ^ 15

-- A letter in lower or in upper case.
abbrev pub IsLetter : ℕ → ℕ → Type 0
IsLetter c l = (c ≡ l) ⊎ (c ≡ l - 32)

module _ (d : Double) where
  open d use {D, of_ℤ, mul, to_i64, strtod}

  -- `strtod` takes exactly `t` in front of `rest`, and reads `v`.
  pub record Reads (t rest : Bytes) (v : D) : Type 0 where
    pub ne_nil : 0 < length t
    pub scan : strtod (t ++ rest) ≡ record { value = v; used = length t; failed = false }

  -- What stands at `*end` and at `*(end + 1)`.
  abbrev pub end_byte : Bytes → Bytes → ℕ
  end_byte rest beyond = get_or (rest ++ 0 ∷ beyond) 0 0

  abbrev pub next_byte : Bytes → Bytes → ℕ
  next_byte rest beyond = get_or (rest ++ 0 ∷ beyond) 1 0

  convert-Reads :
      (converter : D → ℕ → ℤ → ℤ × ℤ) (t rest beyond : Bytes) {v : D} (old : ℤ)
      → Reads t rest v
      → convert d converter (t ++ rest) beyond old
        ≡ checked d (converter v (end_byte rest beyond) old) (next_byte rest beyond)
  unfolding convert
  convert-Reads converter t rest beyond old r =
      let nonzero : (length t == 0) ≡ false = let h = r.ne_nil in ground arith in
      let here = get_or-append_here t (rest ++ 0 ∷ beyond) 0 in
      let behind = get_or-append t (rest ++ 0 ∷ beyond) 1 0 in
      rw (append_assoc, r.scan, nonzero, here, behind)

  pub strtollint-Reads :
      (converter : D → ℕ → ℤ → ℤ × ℤ) (t rest beyond : Bytes) {v : D} (old : ℤ)
      → Reads t rest v
      → strtollint d converter (some (t ++ rest)) beyond old
        ≡ checked d (converter v (end_byte rest beyond) old) (next_byte rest beyond)
  unfolding strtollint
  strtollint-Reads converter [] rest beyond old r = absurd (omega (arith, r.ne_nil))
  strtollint-Reads converter (c ∷ cs) rest beyond old r =
      convert-Reads converter (c ∷ cs) rest beyond old r

  unfoldable pub in_seconds : AgeUnit → D → D
  in_seconds second v = v
  in_seconds minute v = mul v (of_ℤ (pos (seconds minute)))
  in_seconds hour v = mul v (of_ℤ (pos (seconds hour)))
  in_seconds day v = mul v (of_ℤ (pos (seconds day)))
  in_seconds week v = mul v (of_ℤ (pos (seconds week)))
  in_seconds year v = mul v (of_ℤ (pos (seconds year)))

  pub agemultiplier-unit :
      (u : AgeUnit) (c : ℕ) (v : D) (old : ℤ)
      → IsLetter c (age_letter u)
      → agemultiplier d v c old ≡ (pos 0, to_i64 (in_seconds u v))
  unfolding agemultiplier in_seconds
  agemultiplier-unit second c v old (inl e) = rw e refl
  agemultiplier-unit second c v old (inr e) = rw e refl
  agemultiplier-unit u c v old (inl e) = rw e refl
  agemultiplier-unit u c v old (inr e) = rw e refl

  pub agemultiplier-bare : (v : D) (old : ℤ) → agemultiplier d v 0 old ≡ (pos 0, to_i64 v)
  unfolding agemultiplier
  agemultiplier-bare v old = refl

  unfoldable pub in_bytes : SizeUnit → D → D
  in_bytes byte v = v
  in_bytes kilo v = mul v (of_ℤ (pos (bytes kilo)))
  in_bytes mega v = mul v (of_ℤ (pos (bytes mega)))
  in_bytes giga v = mul v (of_ℤ (pos (bytes giga)))
  in_bytes tera v = mul v (of_ℤ (pos (bytes tera)))
  in_bytes peta v = mul v (of_ℤ (pos (bytes peta)))

  pub sizemultiplier-unit :
      (u : SizeUnit) (c : ℕ) (v : D) (old : ℤ)
      → IsLetter c (size_letter u)
      → sizemultiplier d v c old ≡ (pos 0, to_i64 (in_bytes u v))
  unfolding sizemultiplier in_bytes
  sizemultiplier-unit byte c v old (inl e) = rw e refl
  sizemultiplier-unit byte c v old (inr e) = rw e refl
  sizemultiplier-unit u c v old (inl e) = rw e refl
  sizemultiplier-unit u c v old (inr e) = rw e refl

  pub sizemultiplier-bare : (v : D) (old : ℤ) → sizemultiplier d v 0 old ≡ (pos 0, to_i64 v)
  unfolding sizemultiplier
  sizemultiplier-bare v old = refl
