-- ===== src/Xstrton/Units.antt =====
-- What `agetollint` and `sizetollint` of lib/xstrton.c make of a number with a suffix and of one
-- with none.
use nagios_plugins_linux.Base.{
  ℕ, Bool, Bool-cases, inl, inr, if◌then◌else◌, ==_iff, true, not, ◌&&◌, ◌==◌, ◌≡◌, ◌≢◌, refl, [],
  ◌∷◌, ◌++◌, some, arith, Bytes, get_or,
}
use mathlib.Core.List.{append-nil}
use nagios_plugins_linux.Base.Int.{ℤ, pos, negsuc}
use nagios_plugins_linux.Base.Double.{Double}
use nagios_plugins_linux.Xstrton.{
  silent, trailing_character, Converted, agetollint, sizetollint, strtollint, agemultiplier,
  sizemultiplier, checked,
}
use nagios_plugins_linux.Xstrton.Suffix.{
  AgeUnit, age_letter, SizeUnit, size_letter, IsLetter, Reads, strtollint-Reads, in_seconds,
  in_bytes, agemultiplier-unit, sizemultiplier-unit, sizemultiplier-bare,
}

-- A C string holds no NUL.
abbrev pub no_nul : Bytes → Bool
no_nul [] = true
no_nul (c ∷ cs) = not (c == 0) && no_nul cs

module _ (d : Double) where
  open d use {D, to_i64}

  -- What a successful conversion leaves, and one that fails on the byte behind the suffix.
  abbrev pub success : D → Converted
  success x = record { code = pos 0; result = to_i64 x; errmesg = silent }

  abbrev pub refused : D → Converted
  refused x = record { code = negsuc 0; result = to_i64 x; errmesg = trailing_character }

  -- What a text comes to, by what stands behind the letter of its unit.
  abbrev pub by_rest : Bytes → D → Converted
  by_rest [] x = success x
  by_rest (c ∷ rest) x = refused x

  -- The end of `strtollint` where the converter took the suffix.
  checked-zero : (x : D) → checked d (pos 0, to_i64 x) 0 ≡ success x
  unfolding checked
  checked-zero x = refl

  checked-ne : (x : D) (c : ℕ) → c ≢ 0 → checked d (pos 0, to_i64 x) c ≡ refused x
  unfolding checked
  checked-ne x c ne = ground arith

  module _ (t beyond : Bytes) {v : D} (old : ℤ) where
    -- An age with the letter of a unit behind its number, in lower or upper case, is converted
    -- into that many seconds if the text ends there, and refused if it goes on.
    pub agetollint-unit :
        (u : AgeUnit) (c : ℕ) (rest : Bytes)
        → IsLetter c (age_letter u)
        → no_nul rest ≡ true
        → Reads d t (c ∷ rest) v
        → agetollint d (some (t ++ c ∷ rest)) beyond old ≡ by_rest rest (in_seconds d u v)
    unfolding agetollint
    agetollint-unit u c [] l z r =
        rw
          (
            strtollint-Reads d (agemultiplier d) t (c ∷ []) beyond old r,
            agemultiplier-unit d u c v old l,
          )
          (checked-zero (in_seconds d u v))
    agetollint-unit u c (x ∷ xs) l z r =
        rw
          (
            strtollint-Reads d (agemultiplier d) t (c ∷ x ∷ xs) beyond old r,
            agemultiplier-unit d u c v old l,
          )
          (checked-ne (in_seconds d u v) x (ground arith))

    -- A size with the letter of a unit behind its number, in lower or upper case, is converted
    -- into that many bytes, by powers of 1000, if the text ends there, and refused if it goes on.
    pub sizetollint-unit :
        (u : SizeUnit) (c : ℕ) (rest : Bytes)
        → IsLetter c (size_letter u)
        → no_nul rest ≡ true
        → Reads d t (c ∷ rest) v
        → sizetollint d (some (t ++ c ∷ rest)) beyond old ≡ by_rest rest (in_bytes d u v)
    unfolding sizetollint
    sizetollint-unit u c [] l z r =
        rw
          (
            strtollint-Reads d (sizemultiplier d) t (c ∷ []) beyond old r,
            sizemultiplier-unit d u c v old l,
          )
          (checked-zero (in_bytes d u v))
    sizetollint-unit u c (x ∷ xs) l z r =
        rw
          (
            strtollint-Reads d (sizemultiplier d) t (c ∷ x ∷ xs) beyond old r,
            sizemultiplier-unit d u c v old l,
          )
          (checked-ne (in_bytes d u v) x (ground arith))

    bare :
        Reads d t [] v
        → (b : Bytes)
        → strtollint d (sizemultiplier d) (some t) b old
          ≡ checked d (pos 0, to_i64 v) (get_or b 0 0)
    bare r b =
        let e = strtollint-Reads d (sizemultiplier d) t [] b old r in
        rw append-nil at (rw sizemultiplier-bare at e)

    -- A size with no suffix is converted only if the byte behind the terminating NUL of its text,
    -- which is no part of the text, is zero: otherwise it is refused for a trailing character.
    pub sizetollint-bare :
        Reads d t [] v
        → sizetollint d (some t) beyond old
          ≡ (if get_or beyond 0 0 == 0 then success v else refused v)
    unfolding sizetollint
    sizetollint-bare r = elim (Bool-cases (get_or beyond 0 0 == 0)) [
      | inl e ↦ rw (bare r beyond, (==_iff (get_or beyond 0 0) 0).0 e) (checked-zero v)
      | inr n ↦ rw (n, bare r beyond) (checked-ne v _ (ground arith))
    ]
