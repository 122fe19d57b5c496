-- ===== src/Base/CString.antt =====
-- C strings as lists of bytes without the closing NUL, and the functions of <string.h> and
-- <ctype.h> (in the C locale) that the program calls on them.
use Prim.Native.Nat.{ℕ}
use Prim.Native.Char.{code}
use Prim.Native.String.{String}
use mathlib.Core.Path.{◌≡◌, refl}
use mathlib.Core.Logic.{◌↔◌}
use mathlib.Core.Bool.{Bool, true, false, ◌&&◌, ◌||◌}
use mathlib.Core.Option.{Option, none, some}
use mathlib.Core.List.{List, [], ◌∷◌, ◌++◌}
use native.Mathlib.Omega.{arith}
use nagios_plugins_linux.Base.Tests.{leb, ltb, ◌==◌, if◌then◌else◌}

abbrev pub Bytes : Type 0
Bytes = List ℕ

-- A text literal as its bytes; every literal of the development is ASCII.
abbrev pub codes : String → Bytes
codes String.[] = []
codes (String.◌∷◌ c s) = code c ∷ codes s

-- `strcmp (a, b) == 0`, the macro STREQ
abbrev pub streq : Bytes → Bytes → Bool
streq [] [] = true
streq [] (y ∷ ys) = false
streq (x ∷ xs) [] = false
streq (x ∷ xs) (y ∷ ys) = x == y && streq xs ys

-- `strcmp (a, b) < 0`
abbrev pub strlt : Bytes → Bytes → Bool
strlt [] [] = false
strlt [] (y ∷ ys) = true
strlt (x ∷ xs) [] = false
strlt (x ∷ xs) (y ∷ ys) = ltb x y || (x == y && strlt xs ys)

-- `strncmp (s, prefix, strlen (prefix)) == 0`, the macro STRPREFIX
abbrev pub starts_with : Bytes → Bytes → Bool
starts_with [] s = true
starts_with (p ∷ ps) [] = false
starts_with (p ∷ ps) (c ∷ cs) = p == c && starts_with ps cs

-- `strchr (s, c)` and `index (s, c)`: the rest of the string from the first `c` on
abbrev pub strchr : ℕ → Bytes → Option Bytes
strchr b [] = none
strchr b (c ∷ cs) = if c == b then some (c ∷ cs) else strchr b cs

-- `strchr (s, c) != NULL`
abbrev pub contains : ℕ → Bytes → Bool
contains b [] = false
contains b (c ∷ cs) = c == b || contains b cs

abbrev pub is_space : ℕ → Bool
is_space c = c == b' ' || (leb 9 c && leb c 13)

abbrev pub is_digit : ℕ → Bool
is_digit c = leb b'0' c && leb c b'9'

abbrev pub is_alnum : ℕ → Bool
is_alnum c = is_digit c || (leb b'a' c && leb c b'z') || (leb b'A' c && leb c b'Z')

pub streq_iff : (a b : Bytes) → (streq a b ≡ true) ↔ (a ≡ b)
streq_iff [] [] = ground arith
streq_iff [] (y ∷ ys) = ground arith
streq_iff (x ∷ xs) [] = ground arith
streq_iff (x ∷ xs) (y ∷ ys) = ground (arith, streq_iff xs ys)

pub streq_refl : (a : Bytes) → streq a a ≡ true
streq_refl a = (streq_iff a a).1 refl

pub strchr-append :
    (b : ℕ) (xs rest : Bytes) → contains b xs ≡ false → strchr b (xs ++ b ∷ rest) ≡ some (b ∷ rest)
strchr-append b [] rest h = ground arith
strchr-append b (x ∷ xs) rest h = ground (arith, strchr-append b xs rest)

pub strchr-eq-none : (b : ℕ) (xs : Bytes) → contains b xs ≡ false → strchr b xs ≡ none
strchr-eq-none b [] h = refl
strchr-eq-none b (x ∷ xs) h = ground (arith, strchr-eq-none b xs)
