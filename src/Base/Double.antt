-- ===== src/Base/Double.antt =====
-- `double` and the functions of libc that read one. There are no floats here: the type and its
-- operations are a parameter of what uses them, and the theorems that rest on a law of the order
-- or of a conversion name that law as a hypothesis.
use mathlib.Core.Bool.{Bool}
use Prim.Native.Nat.{ℕ}
use nagios_plugins_linux.Base.CString.{Bytes}
use nagios_plugins_linux.Base.Int.{ℤ}

-- What `strtod` reports: the value, how many bytes it took (0 where nothing could be read, and
-- then `endptr == str`), and whether it set `errno`.
pub record Scan (D : Type 0) : Type 0 where
  pub value : D
  pub used : ℕ
  pub failed : Bool

pub record Double : Type 1 where
  pub D : Type 0
  pub le : D → D → Bool
  pub lt : D → D → Bool
  pub of_ℤ : ℤ → D
  pub mul : D → D → D
  pub div : D → D → D
  -- the conversions to `unsigned long long` and to `long long`, which drop the fraction
  pub to_u64 : D → ℕ
  pub to_i64 : D → ℤ
  pub strtod : Bytes → Scan D
