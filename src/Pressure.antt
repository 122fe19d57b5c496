-- ===== src/Pressure.antt =====
-- lib/pressure.c: the pressure-stall figures. The lines of a file, as each reading of it finds them,
-- and `sscanf` are parameters; a `double` is only copied.
pub mod Starvation
pub mod Starved
pub mod Decided
use nagios_plugins_linux.Base.{
  ℕ, ◌+◌, ◌/◌, [], ◌∷◌, List, Option, none, some, Bytes, codes, starts_with, if◌then◌else◌, length,
  sub64,
}
use nagios_plugins_linux.Messages.{state_unknown, Outcome, returns, plugin_error, ◌>>=◌}

-- `struct proc_psi_oneline`
pub record ProcPsiOneline (D : Type 0) : Type 0 where
  pub total : ℕ
  pub avg10 : D
  pub avg60 : D
  pub avg300 : D

-- `struct proc_psi_twolines`
pub record ProcPsiTwolines (D : Type 0) : Type 0 where
  pub some_total : ℕ
  pub full_total : ℕ
  pub some_avg10 : D
  pub some_avg60 : D
  pub some_avg300 : D
  pub full_avg10 : D
  pub full_avg60 : D
  pub full_avg300 : D

-- `scan n line` is `sscanf (line + n, ...)`: the four figures, or `none` for `rc < 4`.
module _ {D : Type 0} (scan : ℕ → Bytes → Option (ProcPsiOneline D)) where
  -- The loop over the lines: only the first line with the label is scanned.
  find_label : Bytes → List Bytes → Option (ProcPsiOneline D)
  find_label label [] = none
  find_label label (line ∷ lines) =
      if starts_with label line then scan (length label + 1) line else find_label label lines

  checked_psi : Option (ProcPsiOneline D) → Outcome (ProcPsiOneline D)
  checked_psi none = plugin_error state_unknown
  checked_psi (some psi) = returns psi

  -- `none` is a file that cannot be opened.
  unfoldable pub proc_psi_parser : Option (List Bytes) → Bytes → Outcome (ProcPsiOneline D)
  unfolding find_label checked_psi
  proc_psi_parser none label = plugin_error state_unknown
  proc_psi_parser (some lines) label = checked_psi (find_label label lines)

  -- What is stored in `**psi_cpu` and in `*starvation`; the file is read before and after `sleep`.
  unfoldable pub proc_psi_read_cpu :
      ℕ → Option (List Bytes) → Option (List Bytes) → Outcome (ProcPsiOneline D × ℕ)
  unfolding proc_psi_parser
  proc_psi_read_cpu delay before after = proc_psi_parser before (codes "some") >>= λ stats.
      proc_psi_parser after (codes "some") >>= λ psi.
      returns (stats, sub64 psi.total stats.total / delay)

  -- The same of the two lines, with `*starvation` and `*(starvation + 1)`; each of the four calls
  -- reads the file anew.
  unfoldable pub proc_psi_read :
      ℕ
      → Option (List Bytes)
      → Option (List Bytes)
      → Option (List Bytes)
      → Option (List Bytes)
      → Outcome (ProcPsiTwolines D × ℕ × ℕ)
  unfolding proc_psi_parser
  proc_psi_read delay before before_full after after_full =
      proc_psi_parser before (codes "some") >>= λ first.
      proc_psi_parser before_full (codes "full") >>= λ full.
      proc_psi_parser after (codes "some") >>= λ psi.
      proc_psi_parser after_full (codes "full") >>= λ psi_full. returns (
        record {
          some_total = first.total;
          full_total = full.total;
          some_avg10 = first.avg10;
          some_avg60 = first.avg60;
          some_avg300 = first.avg300;
          full_avg10 = full.avg10;
          full_avg60 = full.avg60;
          full_avg300 = full.avg300;
        },
        sub64 psi.total first.total / delay,
        sub64 psi_full.total full.total / delay,
      )
