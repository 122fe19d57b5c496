-- ===== src/Interrupts.antt =====
-- lib/interrupts.c: the interrupts of each processor in /proc/interrupts. A text is followed by its
-- NUL, and a read behind that is an outcome of its own.
pub mod Columns
use nagios_plugins_linux.Base.{
  ℕ, zero, suc, ◌+◌, Bool, true, false, ◌&&◌, ◌||◌, not, [], ◌∷◌, List, Option, none, some, Bytes,
  strchr, drop, length, replicate, leb, ltb, ◌==◌, if◌then◌else◌, add64,
}
use nagios_plugins_linux.Base.Numeral.{Number, strtoul}

-- The text from `p` on, if `p` is not behind the NUL.
abbrev pub move : ℕ → Bytes → Option Bytes
move n s = if leb n (length s) then some (drop n s) else none

-- What is left after `value = strtoul (p + 1, &end, 10); p = end + 1;`, with the value; `end` is
-- `p + 1` where there is no number.
unfoldable pub next_value : Bytes → ℕ × Option Bytes
next_value p = let r = strtoul (drop 1 p) in (r.value, move (r.used + 2) p)

-- `*p == '\0' || *p == '\n'`
abbrev pub at_end : Bytes → Bool
at_end [] = true
at_end (c ∷ cs) = c == 10

-- A counter in front of those of the later processors.
abbrev pub in_front : ℕ → Option (List ℕ) → Option (List ℕ)
in_front v none = none
in_front v (some vs) = some (v ∷ vs)

abbrev pub and_then : Option (List ℕ) → (List ℕ → Option (List ℕ)) → Option (List ℕ)
and_then none f = none
and_then (some vs) f = f vs

-- The loop over the processors, on their counters; `none` is a read behind the text.
unfoldable pub read_columns : Option Bytes → List ℕ → Option (List ℕ)
unfolding next_value
read_columns none [] = some []
read_columns (some p) [] = some []
read_columns none (v ∷ vintr) = none
read_columns (some p) (v ∷ vintr) =
    let same = read_columns (some p) vintr in
    let n = next_value p in
    let next = read_columns n.1 vintr in
    if at_end p then in_front v same else in_front (add64 v n.0) next

-- A line without a colon is left out.
read_line : Option Bytes → List ℕ → Option (List ℕ)
unfolding read_columns
read_line none vintr = some vintr
read_line (some p) vintr = read_columns (some p) vintr

unfoldable pub read_lines : List Bytes → List ℕ → Option (List ℕ)
unfolding read_line
read_lines [] vintr = some vintr
read_lines (line ∷ lines) vintr =
    and_then (read_line (strchr b':' line) vintr) λ vs. read_lines lines vs

-- The line of the header is skipped.
abbrev behind_header : List Bytes → List Bytes
behind_header [] = []
behind_header (line ∷ lines) = lines

-- What is returned: the null pointer, the array of `ncpus` counters, which `xnmalloc` sets to 0, or
-- a read behind a text.
pub data Result : Type 0 where
  no_file : Result
  counters : List ℕ → Result
  out_of_bounds : Result

result : Option (List ℕ) → Result
result none = out_of_bounds
result (some vintr) = counters vintr

unfoldable pub proc_interrupts_get_nintr_per_cpu : Option (List Bytes) → ℕ → Result
unfolding read_lines result
proc_interrupts_get_nintr_per_cpu none ncpus = no_file
proc_interrupts_get_nintr_per_cpu (some lines) ncpus =
    result (read_lines (behind_header lines) (replicate ncpus 0))
