-- ===== src/Interrupts/Columns.antt =====
-- The columns of /proc/interrupts that lib/interrupts.c reads.
use native.Mathlib.Nat.{zero-add}
use nagios_plugins_linux.Base.{
  ℕ, suc, ◌+◌, ◌^◌, ◌<◌, ◌≡◌, refl, sym, ap, ◌∙◌, true, false, [], ◌∷◌, ◌++◌, List, Option, some,
  Bytes, strchr, strchr-append, contains, drop, length, length-append, replicate, length-replicate,
  leb, ◌==◌, add64, arith,
}
use nagios_plugins_linux.Base.Numeral.{AllDigits, value_of, strtoul-spaces}
use nagios_plugins_linux.Interrupts.{
  move, next_value, at_end, in_front, and_then, read_columns, read_line, read_lines, counters,
  proc_interrupts_get_nintr_per_cpu, result,
}

-- A column: its leading spaces, and its digits.
pub record Column : Type 0 where
  pub spaces : ℕ
  pub digits : Bytes

-- The text of columns behind a first byte, each followed by a space and one more byte.
abbrev pub row : ℕ → List Column → Bytes → Bytes
row first [] tail = first ∷ tail
row first (c ∷ cols) tail =
    first ∷ (replicate c.spaces b' ' ++ (c.digits ++ b' ' ∷ row b' ' cols tail))

abbrev pub AreNumbers : List Column → Type 0
AreNumbers [] = Unit
AreNumbers (c ∷ cols) =
    (AllDigits c.digits × (0 < length c.digits) × (value_of c.digits < 2 ^ 64)) × AreNumbers cols

-- The counters with the numbers of the columns added.
abbrev pub added : List ℕ → List Column → List ℕ
added [] cols = []
added (v ∷ vs) [] = v ∷ vs
added (v ∷ vs) (c ∷ cols) = add64 v (value_of c.digits) ∷ added vs cols

suc_left : (n i : ℕ) → suc n + i ≡ suc (n + i)
suc_left n i = omega arith

drop-append : (xs ys : Bytes) (n : ℕ) → drop (length xs + n) (xs ++ ys) ≡ drop n ys
drop-append [] ys n = rw zero-add
drop-append (x ∷ xs) ys n = rw (suc_left (length xs) n) (drop-append xs ys n)

drop_behind :
    (S D R : Bytes) (first n : ℕ)
    → n ≡ suc (length S + (length D + 1))
    → drop n (first ∷ (S ++ (D ++ b' ' ∷ R))) ≡ R
drop_behind S D R first n e =
    rw e (drop-append S (D ++ b' ' ∷ R) (length D + 1) ∙ drop-append D (b' ' ∷ R) 1)

move_behind :
    (S D R : Bytes) (first n : ℕ)
    → n ≡ length S + length D + 2
    → move n (first ∷ (S ++ (D ++ b' ' ∷ R))) ≡ some R
move_behind S D R first n e =
    let fits : leb n (length (first ∷ (S ++ (D ++ b' ' ∷ R)))) ≡ true =
      rw (length-append S (D ++ b' ' ∷ R), length-append D (b' ' ∷ R)) (ground (arith, e)) in
    rw (fits, drop_behind S D R first n (omega (arith, e))) refl

next_value-row :
    (first : ℕ) (c : Column) (cols : List Column) (tail : Bytes)
    → AllDigits c.digits
    → 0 < length c.digits
    → value_of c.digits < 2 ^ 64
    → next_value (row first (c ∷ cols) tail) ≡ (value_of c.digits, some (row b' ' cols tail))
unfolding next_value
next_value-row first c cols tail a l b =
    let rest = b' ' ∷ row b' ' cols tail in
    let r = strtoul-spaces c.spaces c.digits rest a l refl b in
    let S = replicate c.spaces b' ' in
    let n : 0 + c.spaces + length c.digits + 2 ≡ length S + length c.digits + 2 =
      rw (length-replicate {A = ℕ} c.spaces b' ') (omega arith) in
    rw r (ap (λ m. (value_of c.digits, m)) (move_behind S c.digits (row b' ' cols tail) first _ n))

read_columns_step :
    (p : Bytes) (v : ℕ) (vintr : List ℕ)
    → at_end p ≡ false
    → read_columns (some p) (v ∷ vintr)
      ≡ in_front (add64 v (next_value p).0) (read_columns (next_value p).1 vintr)
unfolding read_columns
read_columns_step p v vintr f = rw f refl

read_columns-added :
    (first : ℕ) (cols : List Column) (tail : Bytes) (vintr : List ℕ)
    → AreNumbers cols
    → (first == 10) ≡ false
    → length vintr ≡ length cols
    → read_columns (some (row first cols tail)) vintr ≡ some (added vintr cols)
unfolding read_columns
read_columns-added first [] tail [] n f l = refl
read_columns-added first [] tail (v ∷ vintr) n f l = absurd (omega (arith, l))
read_columns-added first (c ∷ cols) tail [] n f l = absurd (omega (arith, l))
read_columns-added first (c ∷ cols) tail (v ∷ vintr) ((a, p, b), n) f l =
    let e = next_value-row first c cols tail a p b in
    let ih = read_columns-added b' ' cols tail vintr n refl (omega (arith, l)) in
    read_columns_step (row first (c ∷ cols) tail) v vintr f
    ∙ (ap (λ (m : ℕ × Option Bytes). in_front (add64 v m.0) (read_columns m.1 vintr)) e
        ∙ ap (in_front (add64 v (value_of c.digits))) ih)

-- A line of the table: a name without a colon, and the columns behind the colon.
pub record Line : Type 0 where
  pub name : Bytes
  pub columns : List Column
  pub tail : Bytes

abbrev pub text_of : Line → Bytes
text_of l = l.name ++ row b':' l.columns l.tail

abbrev pub texts_of : List Line → List Bytes
texts_of [] = []
texts_of (l ∷ ls) = text_of l ∷ texts_of ls

-- Each line has a name without a colon and a number for each of the processors.
abbrev pub AreLines : ℕ → List Line → Type 0
AreLines ncpus [] = Unit
AreLines ncpus (l ∷ ls) =
    ((contains b':' l.name ≡ false) × AreNumbers l.columns × (length l.columns ≡ ncpus))
    × AreLines ncpus ls

abbrev pub sums : List ℕ → List Line → List ℕ
sums vintr [] = vintr
sums vintr (l ∷ ls) = sums (added vintr l.columns) ls

length-added : (vs : List ℕ) (cols : List Column) → length (added vs cols) ≡ length vs
length-added [] cols = refl
length-added (v ∷ vs) [] = refl
length-added (v ∷ vs) (c ∷ cols) = ap suc (length-added vs cols)

strchr_rows :
    (name : Bytes) (cols : List Column) (tail : Bytes)
    → contains b':' name ≡ false
    → strchr b':' (name ++ row b':' cols tail) ≡ some (row b':' cols tail)
strchr_rows name [] tail c = strchr-append b':' name tail c
strchr_rows name (x ∷ cols) tail c = strchr-append b':' name _ c

strchr-row :
    (l : Line)
    → contains b':' l.name ≡ false
    → strchr b':' (text_of l) ≡ some (row b':' l.columns l.tail)
strchr-row l c = strchr_rows l.name l.columns l.tail c

read_lines_step :
    (line : Bytes) (lines : List Bytes) (vintr vs : List ℕ) (p : Bytes)
    → strchr b':' line ≡ some p
    → read_columns (some p) vintr ≡ some vs
    → read_lines (line ∷ lines) vintr ≡ read_lines lines vs
unfolding read_lines read_line
read_lines_step line lines vintr vs p e r =
    ap (λ o. and_then (read_line o vintr) (λ v. read_lines lines v)) e
    ∙ ap (λ o. and_then o (λ v. read_lines lines v)) r

read_lines-sums :
    (ls : List Line) (vintr : List ℕ)
    → AreLines (length vintr) ls
    → read_lines (texts_of ls) vintr ≡ some (sums vintr ls)
unfolding read_lines read_line
read_lines-sums [] vintr h = refl
read_lines-sums (l ∷ ls) vintr ((c, n, e), h) =
    let colon = strchr-row l c in
    let r = read_columns-added b':' l.columns l.tail vintr n refl (sym e) in
    read_lines_step (text_of l) (texts_of ls) vintr (added vintr l.columns) _ colon r
    ∙ (read_lines-sums ls (added vintr l.columns) (rw (length-added vintr l.columns) h))

-- For each processor the sum, modulo 2 ^ 64, of the numbers in its column over all lines behind the
-- header is returned, if the lines are names, a colon and a number for each processor, every number
-- being followed by a space and one more byte in front of the next column.
pub proc_interrupts_get_nintr_per_cpu-sums :
    (header : Bytes) (ls : List Line) (ncpus : ℕ)
    → AreLines ncpus ls
    → proc_interrupts_get_nintr_per_cpu (some (header ∷ texts_of ls)) ncpus
      ≡ counters (sums (replicate ncpus 0) ls)
unfolding proc_interrupts_get_nintr_per_cpu result
proc_interrupts_get_nintr_per_cpu-sums header ls ncpus h =
    let e = length-replicate {A = ℕ} ncpus 0 in
    rw (read_lines-sums ls (replicate ncpus 0) (rw e h)) refl
