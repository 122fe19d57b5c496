-- ===== src/Procparser/Rows.antt =====
-- What lib/procparser.c leaves in one slot of a structure: the value of the last row of that name.
use nagios_plugins_linux.Base.{
  ℕ, ◌<◌, ◌≡◌, refl, ap, ◌∙◌, Bool, true, false, ◌&&◌, ◌||◌, [], ◌∷◌, List, Option, none, some, map,
  inl, inr, arith, Bytes, streq, streq_iff, leb, if◌then◌else◌, length, Bool-cases, Option-cases,
}
use mathlib.Core.Option.{get_or}
use native.Mathlib.Numerals.{add-one}
use nagios_plugins_linux.Base.Numeral.{strtoul}
use nagios_plugins_linux.Procparser.{
  Row, Bsearch, is_sorted, index_of, split_at, namebuf_size, write_slot, found_row, parse_row,
  parse_lines,
}

-- The value of a row of that name.
abbrev pub row_value : Bytes → Option (Bytes × Bytes) → Option ℕ
row_value name none = none
row_value name (some (head, tail)) = if streq name head then some (strtoul tail).value else none

-- The value of the last such row of a file.
abbrev pub last_value : Bytes → ℕ → List Bytes → Option ℕ
last_value name sep [] = none
last_value name sep (line ∷ lines) =
    let later = last_value name sep lines in
    elim later as (λ o. Option ℕ) [ none ↦ row_value name (split_at sep line) | some v ↦ some v ]

module _ {S : Type 0} where
  abbrev pub names : List (Row S) → List Bytes
  names = map (λ (r : Row S). r.name)

  abbrev pub named : Bytes → List (Row S) → Bool
  named name [] = false
  named name (r ∷ rows) = streq name r.name || named name rows

  -- Among the slots of a table, the projection `p` is written by those of the row `name`, and by
  -- no other.
  abbrev pub Owns : Bytes → (S → ℕ) → List (Row S) → Type 0
  Owns name p [] = Unit
  Owns name p (r ∷ rows) =
      ((v : ℕ) (s : S) → p (r.slot v s) ≡ (if streq name r.name then v else p s)) × Owns name p rows

  abbrev first_row : Bytes → List (Row S) → Option (Row S)
  first_row key [] = none
  first_row key (r ∷ rows) = if streq key r.name then some r else first_row key rows

module _ {S : Type 0} (b : Bsearch) where
  found_row-index_of :
      (rows : List (Row S)) (key : Bytes)
      → found_row b rows (index_of key (names rows)) ≡ first_row key rows
  unfolding found_row
  found_row-index_of [] key = refl
  found_row-index_of (r ∷ rows) key =
      let rest = found_row-index_of rows key in
      elim (Bool-cases (streq key r.name)) [
        | inl e ↦ rw e
        | inr n ↦ elim (Option-cases (index_of key (names rows))) [
          | inl none_at ↦ rw (n, none_at) (rw none_at at rest)
          | inr (i, some_at) ↦ rw (n, some_at, add-one) (rw some_at at rest)
        ]
      ]

  -- The slot of the first row of a key, seen through a projection that a row of the table owns.
  write_slot-Owns :
      (table rows : List (Row S)) (p : S → ℕ) (name key tail : Bytes) (s : S)
      → Owns name p rows
      → p (write_slot b table (first_row key rows) tail s)
        ≡ (if streq name key && named name rows then (strtoul tail).value else p s)
  unfolding write_slot
  write_slot-Owns table [] p name key tail s o = ground arith
  write_slot-Owns table (r ∷ rows) p name key tail s o =
      let rest = write_slot-Owns table rows p name key tail s o.1 in
      let mine = o.0 (strtoul tail).value s in
      ground (arith, rest, mine, streq_iff name key, streq_iff key r.name, streq_iff name r.name)

module _ {S : Type 0} (b : Bsearch) (table : List (Row S)) (sorted : is_sorted (names table) ≡ true)
    (p : S → ℕ) (name : Bytes) (short : length name < namebuf_size) (owns : Owns name p table)
    (there : named name table ≡ true) where
  -- A name that does not fit the buffer is another name.
  long_name : (head : Bytes) → leb namebuf_size (length head) ≡ true → streq name head ≡ false
  long_name head l = elim (Bool-cases (streq name head)) [
    | inl e ↦ let q = ap length ((streq_iff name head).0 e) in absurd (ground arith)
    | inr n ↦ n
  ]

  parse_row-value :
      (split : Option (Bytes × Bytes)) (s : S)
      → p (parse_row b table split s) ≡ get_or (row_value name split) (p s)
  unfolding parse_row
  parse_row-value none s = refl
  parse_row-value (some (head, tail)) s = elim (Bool-cases (leb namebuf_size (length head))) [
    | inl l ↦ rw (l, long_name head l)
    | inr fits ↦
        let found = b.finds head (names table) sorted in
        let step = write_slot-Owns b table table p name head tail s owns in
        rw (fits, found, found_row-index_of b table head) (ground (arith, step))
  ]

  -- After the whole file is parsed over a sorted table, the slot of a name holds the value of the
  -- last row of that name, and what it held before if there is no such row.
  pub parse_lines-last_value :
      (sep : ℕ) (lines : List Bytes) (s : S)
      → p (parse_lines b table sep lines s) ≡ get_or (last_value name sep lines) (p s)
  unfolding parse_lines
  parse_lines-last_value sep [] s = refl
  parse_lines-last_value sep (line ∷ lines) s =
      let one = parse_row-value (split_at sep line) s in
      let rest = parse_lines-last_value sep lines (parse_row b table (split_at sep line) s) in
      elim (Option-cases (last_value name sep lines)) [
        | inl e ↦ rw e (rw e at rest ∙ one)
        | inr (v, e) ↦ rw e (rw e at rest)
      ]
