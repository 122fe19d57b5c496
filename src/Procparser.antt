-- ===== src/Procparser.antt =====
-- lib/procparser.c: the parser of files such as /proc/meminfo, which writes the value of a row
-- through the pointer that the table gives for the row's name, and the lookup of one line's value.
pub mod Rows
pub mod Value
use nagios_plugins_linux.Base.{
  ℕ, zero, suc, ◌+◌, ◌-◌, ◌≡◌, not, get_or, set, Bool, true, false, ◌&&◌, ◌||◌, [], ◌∷◌, List,
  Option, none, some, map, Bytes, streq, strlt, starts_with, is_space, ltb, leb, ◌==◌,
  if◌then◌else◌, length, get_elem?, drop,
}
use nagios_plugins_linux.Base.Numeral.{Number, strtoul}
use nagios_plugins_linux.Messages.{state_unknown, Outcome, returns, plugin_error}

-- `proc_table_struct`: a name, and the pointer `slot` as the write through it. `S` is the structure
-- that the slots point into.
pub record Row (S : Type 0) : Type 0 where
  pub name : Bytes
  pub slot : ℕ → S → S

-- The table in the order of `compare_proc_table_structs`, each name before the next.
abbrev pub is_sorted : List Bytes → Bool
is_sorted [] = true
is_sorted (x ∷ []) = true
is_sorted (x ∷ y ∷ l) = strlt x y && is_sorted (y ∷ l)

-- The first position of a key.
abbrev pub index_of : Bytes → List Bytes → Option ℕ
index_of key [] = none
index_of key (x ∷ xs) =
    let rest = elim (index_of key xs) as (λ o. Option ℕ) [ none ↦ none | some i ↦ some (i + 1) ] in
    if streq key x then some 0 else rest

-- `bsearch` with `compare_proc_table_structs`, on the names of a table. It is documented for a
-- table in the order of the comparison only: there it finds the entry that compares equal.
pub record Bsearch : Type 0 where
  pub search : Bytes → List Bytes → Option ℕ
  pub finds : (key : Bytes) (l : List Bytes) → is_sorted l ≡ true → search key l ≡ index_of key l

-- `tail = strchr (line, separator); *tail = '\0'`: what stands before the separator and behind it
unfoldable pub split_at : ℕ → Bytes → Option (Bytes × Bytes)
split_at sep [] = none
split_at sep (c ∷ cs) =
    let rest = elim (split_at sep cs) as (λ o. Option (Bytes × Bytes)) [
      | none ↦ none
      | some (head, tail) ↦ some (c ∷ head, tail)
    ] in
    if c == sep then some ([], cs) else rest

-- `sizeof (namebuf)`
abbrev pub namebuf_size : ℕ
namebuf_size = 32

module _ {S : Type 0} (b : Bsearch) (table : List (Row S)) where
  write_slot : Option (Row S) → Bytes → S → S
  write_slot none value s = s
  write_slot (some found) value s = found.slot (strtoul value).value s

  found_row : Option ℕ → Option (Row S)
  found_row none = none
  found_row (some i) = get_elem? table i

  parse_row : Option (Bytes × Bytes) → S → S
  unfolding write_slot found_row
  parse_row none s = s
  parse_row (some (head, tail)) s =
      if leb namebuf_size (length head)
      then s
      else write_slot (found_row (b.search head (map (λ (r : Row S). r.name) table))) tail s

  -- The loop over the lines that `getline` returns.
  unfoldable pub parse_lines : ℕ → List Bytes → S → S
  unfolding parse_row
  parse_lines separator [] s = s
  parse_lines separator (line ∷ lines) s =
      parse_lines separator lines (parse_row (split_at separator line) s)

  -- `none` is a file that cannot be opened.
  unfoldable pub procparser : Option (List Bytes) → ℕ → S → Outcome S
  unfolding parse_lines
  procparser none separator s = plugin_error state_unknown
  procparser (some lines) separator s = returns (parse_lines separator lines s)

-- The tail behind leading white space: the loops `for (p = ...; isspace (*p); p++)`.
unfoldable pub skip_space : Bytes → Bytes
skip_space [] = []
skip_space (c ∷ cs) = if is_space c then skip_space cs else c ∷ cs

-- The loop `for (p = line + len; isspace (*(p - 1)); p--)`, from the index `len`; it cannot pass the
-- colon, which is no white space.
unfoldable pub end_of_value : Bytes → ℕ → ℕ
end_of_value line zero = zero
end_of_value line (suc n) =
    let before = end_of_value line n in if is_space (get_or line n 0) then before else suc n

-- The bytes in front of the first NUL.
unfoldable pub before_nul : Bytes → Bytes
before_nul [] = []
before_nul (c ∷ cs) = if c == 0 then [] else c ∷ before_nul cs

-- From `if (!*p)` on, with `v` the tail at `p`: the line with the NUL stored in it, and the copy of
-- the text at `v` in that line.
store_value : Bytes → Bytes → Option (Bytes × Bytes)
unfolding end_of_value before_nul
store_value line [] = none
store_value line (c ∷ cs) =
    let line' = set line (end_of_value line (length line - 1)) 0 in
    some (line', before_nul (drop (length line - length (c ∷ cs)) line'))

-- From the separator on.
after_pattern : Bytes → Bytes → Option (Bytes × Bytes)
unfolding skip_space store_value
after_pattern line [] = none
after_pattern line (c ∷ cs) = if not (c == b':') then none else store_value line (skip_space cs)

-- `none` is the result 0; for the result 1, the line that is left and `*value`.
unfoldable pub linelookup : Bytes → Bytes → Option (Bytes × Bytes)
unfolding after_pattern
linelookup [] pattern = none
linelookup (c ∷ cs) pattern =
    if not (starts_with pattern (c ∷ cs))
    then none
    else after_pattern (c ∷ cs) (skip_space (drop (length pattern) (c ∷ cs)))
