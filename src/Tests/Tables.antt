-- ===== src/Tests/Tables.antt =====
-- The hash table, and the parser of tables of rows.
use nagios_plugins_linux.Base.{ℕ, ◌≡◌, refl, [], ◌∷◌, ◌++◌, List, some, arith, Bytes, codes}
use mathlib.Core.Option.{get_or}
use nagios_plugins_linux.Base.Numeral.{strtoul}
use nagios_plugins_linux.Collection.{counter_create, counter_put}
use nagios_plugins_linux.Collection.Lookup.{count_of}
use nagios_plugins_linux.Collection.Counts.{IsValid, counter_create-IsValid, counter_put-IsValid}
use nagios_plugins_linux.Collection.Totals.{put_all, count_of-put_all}
use nagios_plugins_linux.Procparser.{
  Row, Bsearch, index_of, parse_lines, split_at, linelookup, skip_space, end_of_value, before_nul,
}
use nagios_plugins_linux.Procparser.Rows.{last_value, parse_lines-last_value}

abbrev words : List (Bytes × ℕ)
words = (codes "a", 2) ∷ (codes "b", 1) ∷ (codes "a", 3) ∷ []

count_of-put_all_example : count_of (put_all counter_create words) (codes "a") ≡ some 5
count_of-put_all_example = count_of-put_all words (codes "a") (omega arith)

counter_put-IsValid_example : IsValid (counter_put counter_create (codes "x") 4)
counter_put-IsValid_example = counter_put-IsValid (codes "x") 4 counter_create-IsValid

-- A search that goes through the names one after the other.
abbrev pub linear : Bsearch
linear = record { search = index_of; finds = λ key l h. refl }

abbrev two_rows : List (Row (ℕ × ℕ))
two_rows =
    record { name = codes "Free"; slot = λ v s. (v, s.1) }
    ∷ record { name = codes "Used"; slot = λ v s. (s.0, v) }
    ∷ []

abbrev report : List Bytes
report = codes "Used: 7 kB" ∷ codes "Other: 1" ∷ codes "Used: 9 kB" ∷ []

parse_lines-last_value_example :
    (parse_lines linear two_rows b':' report (1, 2)).1
    ≡ get_or (last_value (codes "Used") b':' report) 2
parse_lines-last_value_example =
    parse_lines-last_value linear two_rows refl (λ s. s.1) (codes "Used") (omega arith)
      (λ v s. refl, (λ v s. refl, tt)) refl b':' report (1, 2)

report_runs : parse_lines linear two_rows b':' report (1, 2) ≡ (1, 9)
unfolding parse_lines split_at strtoul
report_runs = refl

linelookup_runs :
    linelookup (codes "cpu : 7 B ;") (codes "cpu")
    ≡ some (codes "cpu : 7 B" ++ 0 ∷ codes ";", codes "7 B")
unfolding linelookup skip_space end_of_value before_nul
linelookup_runs = refl
