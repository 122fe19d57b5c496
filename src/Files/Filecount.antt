-- ===== src/Files/Filecount.antt =====
-- plugins/check_filecount.c: the files of some directories against the thresholds. `int64_t` has 64
-- bits.
use nagios_plugins_linux.Base.{
  ℕ, ◌+◌, ◌-◌, ◌%◌, ◌^◌, Bool, true, false, [], ◌∷◌, List, Option, none, some, Bytes, if◌then◌else◌,
  ◌≡◌, refl, ltb, length, ◌<◌, suc, add64, arith,
}
use nagios_plugins_linux.Base.Int.{ℤ, pos, negsuc}
use nagios_plugins_linux.Base.Double.{Double}
use nagios_plugins_linux.Messages.{
  NagStatus, state_ok, state_unknown, Outcome, returns, exits, plugin_error, ◌>>=◌,
}
use nagios_plugins_linux.Messages.Worst.{ladder}
use nagios_plugins_linux.Thresholds.{Range, Thresholds, parse_argument, alerts, get_status}
use nagios_plugins_linux.Xstrton.{Converted, agetollint, sizetollint}
use nagios_plugins_linux.Program.{getopt_loop, thresholds_or_usage}
use nagios_plugins_linux.Program.Ladder.{thresholds_or_usage-parsed}
use nagios_plugins_linux.Files.{
  Entries, Contents, opened, FilesTypes, has, files_ignore_symlinks, files_ignore_unknown,
  files_include_hidden, files_recursive, files_regular_only, files_filecount,
}
use nagios_plugins_linux.Files.Returns.{is_readable, files_filecount-returns}
use nagios_plugins_linux.Files.Accounting.{Balanced}

-- The variables of `main` that the options set.
pub record Settings : Type 0 where
  pub filecount_flags : ℕ
  pub fileage : ℤ
  pub filesize : ℤ
  pub pattern : Option Bytes
  pub verbose : Bool
  pub critical : Option Bytes
  pub warning : Option Bytes

abbrev pub defaults : Settings
defaults = record {
  filecount_flags = 0;
  fileage = pos 0;
  filesize = pos 0;
  pattern = none;
  verbose = false;
  critical = none;
  warning = none;
}

-- There is no long option for the age.
pub data Opt : Type 0 where
  opt_regular_only opt_include_hidden opt_ignore_symlinks opt_recursive opt_ignore_unknown : Opt
  opt_verbose opt_help opt_version opt_unrecognized : Opt
  opt_name opt_size opt_age opt_critical opt_warning : Bytes → Opt

-- `filecount_flags |= flag`, for a flag of one bit.
abbrev with_flag : ℕ → Settings → Settings
with_flag flag s =
    if has s.filecount_flags flag
    then s
    else record s { filecount_flags = s.filecount_flags + flag }

-- The number of an option with a unit, or the end of the process.
abbrev checked : Converted → (ℤ → Settings) → Outcome Settings
checked r store = elim r.code [
  | pos n ↦ returns (store r.result)
  | negsuc n ↦ plugin_error state_unknown
]

-- `beyond` are the bytes in memory behind an argument.
module _ (d : Double) (beyond : Bytes) where
  unfoldable pub switch_option : Opt → Settings → Outcome Settings
  unfolding agetollint sizetollint
  switch_option (opt_critical optarg) s = returns (record s { critical = some optarg })
  switch_option opt_regular_only s = returns (with_flag files_regular_only s)
  switch_option opt_include_hidden s = returns (with_flag files_include_hidden s)
  switch_option opt_ignore_symlinks s = returns (with_flag files_ignore_symlinks s)
  switch_option (opt_name optarg) s = returns (record s { pattern = some optarg })
  switch_option opt_recursive s = returns (with_flag files_recursive s)
  switch_option (opt_size optarg) s =
      checked (sizetollint d (some optarg) beyond s.filesize) λ n. record s { filesize = n }
  switch_option (opt_age optarg) s =
      checked (agetollint d (some optarg) beyond s.fileage) λ n. record s { fileage = n }
  switch_option opt_ignore_unknown s = returns (with_flag files_ignore_unknown s)
  switch_option (opt_warning optarg) s = returns (record s { warning = some optarg })
  switch_option opt_verbose s = returns (record s { verbose = true })
  switch_option opt_help s = exits state_ok
  switch_option opt_version s = exits state_ok
  switch_option opt_unrecognized s = exits state_unknown

  unfoldable pub process_options : List Opt → Outcome Settings
  unfolding getopt_loop switch_option
  process_options opts = getopt_loop switch_option opts defaults

-- The 64 bits of an `int64_t` as a number.
abbrev pub signed64 : ℕ → ℤ
signed64 n = if ltb n (2 ^ 63) then pos n else negsuc (2 ^ 64 - 1 - n)

-- What is printed and returned: the state, the total by its 64 bits, and the counters of each
-- directory.
pub record Report : Type 0 where
  pub status : NagStatus
  pub total : ℕ
  pub counters : List FilesTypes

module _ (fnmatch : Bytes → Bytes → Bool) where
  -- What `files_filecount` returns; it sets the counters where it returns 0.
  counted : ℤ × Option FilesTypes → Outcome FilesTypes
  counted (negsuc n, filecount) = plugin_error state_unknown
  counted (pos n, none) = plugin_error state_unknown
  counted (pos n, some c) = returns c

  -- The loop over the arguments, from a total on: the directories that they name, each with the time
  -- when it is looked at.
  unfoldable pub count_directories :
      Settings → ℕ → List (ℤ × Contents) → Outcome (ℕ × List FilesTypes)
  unfolding files_filecount counted
  count_directories s total [] = returns (total, [])
  count_directories s total ((now, dir) ∷ rest) =
      files_filecount fnmatch s.filecount_flags s.fileage s.filesize now s.pattern dir none >>= λ r.
      counted r >>= λ c.
      count_directories s (add64 total c.total) rest >>= λ more. returns (more.0, c ∷ more.1)

  module _ (d : Double) where
    report : Thresholds d → ℕ × List FilesTypes → Report
    unfolding get_status
    report my_threshold (total, counters) = record {
      status = get_status d (d.of_ℤ (signed64 total)) my_threshold;
      total = total;
      counters = counters;
    }

    -- From the test of the arguments on.
    behind_options : Settings → List (ℤ × Contents) → Outcome Report
    unfolding count_directories thresholds_or_usage report
    behind_options s [] = exits state_unknown
    behind_options s (dir ∷ rest) = count_directories s 0 (dir ∷ rest) >>= λ r.
        thresholds_or_usage d s.warning s.critical >>= λ t. returns (report t r)

    unfoldable pub main : Bytes → List Opt → List (ℤ × Contents) → Outcome Report
    unfolding process_options behind_options
    main beyond opts dirs = process_options d beyond opts >>= λ s. behind_options s dirs

-- Directories whose trees can be read.
abbrev pub directories : List (ℤ × Entries) → List (ℤ × Contents)
directories [] = []
directories ((now, entries) ∷ rest) = (now, opened entries) ∷ directories rest

abbrev pub AreReadable : List (ℤ × Entries) → Type 0
AreReadable [] = Unit
AreReadable ((now, entries) ∷ rest) = (is_readable entries ≡ true) × AreReadable rest

abbrev pub sum_of_totals : List FilesTypes → ℕ
sum_of_totals [] = 0
sum_of_totals (c ∷ cs) = c.total + sum_of_totals cs

abbrev pub AreBalanced : ℕ → List FilesTypes → Type 0
AreBalanced flags [] = Unit
AreBalanced flags (c ∷ cs) = Balanced flags c × AreBalanced flags cs

module _ (fnmatch : Bytes → Bytes → Bool) where
  count_directories-sums :
      (s : Settings) (total : ℕ) (dirs : List (ℤ × Entries))
      → total < 2 ^ 64
      → AreReadable dirs
      → (n : ℕ) × (cs : List FilesTypes) × (count_directories fnmatch s total (directories dirs)
          ≡ returns (n, cs))
        × (length cs ≡ length dirs)
        × AreBalanced s.filecount_flags cs
        × (n ≡ (total + sum_of_totals cs) % 2 ^ 64)
  unfolding count_directories counted
  count_directories-sums s total [] b h = (total, [], refl, refl, tt, omega arith)
  count_directories-sums s total ((now, entries) ∷ rest) b (h, hs) =
      let (c, e, balanced) =
        files_filecount-returns fnmatch s.filecount_flags s.fileage s.filesize now s.pattern entries
          h in
      let (n, cs, e', same, all, sum) =
        count_directories-sums s (add64 total c.total) rest (omega arith) hs in
      (n, c ∷ cs, rw (e, e') refl, omega (arith, same), (balanced, all), omega (arith, sum))

  -- With options that are read, at least one argument, arguments that name directories whose trees
  -- can be read, and ranges that can be parsed, check_filecount ends with a report: the counters of
  -- each directory are balanced, the total is the sum of theirs modulo 2^64, and the state is
  -- CRITICAL if it alerts the critical range, else WARNING if it alerts the warning range, else OK.
  pub main-total :
      (d : Double) (beyond : Bytes) (opts : List Opt) (dir : ℤ × Entries)
      (dirs : List (ℤ × Entries)) (s : Settings) (w c : Option (Range d))
      → process_options d beyond opts ≡ returns s
      → AreReadable (dir ∷ dirs)
      → parse_argument d s.warning ≡ some w
      → parse_argument d s.critical ≡ some c
      → (r : Report) × (main fnmatch d beyond opts (directories (dir ∷ dirs)) ≡ returns r)
        × (length r.counters ≡ suc (length dirs))
        × AreBalanced s.filecount_flags r.counters
        × (r.total ≡ sum_of_totals r.counters % 2 ^ 64)
        × (let v = d.of_ℤ (signed64 r.total) in r.status ≡ ladder (alerts d v c) (alerts d v w))
  unfolding main behind_options report get_status
  main-total d beyond opts dir dirs s w c o h hw hc =
      let (n, cs, e, same, all, sum) = count_directories-sums s 0 (dir ∷ dirs) (omega arith) h in
      (
        report fnmatch d (record { warning = w; critical = c }) (n, cs),
        rw (o, e, thresholds_or_usage-parsed d s.warning s.critical w c hw hc) refl,
        same,
        all,
        omega (arith, sum),
        refl,
      )
