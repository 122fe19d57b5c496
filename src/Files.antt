-- ===== src/Files.antt =====
-- lib/files.c: the count of the files below a directory. What `opendir`, `readdir` and `lstat` report
-- is a tree; `fnmatch` is a parameter; `now` is what `time (NULL)` returns in each of the calls.
pub mod Checks
pub mod Accounting
pub mod Returns
pub mod Filecount
use nagios_plugins_linux.Base.{
  ℕ, ◌+◌, ◌/◌, ◌%◌, Bool, true, false, not, ◌&&◌, ◌||◌, [], ◌∷◌, Option, none, some, Bytes, codes,
  streq, ◌==◌, if◌then◌else◌,
}
use nagios_plugins_linux.Base.Int.{ℤ, pos, negsuc, ◌+ℤ◌, ◌-ℤ◌, ◌*ℤ◌, ltb_ℤ}
use nagios_plugins_linux.Messages.{state_unknown, Outcome, returns, plugin_error, ◌>>=◌}

-- `st_mode & S_IFMT`, for what is no directory
pub data Mode : Type 0 where
  s_ifblk s_ifchr s_ififo s_ifsock s_iflnk s_ifreg unknown_mode : Mode

mutual
  -- The entries that `readdir` returns, up to the end of the directory or an error.
  pub data Entries : Type 0 where
    end_of_directory : Entries
    readdir_failure : Entries
    entry : Bytes → Node → Entries → Entries

  -- What `lstat` says of an entry; a file has its `st_mtime` and `st_size`.
  pub data Node : Type 0 where
    lstat_failure : Node
    file : Mode → ℤ → ℤ → Node
    directory_at : Contents → Node

  -- What `opendir` says of a directory.
  pub data Contents : Type 0 where
    unreadable : Contents
    opened : Entries → Contents

-- `struct files_types`
pub record FilesTypes : Type 0 where
  pub directory : ℕ
  pub hidden : ℕ
  pub special_file : ℕ
  pub symlink : ℕ
  pub regular_file : ℕ
  pub total : ℕ
  pub unknown : ℕ

abbrev pub no_files : FilesTypes
no_files = record {
  directory = 0;
  hidden = 0;
  special_file = 0;
  symlink = 0;
  regular_file = 0;
  total = 0;
  unknown = 0;
}

abbrev pub files_ignore_symlinks : ℕ
files_ignore_symlinks = 2

abbrev pub files_ignore_unknown : ℕ
files_ignore_unknown = 4

abbrev pub files_include_hidden : ℕ
files_include_hidden = 8

abbrev pub files_recursive : ℕ
files_recursive = 16

abbrev pub files_regular_only : ℕ
files_regular_only = 32

-- `flags & flag`, for a flag of one bit
abbrev pub has : ℕ → ℕ → Bool
has flags flag = (flags / flag) % 2 == 1

unfoldable pub files_is_hidden : Bytes → Bool
files_is_hidden [] = false
files_is_hidden (c ∷ cs) = c == b'.'

unfoldable pub files_check_age : ℤ → ℤ → ℤ → Bool
unfolding ◌+ℤ◌ ◌-ℤ◌
files_check_age age now filemtime =
    let negative = ltb_ℤ age (pos 0) in
    let positive = ltb_ℤ (pos 0) age in
    let mtime = if negative then now +ℤ age else now -ℤ age in
    if not negative && not positive
    then true
    else (negative && ltb_ℤ mtime filemtime) || (positive && ltb_ℤ filemtime mtime)

unfoldable pub files_check_size : ℤ → ℤ → Bool
unfolding ◌*ℤ◌
files_check_size size filesize =
    let negative = ltb_ℤ size (pos 0) in
    let positive = ltb_ℤ (pos 0) size in
    let abs_size = if negative then negsuc 0 *ℤ size else size in
    if not negative && not positive
    then true
    else (negative && ltb_ℤ filesize abs_size) || (positive && ltb_ℤ abs_size filesize)

module _ (fnmatch : Bytes → Bytes → Bool) (flags : ℕ) (age size now : ℤ)
    (pattern : Option Bytes) where
  -- `0 == files_filematch (pattern, name)`
  files_filematch : Option Bytes → Bytes → Bool
  files_filematch none name = true
  files_filematch (some p) name = fnmatch p name

  abbrev count_hidden : Bool → FilesTypes → FilesTypes
  count_hidden is_hidden c = if is_hidden then record c { hidden = c.hidden + 1 } else c

  abbrev count_total : FilesTypes → FilesTypes
  count_total c = record c { total = c.total + 1 }

  -- The cases of the `switch`: the four modes of a special file together.
  special : FilesTypes → FilesTypes
  special c =
      let c' = record c { special_file = c.special_file + 1 } in
      if has flags files_regular_only then c' else count_total c'

  -- The `default` case, which a directory reaches too.
  unknown_file : FilesTypes → FilesTypes
  unknown_file c =
      let c' = record c { unknown = c.unknown + 1 } in
      if has flags files_ignore_unknown then c' else count_total c'

  symbolic_link : FilesTypes → FilesTypes
  symbolic_link c =
      if has flags files_ignore_symlinks || has flags files_regular_only
      then c
      else count_total (record c { symlink = c.symlink + 1 })

  regular : Bool → ℤ → ℤ → FilesTypes → FilesTypes
  unfolding files_check_age files_check_size
  regular is_hidden mtime filesize c =
      if files_check_age age now mtime && files_check_size size filesize
      then count_total (count_hidden is_hidden (record c { regular_file = c.regular_file + 1 }))
      else c

  switch_mode : Mode → Bool → ℤ → ℤ → FilesTypes → FilesTypes
  unfolding special unknown_file symbolic_link regular
  switch_mode s_ifblk is_hidden mtime filesize c = special c
  switch_mode s_ifchr is_hidden mtime filesize c = special c
  switch_mode s_ififo is_hidden mtime filesize c = special c
  switch_mode s_ifsock is_hidden mtime filesize c = special c
  switch_mode s_iflnk is_hidden mtime filesize c = symbolic_link c
  switch_mode s_ifreg is_hidden mtime filesize c = regular is_hidden mtime filesize c
  switch_mode unknown_mode is_hidden mtime filesize c = unknown_file c

  -- What is counted for a directory in front of the recursive call.
  found_directory : Bytes → FilesTypes → FilesTypes
  unfolding files_filematch files_is_hidden
  found_directory name c =
      if not (has flags files_regular_only) && files_filematch pattern name
      then count_hidden (files_is_hidden name)
          (record c { directory = c.directory + 1; total = c.total + 1 })
      else c

  -- A directory that is not entered.
  other_directory : Bytes → FilesTypes → FilesTypes
  unfolding files_filematch unknown_file
  other_directory name c =
      if not (has flags files_regular_only) && files_filematch pattern name
      then unknown_file c
      else c

  -- The second test of the pattern, before `total++`, can only agree with the first.
  found_file : Mode → Bytes → ℤ → ℤ → FilesTypes → FilesTypes
  unfolding switch_mode files_filematch files_is_hidden
  found_file mode name mtime filesize c =
      if files_filematch pattern name
      then switch_mode mode (files_is_hidden name) mtime filesize c
      else c

  -- The two tests at the head of the loop.
  ignored : Bytes → Bool
  unfolding files_is_hidden
  ignored name =
      streq name (codes ".")
      || streq name (codes "..")
      || (not (has flags files_include_hidden) && files_is_hidden name)

  unfoldable mutual
    unfolding found_directory other_directory found_file ignored

    pub scan : Entries → FilesTypes → Outcome FilesTypes
    scan end_of_directory c = returns c
    scan readdir_failure c = plugin_error state_unknown
    scan (entry name node rest) c =
        let visited = visit node name c in
        (if ignored name then returns c else visited) >>= λ c'. scan rest c'

    pub visit : Node → Bytes → FilesTypes → Outcome FilesTypes
    visit lstat_failure name c = plugin_error state_unknown
    visit (file mode mtime filesize) name c = returns (found_file mode name mtime filesize c)
    visit (directory_at contents) name c =
        let inside = descend contents (found_directory name c) in
        if has flags files_recursive then inside else returns (other_directory name c)

    -- The value of a recursive call is not looked at.
    pub descend : Contents → FilesTypes → Outcome FilesTypes
    descend unreadable c = returns c
    descend (opened entries) c = scan entries c

  -- The value returned, and `*filecount`, which is allocated only if the directory opens.
  files_found : FilesTypes → Outcome (ℤ × Option FilesTypes)
  files_found c = returns (pos 0, some c)

  initial : Option FilesTypes → FilesTypes
  initial none = no_files
  initial (some c) = c

  unfoldable pub files_filecount : Contents → Option FilesTypes → Outcome (ℤ × Option FilesTypes)
  unfolding files_found initial
  files_filecount unreadable filecount = returns (negsuc 0, filecount)
  files_filecount (opened entries) filecount =
      scan entries (initial filecount) >>= λ c. files_found c
