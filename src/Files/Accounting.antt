-- ===== src/Files/Accounting.antt =====
-- The counters of lib/files.c agree with one another over every tree of directories.
use nagios_plugins_linux.Base.{
  ℕ, ◌+◌, ◌≡◌, refl, Bool, true, false, Option, none, some, Bytes, arith, if◌then◌else◌, Bool-cases,
  inl, inr,
}
use mathlib.Core.Path.{subst}
use nagios_plugins_linux.Base.Int.{ℤ}
use nagios_plugins_linux.Messages.{Outcome, returns, exits, ◌>>=◌, plugin_error}
use nagios_plugins_linux.Files.{
  Mode, s_ifblk, Entries, end_of_directory, readdir_failure, entry, Node, lstat_failure, file,
  directory_at, Contents, unreadable, opened, FilesTypes, has, files_regular_only,
  files_ignore_unknown, files_recursive, switch_mode, found_directory, other_directory, found_file,
  initial, files_found, files_filematch, ignored, scan, visit, descend, files_filecount,
}

abbrev pub Ensures : (FilesTypes → Type 0) → Outcome FilesTypes → Type 0
Ensures P (returns c) = P c
Ensures P (exits s) = Unit

Ensures-bind :
    (P : FilesTypes → Type 0) (m : Outcome FilesTypes) (f : FilesTypes → Outcome FilesTypes)
    → Ensures P m
    → ((c : FilesTypes) → P c → Ensures P (f c))
    → Ensures P (m >>= f)
Ensures-bind P (returns c) f h k = k c h
Ensures-bind P (exits s) f h k = tt

Ensures-if :
    (P : FilesTypes → Type 0) (b : Bool) (m n : Outcome FilesTypes)
    → Ensures P m
    → Ensures P n
    → Ensures P (if b then m else n)
Ensures-if P true m n hm hn = hm
Ensures-if P false m n hm hn = hn

-- A total is the sum of what it is made of: special files are left out of it under
-- FILES_REGULAR_ONLY, and unknown ones under FILES_IGNORE_UNKNOWN.
abbrev pub Balanced : ℕ → FilesTypes → Type 0
Balanced flags c =
    c.total
    ≡ c.directory
      + c.symlink
      + c.regular_file
      + (if has flags files_regular_only then 0 else c.special_file)
      + (if has flags files_ignore_unknown then 0 else c.unknown)

module _ (fnmatch : Bytes → Bytes → Bool) (flags : ℕ) (age size now : ℤ)
    (pattern : Option Bytes) where
  switch_mode-Balanced :
      (mode : Mode) (hidden : Bool) (mtime filesize : ℤ) (c : FilesTypes)
      → Balanced flags c
      → Balanced flags (switch_mode fnmatch flags age size now pattern mode hidden mtime filesize c)
  unfolding switch_mode
  switch_mode-Balanced s_ifblk hidden mtime filesize c h = ground arith
  switch_mode-Balanced mode hidden mtime filesize c h = ground arith

  found_directory-Balanced :
      (name : Bytes) (c : FilesTypes)
      → Balanced flags c
      → Balanced flags (found_directory fnmatch flags age size now pattern name c)
  unfolding found_directory
  found_directory-Balanced name c h = ground arith

  other_directory-Balanced :
      (name : Bytes) (c : FilesTypes)
      → Balanced flags c
      → Balanced flags (other_directory fnmatch flags age size now pattern name c)
  unfolding other_directory
  other_directory-Balanced name c h = ground arith

  found_file-Balanced :
      (mode : Mode) (name : Bytes) (mtime filesize : ℤ) (c : FilesTypes)
      → Balanced flags c
      → Balanced flags (found_file fnmatch flags age size now pattern mode name mtime filesize c)
  unfolding found_file files_filematch
  found_file-Balanced mode name mtime filesize c h =
      elim (Bool-cases (files_filematch fnmatch flags age size now pattern pattern name)) [
        | inl e ↦ rw e (switch_mode-Balanced mode _ mtime filesize c h)
        | inr n ↦ rw n h
      ]

  mutual
    unfolding scan visit descend plugin_error

    scan-Balanced :
        (es : Entries) (c : FilesTypes)
        → Balanced flags c
        → Ensures (Balanced flags) (scan fnmatch flags age size now pattern es c)
    scan-Balanced end_of_directory c h = h
    scan-Balanced readdir_failure c h = tt
    scan-Balanced (entry name node rest) c h =
        Ensures-bind (Balanced flags) _ _
          (Ensures-if (Balanced flags) (ignored fnmatch flags age size now pattern name) _ _ h
            (visit-Balanced node name c h))
          (λ c' h'. scan-Balanced rest c' h')

    visit-Balanced :
        (node : Node) (name : Bytes) (c : FilesTypes)
        → Balanced flags c
        → Ensures (Balanced flags) (visit fnmatch flags age size now pattern node name c)
    visit-Balanced lstat_failure name c h = tt
    visit-Balanced (file mode mtime filesize) name c h =
        found_file-Balanced mode name mtime filesize c h
    visit-Balanced (directory_at contents) name c h =
        Ensures-if (Balanced flags) (has flags files_recursive) _ _
          (descend-Balanced contents (found_directory fnmatch flags age size now pattern name c)
            (found_directory-Balanced name c h))
          (other_directory-Balanced name c h)

    descend-Balanced :
        (contents : Contents) (c : FilesTypes)
        → Balanced flags c
        → Ensures (Balanced flags) (descend fnmatch flags age size now pattern contents c)
    descend-Balanced unreadable c h = h
    descend-Balanced (opened entries) c h = scan-Balanced entries c h

  initial-Balanced :
      (filecount : Option FilesTypes)
      → ((old : FilesTypes) → filecount ≡ some old → Balanced flags old)
      → Balanced flags (initial fnmatch flags age size now pattern filecount)
  unfolding initial
  initial-Balanced none h = ground arith
  initial-Balanced (some old) h = h old refl

  found-Balanced :
      (m : Outcome FilesTypes) (code : ℤ) (c : FilesTypes)
      → Ensures (Balanced flags) m
      → (m >>= files_found fnmatch flags age size now pattern) ≡ returns (code, some c)
      → Balanced flags c
  unfolding files_found
  found-Balanced (returns x) code c b e = let q : x ≡ c = cc in subst (Balanced flags) q b
  found-Balanced (exits s) code c b e = cc

  -- Whenever the count returns, the total is the sum of the directories, the symbolic links, the
  -- regular files, the special files (without FILES_REGULAR_ONLY) and the unknown ones (without
  -- FILES_IGNORE_UNKNOWN), however deep the tree, if that held of the counters before, as it does
  -- of fresh ones.
  pub files_filecount-Balanced :
      (contents : Contents) (filecount : Option FilesTypes) (code : ℤ) (c : FilesTypes)
      → ((old : FilesTypes) → filecount ≡ some old → Balanced flags old)
      → files_filecount fnmatch flags age size now pattern contents filecount
        ≡ returns (code, some c)
      → Balanced flags c
  unfolding files_filecount
  files_filecount-Balanced unreadable filecount code c h e = h c (cc)
  files_filecount-Balanced (opened entries) filecount code c h e =
      found-Balanced
        (scan fnmatch flags age size now pattern entries
          (initial fnmatch flags age size now pattern filecount))
        code c
        (scan-Balanced entries (initial fnmatch flags age size now pattern filecount)
          (initial-Balanced filecount h))
        e
