-- ===== src/Files/Returns.antt =====
-- lib/files.c comes to an end on every tree that can be read.
use nagios_plugins_linux.Base.{
  ◌≡◌, refl, Bool, true, false, ◌&&◌, Option, none, some, Bytes, ℕ, arith, if◌then◌else◌,
}
use nagios_plugins_linux.Base.Int.{ℤ, pos}
use nagios_plugins_linux.Messages.{Outcome, returns, ◌>>=◌}
use nagios_plugins_linux.Files.{
  Entries, end_of_directory, readdir_failure, entry, Node, lstat_failure, file, directory_at,
  Contents, unreadable, opened, FilesTypes, has, files_recursive, found_directory, initial,
  files_found, ignored, scan, visit, descend, files_filecount,
}
use nagios_plugins_linux.Files.Accounting.{Balanced, files_filecount-Balanced}

-- No call of `readdir` or `lstat` fails; a directory below may fail to open.
unfoldable mutual
  pub is_readable : Entries → Bool
  is_readable end_of_directory = true
  is_readable readdir_failure = false
  is_readable (entry name node rest) = is_known node && is_readable rest

  pub is_known : Node → Bool
  is_known lstat_failure = false
  is_known (file mode mtime filesize) = true
  is_known (directory_at contents) = is_open contents

  pub is_open : Contents → Bool
  is_open unreadable = true
  is_open (opened entries) = is_readable entries

abbrev Returns : Outcome FilesTypes → Type 0
Returns m = (c : FilesTypes) × (m ≡ returns c)

Returns-if :
    (t : Bool) (m n : Outcome FilesTypes) → Returns m → Returns n → Returns (if t then m else n)
Returns-if true m n hm hn = hm
Returns-if false m n hm hn = hn

Returns-bind :
    (m : Outcome FilesTypes) (f : FilesTypes → Outcome FilesTypes)
    → Returns m
    → ((c : FilesTypes) → Returns (f c))
    → Returns (m >>= f)
Returns-bind m f (c, e) hf = rw e (hf c)

&&-split : (a b : Bool) → (a && b) ≡ true → (a ≡ true) × (b ≡ true)
&&-split a b h = ground arith

module _ (fnmatch : Bytes → Bytes → Bool) (flags : ℕ) (age size now : ℤ)
    (pattern : Option Bytes) where
  mutual
    unfolding scan visit descend is_readable is_known is_open

    scan-Returns :
        (es : Entries) (c : FilesTypes)
        → is_readable es ≡ true
        → Returns (scan fnmatch flags age size now pattern es c)
    scan-Returns end_of_directory c h = (c, refl)
    scan-Returns readdir_failure c h = cc
    scan-Returns (entry name node rest) c h =
        let (known, readable) = &&-split (is_known node) (is_readable rest) h in
        Returns-bind _ _
          (Returns-if (ignored fnmatch flags age size now pattern name) _ _ (c, refl)
            (visit-Returns node name c known))
          (λ c'. scan-Returns rest c' readable)

    visit-Returns :
        (node : Node) (name : Bytes) (c : FilesTypes)
        → is_known node ≡ true
        → Returns (visit fnmatch flags age size now pattern node name c)
    visit-Returns lstat_failure name c h = cc
    visit-Returns (file mode mtime filesize) name c h = (_, refl)
    visit-Returns (directory_at contents) name c h =
        Returns-if (has flags files_recursive) _ _
          (descend-Returns contents (found_directory fnmatch flags age size now pattern name c) h)
          (_, refl)

    descend-Returns :
        (contents : Contents) (c : FilesTypes)
        → is_open contents ≡ true
        → Returns (descend fnmatch flags age size now pattern contents c)
    descend-Returns unreadable c h = (c, refl)
    descend-Returns (opened entries) c h = scan-Returns entries c h

  -- On a directory whose tree can be read, `files_filecount` returns 0 with a count, and the count
  -- of a first call, which starts from no counters, is balanced.
  pub files_filecount-returns :
      (entries : Entries)
      → is_readable entries ≡ true
      → (c : FilesTypes) × (files_filecount fnmatch flags age size now pattern (opened entries) none
          ≡ returns (pos 0, some c))
        × Balanced flags c
  unfolding files_filecount files_found
  files_filecount-returns entries h =
      let (c, e) = scan-Returns entries (initial fnmatch flags age size now pattern none) h in
      let found : files_filecount fnmatch flags age size now pattern (opened entries) none
          ≡ returns (pos 0, some c) =
        rw e refl in
      (
        c,
        found,
        files_filecount-Balanced fnmatch flags age size now pattern (opened entries) none (pos 0) c
            (λ old q. cc) found,
      )
