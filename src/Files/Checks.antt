-- ===== src/Files/Checks.antt =====
-- The tests of age and size in lib/files.c.
use nagios_plugins_linux.Base.{◌≡◌, ◌↔◌, true, arith}
use nagios_plugins_linux.Base.Int.{ℤ, pos, ◌-ℤ◌, ◌<ℤ◌}
use nagios_plugins_linux.Files.{files_check_age, files_check_size}

-- A positive age selects the files that were modified more than that many seconds ago, a negative
-- one those that were modified less than that many seconds ago, and 0 selects every file.
pub files_check_age_lem :
    (age now filemtime : ℤ)
    → (pos 0 <ℤ age → (files_check_age age now filemtime ≡ true) ↔ (age <ℤ (now -ℤ filemtime)))
      × (age <ℤ pos 0
          → (files_check_age age now filemtime ≡ true) ↔ ((now -ℤ filemtime) <ℤ (pos 0 -ℤ age)))
      × (age ≡ pos 0 → files_check_age age now filemtime ≡ true)
unfolding files_check_age
files_check_age_lem age now filemtime = (λ h. ground arith, λ h. ground arith, λ h. ground arith)

-- A positive size selects the files with more bytes, a negative one those with fewer bytes than its
-- absolute value, and 0 selects every file.
pub files_check_size_lem :
    (size filesize : ℤ)
    → (pos 0 <ℤ size → (files_check_size size filesize ≡ true) ↔ (size <ℤ filesize))
      × (size <ℤ pos 0 → (files_check_size size filesize ≡ true) ↔ (filesize <ℤ (pos 0 -ℤ size)))
      × (size ≡ pos 0 → files_check_size size filesize ≡ true)
unfolding files_check_size ◌-ℤ◌
files_check_size_lem size filesize = (λ h. ground arith, λ h. ground arith, λ h. ground arith)
