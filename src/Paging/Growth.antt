-- ===== src/Paging/Growth.antt =====
-- The summary of plugins/check_paging.c is what its counters grew by.
use nagios_plugins_linux.Base.{ℕ, ◌+◌, ◌^◌, ◌<◌, ◌≤◌, ◌≡◌, true, false, some, arith, add64, sub64}
use nagios_plugins_linux.Vminfo.{ProcVmem, proc_vmem_get}
use nagios_plugins_linux.Paging.{paging_of}

two_grown :
    (a a' c c' : ℕ)
    → a ≤ a'
    → c ≤ c'
    → a' + c' < 2 ^ 64
    → add64 (sub64 a' a) (sub64 c' c) + (a + c) ≡ a' + c'
two_grown a a' c c' h k l = omega arith

one_grown : (a a' : ℕ) → a ≤ a' → a' < 2 ^ 64 → sub64 a' a + a ≡ a'
one_grown a a' h l = omega arith

-- With `--swapping-only` and swap counters that do not run backwards, the summary is what both
-- together grew by.
pub paging_of-swapping :
    (v v' : ProcVmem)
    → v.contents.pswpin ≤ v'.contents.pswpin
    → v.contents.pswpout ≤ v'.contents.pswpout
    → v'.contents.pswpin + v'.contents.pswpout < 2 ^ 64
    → (paging_of true (some v) (some v')).summary + (v.contents.pswpin + v.contents.pswpout)
      ≡ v'.contents.pswpin + v'.contents.pswpout
unfolding paging_of proc_vmem_get
paging_of-swapping v v' h k l = two_grown _ _ _ _ h k l

-- Without it, and with a counter of the major faults that does not run backwards, the summary is
-- what that one grew by.
pub paging_of-faults :
    (v v' : ProcVmem)
    → v.contents.pgmajfault ≤ v'.contents.pgmajfault
    → v'.contents.pgmajfault < 2 ^ 64
    → (paging_of false (some v) (some v')).summary + v.contents.pgmajfault ≡ v'.contents.pgmajfault
unfolding paging_of proc_vmem_get
paging_of-faults v v' h l = one_grown _ _ h l
