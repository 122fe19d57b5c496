-- ===== src/Meminfo.antt =====
-- lib/meminfo.c: the memory figures of /proc/meminfo and the values derived from them. An
-- `unsigned long` has 64 bits.
pub mod Derived
pub mod Parsed
pub mod Fallbacks
use nagios_plugins_linux.Base.{
  ℕ, ◌+◌, ◌-◌, ◌*◌, ◌/◌, ◌^◌, Bool, ◌&&◌, [], ◌∷◌, List, Option, none, some, Bytes, String, codes,
  ltb, leb, ◌==◌, if◌then◌else◌, min, u64, add64, sub64, ulong_max,
}
use nagios_plugins_linux.Base.Int.{ℤ, pos, negsuc, ◌-ℤ◌, ltb_ℤ}
use nagios_plugins_linux.Messages.{Outcome, returns, exits, ◌>>=◌}
use nagios_plugins_linux.Procparser.{Row, Bsearch, procparser}

-- `struct proc_sysmem_data`
pub record ProcSysmemData : Type 0 where
  pub kb_main_buffers : ℕ
  pub kb_page_cache : ℕ
  pub kb_main_free : ℕ
  pub kb_main_total : ℕ
  pub kb_swap_free : ℕ
  pub kb_swap_total : ℕ
  pub kb_main_shared : ℕ
  pub kb_high_total : ℕ
  pub kb_low_free : ℕ
  pub kb_low_total : ℕ
  pub kb_active : ℕ
  pub kb_inact_laundry : ℕ
  pub kb_inact_dirty : ℕ
  pub kb_inact_clean : ℕ
  pub kb_swap_cached : ℕ
  pub kb_slab : ℕ
  pub kb_committed_as : ℕ
  pub kb_dirty : ℕ
  pub kb_inactive : ℕ
  pub kb_slab_reclaimable : ℕ
  pub kb_anon_pages : ℕ
  pub kb_active_file : ℕ
  pub kb_inactive_file : ℕ
  pub kb_main_available : ℕ
  pub kb_main_cached : ℕ
  pub kb_main_used : ℕ

-- The memory that `calloc` returns.
abbrev pub zeroed : ProcSysmemData
zeroed = record {
  kb_main_buffers = 0;
  kb_page_cache = 0;
  kb_main_free = 0;
  kb_main_total = 0;
  kb_swap_free = 0;
  kb_swap_total = 0;
  kb_main_shared = 0;
  kb_high_total = 0;
  kb_low_free = 0;
  kb_low_total = 0;
  kb_active = 0;
  kb_inact_laundry = 0;
  kb_inact_dirty = 0;
  kb_inact_clean = 0;
  kb_swap_cached = 0;
  kb_slab = 0;
  kb_committed_as = 0;
  kb_dirty = 0;
  kb_inactive = 0;
  kb_slab_reclaimable = 0;
  kb_anon_pages = 0;
  kb_active_file = 0;
  kb_inactive_file = 0;
  kb_main_available = 0;
  kb_main_cached = 0;
  kb_main_used = 0;
}

-- `struct proc_sysmem`; `none` is a null pointer, or memory that was freed.
pub record ProcSysmem : Type 0 where
  pub refcount : ℤ
  pub contents : ProcSysmemData

-- MEMINFO_UNSET
abbrev pub meminfo_unset : ℕ
meminfo_unset = ulong_max

abbrev row : String → (ℕ → ProcSysmemData → ProcSysmemData) → Row ProcSysmemData
row name slot = record { name = codes name; slot = slot }

unfoldable pub sysmem_table : List (Row ProcSysmemData)
sysmem_table =
    row "Active" (λ v m. record m { kb_active = v })
    ∷ row "Active(file)" (λ v m. record m { kb_active_file = v })
    ∷ row "AnonPages" (λ v m. record m { kb_anon_pages = v })
    ∷ row "Buffers" (λ v m. record m { kb_main_buffers = v })
    ∷ row "Cached" (λ v m. record m { kb_page_cache = v })
    ∷ row "Committed_AS" (λ v m. record m { kb_committed_as = v })
    ∷ row "Dirty" (λ v m. record m { kb_dirty = v })
    ∷ row "HighTotal" (λ v m. record m { kb_high_total = v })
    ∷ row "Inact_clean" (λ v m. record m { kb_inact_clean = v })
    ∷ row "Inact_dirty" (λ v m. record m { kb_inact_dirty = v })
    ∷ row "Inact_laundry" (λ v m. record m { kb_inact_laundry = v })
    ∷ row "Inactive" (λ v m. record m { kb_inactive = v })
    ∷ row "Inactive(file)" (λ v m. record m { kb_inactive_file = v })
    ∷ row "LowFree" (λ v m. record m { kb_low_free = v })
    ∷ row "LowTotal" (λ v m. record m { kb_low_total = v })
    ∷ row "MemAvailable" (λ v m. record m { kb_main_available = v })
    ∷ row "MemFree" (λ v m. record m { kb_main_free = v })
    ∷ row "MemTotal" (λ v m. record m { kb_main_total = v })
    ∷ row "SReclaimable" (λ v m. record m { kb_slab_reclaimable = v })
    ∷ row "Shmem" (λ v m. record m { kb_main_shared = v })
    ∷ row "Slab" (λ v m. record m { kb_slab = v })
    ∷ row "SwapCached" (λ v m. record m { kb_swap_cached = v })
    ∷ row "SwapFree" (λ v m. record m { kb_swap_free = v })
    ∷ row "SwapTotal" (λ v m. record m { kb_swap_total = v })
    ∷ []

-- What is unset before the file is read.
abbrev pub preset : ProcSysmemData → ProcSysmemData
preset m = record m {
  kb_inactive = meminfo_unset;
  kb_low_total = meminfo_unset;
  kb_main_available = meminfo_unset;
}

unfoldable pub low_fallback : ProcSysmemData → ProcSysmemData
low_fallback m =
    if m.kb_low_total == 0
    then record m { kb_low_total = m.kb_main_total; kb_low_free = m.kb_main_free }
    else m

unfoldable pub inactive_fallback : ProcSysmemData → ProcSysmemData
inactive_fallback m =
    if m.kb_inactive == meminfo_unset
    then record m {
      kb_inactive = add64 (add64 m.kb_inact_dirty m.kb_inact_clean) m.kb_inact_laundry;
    }
    else m

-- The estimate for kernels without MemAvailable. The operands are `unsigned long`, so the sum wraps
-- modulo 2 ^ 64; then it is read as a `signed long`, and a negative value becomes 0.
unfoldable pub estimate : ℕ → ProcSysmemData → ℕ
estimate kb_min_free m =
    let watermark_low = u64 (kb_min_free * 5) / 4 in
    let cache = add64 m.kb_inactive_file m.kb_active_file in
    let mem_available =
      sub64
        (add64
          (sub64
            (add64 (add64 (sub64 m.kb_main_free watermark_low) m.kb_inactive_file) m.kb_active_file)
            (min (cache / 2) watermark_low))
          m.kb_slab_reclaimable)
        (min (m.kb_slab_reclaimable / 2) watermark_low) in
    if leb (2 ^ 63) mem_available then 0 else mem_available

-- `old_kernel` is the test `linux_version () < KERNEL_VERSION (2, 6, 27)`, and `kb_min_free` what the
-- variable of that name holds once /proc/sys/vm/min_free_kbytes was read.
unfoldable pub available_fallback : Bool → ℕ → ProcSysmemData → ProcSysmemData
unfolding estimate
available_fallback old_kernel kb_min_free m =
    if m.kb_main_available == meminfo_unset
    then record m {
      kb_main_available = if old_kernel then m.kb_main_free else estimate kb_min_free m;
    }
    else m

unfoldable pub derive : ProcSysmemData → ProcSysmemData
derive m =
    let cached = add64 m.kb_page_cache m.kb_slab_reclaimable in
    record m {
      kb_main_cached = cached;
      kb_main_used = sub64 (sub64 (sub64 m.kb_main_total m.kb_main_free) cached) m.kb_main_buffers;
    }

-- All that `proc_sysmem_read` does to the structure; `lines` is /proc/meminfo, if it can be opened.
unfoldable pub read_data :
    Bsearch → Option (List Bytes) → Bool → ℕ → ProcSysmemData → Outcome ProcSysmemData
unfolding sysmem_table low_fallback inactive_fallback available_fallback derive
read_data b lines old_kernel kb_min_free m = do
  parsed ← procparser b sysmem_table lines b':' (preset m)
  returns
      (derive (available_fallback old_kernel kb_min_free (inactive_fallback (low_fallback parsed))))

unfoldable pub proc_sysmem_read :
    Bsearch → Option (List Bytes) → Bool → ℕ → Option ProcSysmem → Outcome (Option ProcSysmem)
unfolding read_data
proc_sysmem_read b lines old_kernel kb_min_free none = returns none
proc_sysmem_read b lines old_kernel kb_min_free (some sysmem) = do
  m ← read_data b lines old_kernel kb_min_free sysmem.contents
  returns (some (record sysmem { contents = m }))

-- The value returned and `*sysmem` afterwards; the flags say whether each `calloc` returned memory.
unfoldable pub proc_sysmem_new : Bool → Bool → Option ProcSysmem → ℤ × Option ProcSysmem
proc_sysmem_new first second old =
    if first && second
    then (pos 0, some (record { refcount = pos 1; contents = zeroed }))
    else (negsuc 11, old)

unfoldable pub proc_sysmem_unref : Option ProcSysmem → Option ProcSysmem
proc_sysmem_unref none = none
proc_sysmem_unref (some sysmem) =
    let count = sysmem.refcount -ℤ pos 1 in
    if ltb_ℤ (pos 0) count then some (record sysmem { refcount = count }) else none

-- The getters of the macro `proc_sysmem_get`, each by its field.
unfoldable pub proc_sysmem_get : (ProcSysmemData → ℕ) → Option ProcSysmem → ℕ
proc_sysmem_get field none = 0
proc_sysmem_get field (some sysmem) = field sysmem.contents

unfoldable pub proc_sysmem_get_swap_used : Option ProcSysmem → ℕ
proc_sysmem_get_swap_used none = 0
proc_sysmem_get_swap_used (some sysmem) =
    sub64 sysmem.contents.kb_swap_total sysmem.contents.kb_swap_free
