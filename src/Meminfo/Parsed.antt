-- ===== src/Meminfo/Parsed.antt =====
-- What `proc_sysmem_read` of lib/meminfo.c leaves in the structure, from the lines of the file.
use nagios_plugins_linux.Base.{
  ℕ, ◌≡◌, refl, ap, ◌∙◌, Bool, true, List, some, Bytes, codes, arith, length, ◌<◌, add64, sub64,
}
use mathlib.Core.Option.{get_or}
use nagios_plugins_linux.Messages.{returns}
use nagios_plugins_linux.Procparser.{Bsearch, is_sorted, parse_lines, procparser, namebuf_size}
use nagios_plugins_linux.Procparser.Rows.{last_value, names, Owns, named, parse_lines-last_value}
use nagios_plugins_linux.Meminfo.{
  ProcSysmemData, meminfo_unset, sysmem_table, preset, low_fallback, inactive_fallback,
  available_fallback, derive, read_data,
}

-- The figures that are taken from the file as they stand there.
pub data Figure : Type 0 where
  active anon_pages committed_as dirty main_buffers page_cache main_free main_shared main_total :
      Figure
  slab_reclaimable active_file inactive_file swap_cached swap_free swap_total : Figure

abbrev pub label : Figure → Bytes
label active = codes "Active"
label anon_pages = codes "AnonPages"
label committed_as = codes "Committed_AS"
label dirty = codes "Dirty"
label main_buffers = codes "Buffers"
label page_cache = codes "Cached"
label main_free = codes "MemFree"
label main_shared = codes "Shmem"
label main_total = codes "MemTotal"
label slab_reclaimable = codes "SReclaimable"
label active_file = codes "Active(file)"
label inactive_file = codes "Inactive(file)"
label swap_cached = codes "SwapCached"
label swap_free = codes "SwapFree"
label swap_total = codes "SwapTotal"

abbrev pub figure : Figure → ProcSysmemData → ℕ
figure active m = m.kb_active
figure anon_pages m = m.kb_anon_pages
figure committed_as m = m.kb_committed_as
figure dirty m = m.kb_dirty
figure main_buffers m = m.kb_main_buffers
figure page_cache m = m.kb_page_cache
figure main_free m = m.kb_main_free
figure main_shared m = m.kb_main_shared
figure main_total m = m.kb_main_total
figure slab_reclaimable m = m.kb_slab_reclaimable
figure active_file m = m.kb_active_file
figure inactive_file m = m.kb_inactive_file
figure swap_cached m = m.kb_swap_cached
figure swap_free m = m.kb_swap_free
figure swap_total m = m.kb_swap_total

sysmem_table-is_sorted : is_sorted (names sysmem_table) ≡ true
unfolding sysmem_table
sysmem_table-is_sorted = refl

label_short : (f : Figure) → length (label f) < namebuf_size
label_short active = omega arith
label_short f = omega arith

label-named : (f : Figure) → named (label f) sysmem_table ≡ true
unfolding sysmem_table
label-named active = refl
label-named f = refl

label-Owns : (f : Figure) → Owns (label f) (figure f) sysmem_table
unfolding sysmem_table
label-Owns active = omega arith
label-Owns f = omega arith

-- The steps behind the parser leave these figures alone.
pub figure-low_fallback : (f : Figure) (m : ProcSysmemData) → figure f (low_fallback m) ≡ figure f m
unfolding low_fallback
figure-low_fallback active m = ground arith
figure-low_fallback f m = ground arith

pub figure-inactive_fallback :
    (f : Figure) (m : ProcSysmemData) → figure f (inactive_fallback m) ≡ figure f m
unfolding inactive_fallback
figure-inactive_fallback active m = ground arith
figure-inactive_fallback f m = ground arith

module _ (old_kernel : Bool) (kb_min_free : ℕ) where
  abbrev pub finish : ProcSysmemData → ProcSysmemData
  finish m = derive (available_fallback old_kernel kb_min_free (inactive_fallback (low_fallback m)))

  figure-available_fallback :
      (f : Figure) (m : ProcSysmemData)
      → figure f (derive (available_fallback old_kernel kb_min_free m)) ≡ figure f m
  unfolding available_fallback derive
  figure-available_fallback active m = ground arith
  figure-available_fallback f m = ground arith

  pub figure-finish : (f : Figure) (m : ProcSysmemData) → figure f (finish m) ≡ figure f m
  figure-finish f m =
      figure-available_fallback f (inactive_fallback (low_fallback m))
      ∙ figure-inactive_fallback f (low_fallback m)
      ∙ figure-low_fallback f m

-- The used memory is the total without the free one, the caches and the buffers.
abbrev pub IsUsed : ProcSysmemData → Type 0
IsUsed m =
    m.kb_main_used
    ≡ sub64
        (sub64 (sub64 m.kb_main_total m.kb_main_free) (add64 m.kb_page_cache m.kb_slab_reclaimable))
        m.kb_main_buffers

derive-IsUsed : (m : ProcSysmemData) → IsUsed (derive m)
unfolding derive
derive-IsUsed m = refl

figure-preset : (f : Figure) (m : ProcSysmemData) → figure f (preset m) ≡ figure f m
figure-preset active m = refl
figure-preset f m = refl

module _ (b : Bsearch) (lines : List Bytes) (old_kernel : Bool) (kb_min_free : ℕ)
    (m : ProcSysmemData) where
  abbrev pub parsed : ProcSysmemData
  parsed = parse_lines b sysmem_table b':' lines (preset m)

  pub read_data-parsed :
      read_data b (some lines) old_kernel kb_min_free m
      ≡ returns (finish old_kernel kb_min_free parsed)
  unfolding read_data procparser
  read_data-parsed = refl

  figure-parsed :
      (f : Figure) → figure f parsed ≡ get_or (last_value (label f) b':' lines) (figure f m)
  figure-parsed f =
      parse_lines-last_value b sysmem_table sysmem_table-is_sorted (figure f) (label f)
        (label_short f) (label-Owns f) (label-named f) b':' lines (preset m)
      ∙ ap (get_or (last_value (label f) b':' lines)) (figure-preset f m)

  -- Once the file is read, every figure that is taken over is the value of the last line with its
  -- label, and the old one where the file has no such line.
  pub read_data-figure :
      (m' : ProcSysmemData) × (read_data b (some lines) old_kernel kb_min_free m ≡ returns m')
      × ((f : Figure) → figure f m' ≡ get_or (last_value (label f) b':' lines) (figure f m))
  read_data-figure = (
    finish old_kernel kb_min_free parsed,
    read_data-parsed,
    λ f. figure-finish old_kernel kb_min_free f parsed ∙ figure-parsed f,
  )

  -- The same for the used memory, which is derived from the figures.
  pub read_data-IsUsed :
      (m' : ProcSysmemData) × (read_data b (some lines) old_kernel kb_min_free m ≡ returns m')
      × IsUsed m'
      × ((f : Figure) → figure f m' ≡ get_or (last_value (label f) b':' lines) (figure f m))
  read_data-IsUsed = (
    finish old_kernel kb_min_free parsed,
    read_data-parsed,
    derive-IsUsed _,
    λ f. figure-finish old_kernel kb_min_free f parsed ∙ figure-parsed f,
  )

  pub available-parsed :
      parsed.kb_main_available ≡ get_or (last_value (codes "MemAvailable") b':' lines) meminfo_unset
  available-parsed =
      parse_lines-last_value b sysmem_table sysmem_table-is_sorted (λ s. s.kb_main_available)
        (codes "MemAvailable") (omega arith) (unfold sysmem_table in omega arith)
        (unfold sysmem_table in refl) b':' lines (preset m)

  pub low_total-parsed :
      parsed.kb_low_total ≡ get_or (last_value (codes "LowTotal") b':' lines) meminfo_unset
  low_total-parsed =
      parse_lines-last_value b sysmem_table sysmem_table-is_sorted (λ s. s.kb_low_total)
        (codes "LowTotal") (omega arith) (unfold sysmem_table in omega arith)
        (unfold sysmem_table in refl) b':' lines (preset m)
