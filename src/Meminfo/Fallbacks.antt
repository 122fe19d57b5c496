-- ===== src/Meminfo/Fallbacks.antt =====
-- The fallbacks of `proc_sysmem_read` in lib/meminfo.c for rows that a kernel does not provide.
use nagios_plugins_linux.Base.{
  ℕ, ◌≡◌, ◌≢◌, ap₂, ◌∙◌, sym, Bool, List, some, Bytes, codes, arith, if◌then◌else◌, ◌==◌, ==_iff,
  Bool-cases, inl, inr, String,
}
use mathlib.Core.Option.{get_or}
use nagios_plugins_linux.Messages.{returns}
use nagios_plugins_linux.Procparser.{Bsearch}
use nagios_plugins_linux.Procparser.Rows.{last_value}
use nagios_plugins_linux.Meminfo.{
  ProcSysmemData, meminfo_unset, low_fallback, inactive_fallback, available_fallback, estimate,
  derive, read_data,
}
use nagios_plugins_linux.Meminfo.Parsed.{
  Figure, figure, main_free, active_file, inactive_file, slab_reclaimable, finish, parsed,
  read_data-parsed, available-parsed, low_total-parsed, figure-finish, main_total,
  figure-low_fallback, figure-inactive_fallback,
}

-- The two branches of a test for the unset value.
replaced : (y x : ℕ) → x ≡ meminfo_unset → (if x == meminfo_unset then y else x) ≡ y
replaced y x e = ground arith

kept : (y x v : ℕ) → x ≡ v → v ≢ meminfo_unset → (if x == meminfo_unset then y else x) ≡ v
kept y x v e ne = ground arith

estimate_cong :
    (kb_min_free : ℕ) (m m' : ProcSysmemData)
    → ((f : Figure) → figure f m' ≡ figure f m)
    → estimate kb_min_free m' ≡ estimate kb_min_free m
unfolding estimate
estimate_cong kb_min_free m m' e =
    rw (e main_free, e active_file, e inactive_file, e slab_reclaimable)

module _ (old_kernel : Bool) (kb_min_free : ℕ) (m : ProcSysmemData) where
  available-low : (inactive_fallback (low_fallback m)).kb_main_available ≡ m.kb_main_available
  unfolding inactive_fallback low_fallback
  available-low = ground arith

  available-finish : (finish old_kernel kb_min_free m).kb_main_available ≡ (
      if m.kb_main_available == meminfo_unset
      then (if old_kernel
          then (inactive_fallback (low_fallback m)).kb_main_free
          else estimate kb_min_free (inactive_fallback (low_fallback m)))
      else m.kb_main_available)
  unfolding available_fallback derive
  available-finish = ground (arith, available-low)

  low_total-finish :
      (finish old_kernel kb_min_free m).kb_low_total
      ≡ (if m.kb_low_total == 0 then m.kb_main_total else m.kb_low_total)
  unfolding available_fallback derive inactive_fallback low_fallback
  low_total-finish = ground arith

  same : (f : Figure) → figure f (finish old_kernel kb_min_free m) ≡ figure f m
  same f = figure-finish old_kernel kb_min_free f m

  before_same : (f : Figure) → figure f (inactive_fallback (low_fallback m)) ≡ figure f m
  before_same f = figure-inactive_fallback f (low_fallback m) ∙ figure-low_fallback f m

  finish-present :
      (v : ℕ)
      → m.kb_main_available ≡ v
      → v ≢ meminfo_unset
      → (finish old_kernel kb_min_free m).kb_main_available ≡ v
  finish-present v e ne = available-finish ∙ kept _ m.kb_main_available v e ne

  finish-absent :
      m.kb_main_available ≡ meminfo_unset
      → (finish old_kernel kb_min_free m).kb_main_available ≡ (
          if old_kernel
          then (finish old_kernel kb_min_free m).kb_main_free
          else estimate kb_min_free (finish old_kernel kb_min_free m))
  finish-absent e =
      available-finish
      ∙ replaced _ m.kb_main_available e
      ∙ ap₂ (λ free guess. if old_kernel then free else guess)
          (before_same main_free ∙ sym (same main_free))
          (estimate_cong kb_min_free (finish old_kernel kb_min_free m)
            (inactive_fallback (low_fallback m)) (λ f. before_same f ∙ sym (same f)))

-- A figure of the file that is unset where the file has no line with its label.
abbrev pub last_or_unset : String → List Bytes → ℕ
last_or_unset name lines = get_or (last_value (codes name) b':' lines) meminfo_unset

module _ (b : Bsearch) (lines : List Bytes) (old_kernel : Bool) (kb_min_free : ℕ)
    (m : ProcSysmemData) where
  -- The memory that is reported as available is that of the last MemAvailable line. With no such
  -- line, or one that says 2 ^ 64 - 1, it is the free memory on a kernel before 2.6.27, and the
  -- estimate from the figures that were read on a later one.
  pub read_data-available :
      (m' : ProcSysmemData) × (read_data b (some lines) old_kernel kb_min_free m ≡ returns m')
      × (m'.kb_main_available ≡ (
          if last_or_unset "MemAvailable" lines == meminfo_unset
          then (if old_kernel then m'.kb_main_free else estimate kb_min_free m')
          else last_or_unset "MemAvailable" lines))
  read_data-available =
      let p = parsed b lines old_kernel kb_min_free m in
      let found = available-parsed b lines old_kernel kb_min_free m in
      let a = last_or_unset "MemAvailable" lines in
      (
        finish old_kernel kb_min_free p,
        read_data-parsed b lines old_kernel kb_min_free m,
        elim (Bool-cases (a == meminfo_unset)) [
          | inl e ↦
              rw e (finish-absent old_kernel kb_min_free p (found ∙ (==_iff a meminfo_unset).0 e))
          | inr n ↦ rw n (finish-present old_kernel kb_min_free p a found (ground arith))
        ],
      )

  -- The low memory is that of the last LowTotal line, or the total memory where this line says 0;
  -- where the file has no such line it is left at 2 ^ 64 - 1.
  pub read_data-low_total :
      (m' : ProcSysmemData) × (read_data b (some lines) old_kernel kb_min_free m ≡ returns m')
      × (m'.kb_low_total ≡ (
          if last_or_unset "LowTotal" lines == 0
          then m'.kb_main_total
          else last_or_unset "LowTotal" lines))
  read_data-low_total =
      let p = parsed b lines old_kernel kb_min_free m in
      let found = low_total-parsed b lines old_kernel kb_min_free m in
      let low = low_total-finish old_kernel kb_min_free p in
      let total = same old_kernel kb_min_free p main_total in
      (
        finish old_kernel kb_min_free p,
        read_data-parsed b lines old_kernel kb_min_free m,
        low ∙ ap₂ (λ x y. if x == 0 then y else x) found (sym total),
      )
