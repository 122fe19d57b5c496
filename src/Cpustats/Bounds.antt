-- ===== src/Cpustats/Bounds.antt =====
-- The writes of lib/cpustats.c stay inside the caller's array.
use nagios_plugins_linux.Base.{
  ℕ, ◌+◌, ◌<◌, ◌≡◌, refl, ap, ◌∙◌, zero, suc, Bool, true, false, ◌||◌, [], ◌∷◌, List, some, Bytes,
  codes, starts_with, leb, ◌==◌, length, length-replicate, replicate, u32, arith, Bool-cases, inl,
  inr,
}
use nagios_plugins_linux.Messages.{state_unknown}
use nagios_plugins_linux.Cpustats.{
  CpuTime, no_time, Reading, complete, ended, out_of_bounds, modify_at, written, cpunum_of,
  read_times, all_found, cpu_stats_get_time,
}

-- Some line of a file begins with "cpu ".
abbrev pub has_total : List Bytes → Bool
has_total [] = false
has_total (line ∷ lines) = starts_with (codes "cpu ") line || has_total lines

-- A reading with no write past the end: it ends the process, or the array keeps its length and
-- `found` is as said.
abbrev InBounds : ℕ → Bool → Reading → Type 0
InBounds lines seen (complete ts found) = (length ts ≡ lines) × (found ≡ true → seen ≡ true)
InBounds lines seen (ended status) = status ≡ state_unknown
InBounds lines seen out_of_bounds = ⊥

-- The array has kept its length and the file has a total, or the process has ended with UNKNOWN.
abbrev pub IsRead : ℕ → List Bytes → Reading → Type 0
IsRead lines file (complete ts found) = (length ts ≡ lines) × (has_total file ≡ true)
IsRead lines file (ended status) = status ≡ state_unknown
IsRead lines file out_of_bounds = ⊥

modify_at-length :
    (i : ℕ) (f : CpuTime → CpuTime) (ts : List CpuTime)
    → i < length ts
    → (ts' : List CpuTime) × (modify_at i f ts ≡ some ts') × (length ts' ≡ length ts)
unfolding modify_at
modify_at-length i f [] h = absurd (omega arith)
modify_at-length zero f (t ∷ ts) h = (f t ∷ ts, refl, refl)
modify_at-length (suc i) f (t ∷ ts) h =
    let (ts', e, l) = modify_at-length i f ts (omega arith) in (t ∷ ts', rw e, ap suc l)

module _ (scan_total scan_cpu : Bytes → List ℕ) (cpu_name : ℕ → Bytes) (lines : ℕ)
    (some_lines : 0 < lines) where
  written-InBounds :
      (seen : Bool) (i : ℕ) (f : CpuTime → CpuTime) (ts : List CpuTime) (k : List CpuTime → Reading)
      → length ts ≡ lines
      → i < lines
      → ((ts' : List CpuTime) → length ts' ≡ lines → InBounds lines seen (k ts'))
      → InBounds lines seen (written (modify_at i f ts) k)
  unfolding written
  written-InBounds seen i f ts k l h hk =
      let (ts', e, l') = modify_at-length i f ts (omega arith) in rw e (hk ts' (l' ∙ l))

  read_times-InBounds :
      (seen : Bool) (file : List Bytes) (ts : List CpuTime) (found : Bool)
      → length ts ≡ lines
      → (found ≡ true → seen ≡ true)
      → (has_total file ≡ true → seen ≡ true)
      → InBounds lines seen (read_times scan_total scan_cpu cpu_name lines file ts found)
  unfolding read_times
  read_times-InBounds seen [] ts found l f s = (l, f)
  read_times-InBounds seen (line ∷ file) ts found l f s =
      elim (Bool-cases (starts_with (codes "cpu ") line)) [
        | inl total ↦
            let is_seen : seen ≡ true = s (rw total refl) in
            rw total (
              written-InBounds seen 0 _ ts _ l some_lines (λ ts' l'.
                elim (Bool-cases (lines == 1)) [
                  | inl one ↦ rw one (l', λ _. is_seen)
                  | inr more ↦
                      rw more
                        (read_times-InBounds seen file ts' true l' (λ _. is_seen) (λ _. is_seen))
                ]))
        | inr other ↦
            let later : has_total file ≡ true → seen ≡ true = λ h. s (rw (other, h) refl) in
            rw other (elim (Bool-cases (starts_with (codes "cpu") line)) [
              | inr neither ↦ rw neither (read_times-InBounds seen file ts found l f later)
              | inl cpu ↦
                  elim (Bool-cases
                    (leb lines (u32 (cpunum_of scan_total scan_cpu cpu_name lines line + 1)))) [
                      | inl past ↦ rw (cpu, past) refl
                      | inr inside ↦
                          rw (cpu, inside)
                            (written-InBounds seen _ _ ts _ l (ground arith)
                              (λ ts' l'. read_times-InBounds seen file ts' found l' f later))
                    ]
            ])
      ]

  all_found-IsRead :
      (file : List Bytes) (r : Reading)
      → InBounds lines (has_total file) r
      → IsRead lines file (all_found scan_total scan_cpu cpu_name lines r)
  unfolding all_found
  all_found-IsRead file (complete ts true) h = (h.0, h.1 refl)
  all_found-IsRead file (complete ts false) h = refl
  all_found-IsRead file (ended status) h = h
  all_found-IsRead file out_of_bounds h = h

  -- For an array of at least one element, whatever the processor numbers in /proc/stat, no write
  -- goes past its end; the times are returned only if a line begins with "cpu ", and every other
  -- end is that of the process with the status UNKNOWN.
  pub cpu_stats_get_time-IsRead :
      (file : List Bytes)
      → IsRead lines file (cpu_stats_get_time scan_total scan_cpu cpu_name lines (some file))
  unfolding cpu_stats_get_time
  cpu_stats_get_time-IsRead file = all_found-IsRead file _ (
      read_times-InBounds (has_total file) file (replicate lines no_time) false
        (length-replicate lines no_time) (λ e. cc) (λ e. e))
