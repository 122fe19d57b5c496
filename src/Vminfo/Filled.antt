-- ===== src/Vminfo/Filled.antt =====
-- What `proc_vmem_read` of lib/vminfo.c makes of the counters that a kernel does not provide.
use nagios_plugins_linux.Base.{
  ℕ, ◌+◌, ◌%◌, ◌^◌, ◌≡◌, ◌≢◌, refl, ◌∙◌, Bool, true, false, ◌&&◌, not, [], ◌∷◌, List, Option, none,
  some, Bytes, codes, arith, ◌==◌, if◌then◌else◌,
}
use nagios_plugins_linux.Messages.{returns}
use nagios_plugins_linux.Procparser.{Bsearch, parse_lines, procparser}
use nagios_plugins_linux.Vminfo.Table.{ProcVmemData, vmem_table}
use nagios_plugins_linux.Vminfo.{
  Conversions, none_stored, one_stored, two_stored, unset, preset, zone_pgalloc, zone_pgrefill,
  zone_pgscan, zone_pgsteal, Search, store_swap, store_page, drop_missing, stat_lines, old_kernel,
  after_parse, read_data,
}

-- No number that was stored is 2 ^ 64 - 1.
abbrev pub IsBelow : Conversions → Type 0
IsBelow none_stored = Unit
IsBelow (one_stored a) = a ≢ unset
IsBelow (two_stored a b) = (a ≢ unset) × (b ≢ unset)

-- None of the numbers that are stored from the lines of /proc/stat is 2 ^ 64 - 1.
abbrev AreBelow : (Bytes → Bytes → Conversions) → List Bytes → Type 0
AreBelow scan [] = Unit
AreBelow scan (line ∷ lines) =
    (IsBelow (scan (codes "page") line) × IsBelow (scan (codes "swap") line)) × AreBelow scan lines

abbrev pub StatIsBelow : (Bytes → Bytes → Conversions) → Option (List Bytes) → Type 0
StatIsBelow scan none = Unit
StatIsBelow scan (some lines) = AreBelow scan lines

-- What was found is set.
abbrev IsFound : Search → Type 0
IsFound w =
    (w.found_pgpg_data ≡ true → w.counters.pgpgin ≢ unset)
    × (w.found_pswp_data ≡ true → w.counters.pswpin ≢ unset)

abbrev pub IsCounted : ProcVmemData → Type 0
IsCounted d = (d.pgpgin ≢ unset) × (d.pswpin ≢ unset)

-- The counters that may be summed up over the zones.
pub data Summed : Type 0 where
  alloc refill scanned steal : Summed

abbrev pub counter : Summed → ProcVmemData → ℕ
counter alloc d = d.pgalloc
counter refill d = d.pgrefill
counter scanned d = d.pgscan
counter steal d = d.pgsteal

-- The sum over the zones.
abbrev pub zones : Summed → ProcVmemData → ℕ
zones alloc d = d.pgalloc_dma + d.pgalloc_dma32 + d.pgalloc_normal + d.pgalloc_high
zones refill d = d.pgrefill_dma + d.pgrefill_dma32 + d.pgrefill_normal + d.pgrefill_high
zones scanned d =
    d.pgscan_direct_dma
    + d.pgscan_direct_dma32
    + d.pgscan_direct_normal
    + d.pgscan_direct_high
    + (d.pgscan_kswapd_dma + d.pgscan_kswapd_dma32 + d.pgscan_kswapd_normal + d.pgscan_kswapd_high)
zones steal d = d.pgsteal_dma + d.pgsteal_dma32 + d.pgsteal_normal + d.pgsteal_high

store_swap-IsFound :
    (s : Conversions) (w : Search) → IsBelow s → IsFound w → IsFound (store_swap s w)
unfolding store_swap
store_swap-IsFound none_stored w b h = h
store_swap-IsFound (one_stored a) w b h = (h.0, λ _. b)
store_swap-IsFound (two_stored a c) w b h = (h.0, λ _. b.0)

store_page-IsFound :
    (p s : Conversions) (w : Search)
    → IsBelow p
    → IsBelow s
    → IsFound w
    → IsFound (store_page p s w)
unfolding store_page
store_page-IsFound none_stored s w p b h = store_swap-IsFound s w b h
store_page-IsFound (one_stored a) s w p b h = store_swap-IsFound s _ b (λ _. p, h.1)
store_page-IsFound (two_stored a c) s w p b h = (λ _. p.0, h.1)

drop_missing-IsCounted : (w : Search) → IsFound w → IsCounted (drop_missing w)
unfolding drop_missing
drop_missing-IsCounted w h = ground arith

store_swap-counter :
    (z : Summed) (s : Conversions) (w : Search)
    → counter z (store_swap s w).counters ≡ counter z w.counters
unfolding store_swap
store_swap-counter alloc s w = ground arith
store_swap-counter z s w = ground arith

store_page-counter :
    (z : Summed) (p s : Conversions) (w : Search)
    → counter z (store_page p s w).counters ≡ counter z w.counters
unfolding store_page
store_page-counter z none_stored s w = store_swap-counter z s w
store_page-counter alloc (one_stored a) s w = store_swap-counter alloc s _
store_page-counter z (one_stored a) s w = store_swap-counter z s _
store_page-counter alloc (two_stored a c) s w = refl
store_page-counter z (two_stored a c) s w = refl

drop_missing-counter : (z : Summed) (w : Search) → counter z (drop_missing w) ≡ counter z w.counters
unfolding drop_missing
drop_missing-counter alloc w = ground arith
drop_missing-counter z w = ground arith

abbrev zoned : ProcVmemData → ProcVmemData
zoned d = zone_pgsteal (zone_pgscan (zone_pgrefill (zone_pgalloc d)))

zoned-counter :
    (z : Summed) (d : ProcVmemData)
    → counter z (zoned d) ≡ (if counter z d == 0 then zones z d % 2 ^ 64 else counter z d)
unfolding zone_pgalloc zone_pgrefill zone_pgscan zone_pgsteal
zoned-counter alloc d = ground arith
zoned-counter z d = ground arith

-- What is missing once /proc/vmstat is read.
abbrev incomplete : ProcVmemData → Search
incomplete z = record {
  found_pgpg_data = not (z.pgpgin == unset);
  found_pswp_data = not (z.pswpin == unset);
  counters = z;
}

incomplete-IsFound : (z : ProcVmemData) → IsFound (incomplete z)
incomplete-IsFound z = ground arith

complete-IsCounted :
    (z r : ProcVmemData)
    → IsCounted r
    → IsCounted (if not (z.pgpgin == unset) && not (z.pswpin == unset) then z else r)
complete-IsCounted z r h = ground arith

-- What holds of both branches holds of the conditional.
if-holds : {A : Type 0} (P : A → Type 0) (t : Bool) {x y : A} → P x → P y → P (if t then x else y)
if-holds P true hx hy = hx
if-holds P false hx hy = hy

module _ (b : Bsearch) (scan : Bytes → Bytes → Conversions) where
  abbrev stored : Bytes → Search → Search
  stored line w = store_page (scan (codes "page") line) (scan (codes "swap") line) w

  stat_lines-counter :
      (z : Summed) (lines : List Bytes) (w : Search)
      → counter z (stat_lines b scan lines w).counters ≡ counter z w.counters
  unfolding stat_lines
  stat_lines-counter z [] w = refl
  stat_lines-counter z (line ∷ lines) w =
      let one = store_page-counter z (scan (codes "page") line) (scan (codes "swap") line) w in
      if-holds (λ (s : Search). counter z s.counters ≡ counter z w.counters) _ one
        (stat_lines-counter z lines (stored line w) ∙ one)

  old_kernel-counter :
      (z : Summed) (stat : Option (List Bytes)) (w : Search)
      → counter z (old_kernel b scan stat w) ≡ counter z w.counters
  unfolding old_kernel
  old_kernel-counter z none w = drop_missing-counter z w
  old_kernel-counter z (some lines) w =
      drop_missing-counter z (stat_lines b scan lines w) ∙ stat_lines-counter z lines w

  after_parse-counter :
      (z : Summed) (stat : Option (List Bytes)) (d : ProcVmemData)
      → counter z (after_parse b scan stat d)
        ≡ (if counter z d == 0 then zones z d % 2 ^ 64 else counter z d)
  unfolding after_parse
  after_parse-counter z stat d =
      if-holds (λ r. counter z r ≡ (if counter z d == 0 then zones z d % 2 ^ 64 else counter z d)) _
        (zoned-counter z d) (old_kernel-counter z stat _ ∙ zoned-counter z d)

  stat_lines-IsFound :
      (lines : List Bytes) (w : Search)
      → AreBelow scan lines
      → IsFound w
      → IsFound (stat_lines b scan lines w)
  unfolding stat_lines
  stat_lines-IsFound [] w below h = h
  stat_lines-IsFound (line ∷ lines) w below h =
      let one =
        store_page-IsFound (scan (codes "page") line) (scan (codes "swap") line) w below.0.0
          below.0.1 h in
      if-holds IsFound _ one (stat_lines-IsFound lines (stored line w) below.1 one)

  old_kernel-IsCounted :
      (stat : Option (List Bytes)) (w : Search)
      → StatIsBelow scan stat
      → IsFound w
      → IsCounted (old_kernel b scan stat w)
  unfolding old_kernel
  old_kernel-IsCounted none w below h = drop_missing-IsCounted w h
  old_kernel-IsCounted (some lines) w below h =
      drop_missing-IsCounted (stat_lines b scan lines w) (stat_lines-IsFound lines w below h)

  after_parse-IsCounted :
      (stat : Option (List Bytes)) (d : ProcVmemData)
      → StatIsBelow scan stat
      → IsCounted (after_parse b scan stat d)
  unfolding after_parse
  after_parse-IsCounted stat d below =
      complete-IsCounted (zoned d) _
        (old_kernel-IsCounted stat (incomplete (zoned d)) below (incomplete-IsFound (zoned d)))

  module _ (vmstat : List Bytes) (stat : Option (List Bytes)) (d : ProcVmemData) where
    abbrev pub parsed : ProcVmemData
    parsed = parse_lines b vmem_table b' ' vmstat (preset d)

    read_data-parsed :
        read_data b scan (some vmstat) stat d ≡ returns (after_parse b scan stat parsed)
    unfolding read_data procparser
    read_data-parsed = refl

    -- Once /proc/vmstat is read, neither of the counters of pages and of swaps that came in is left
    -- at the 2 ^ 64 - 1 it was set to, whether /proc/stat provides them, does not, or cannot be
    -- opened, if none of the numbers that `sscanf` stores from the lines of /proc/stat is 2 ^ 64 - 1.
    pub read_data-IsCounted :
        StatIsBelow scan stat
        → (d' : ProcVmemData) × (read_data b scan (some vmstat) stat d ≡ returns d') × IsCounted d'
    read_data-IsCounted below =
        (after_parse b scan stat parsed, read_data-parsed, after_parse-IsCounted stat parsed below)

    -- Each of the counters of allocated, refilled, scanned and stolen pages is the one that the
    -- rows of /proc/vmstat gave, or, where that is 0, the sum over the four zones modulo 2 ^ 64; the
    -- sum for the scanned pages is that of the direct and of the kswapd counters.
    pub read_data-zones :
        (d' : ProcVmemData) × (read_data b scan (some vmstat) stat d ≡ returns d')
        × ((z : Summed)
            → counter z d'
              ≡ (if counter z parsed == 0 then zones z parsed % 2 ^ 64 else counter z parsed))
    read_data-zones =
        (after_parse b scan stat parsed, read_data-parsed, λ z. after_parse-counter z stat parsed)
