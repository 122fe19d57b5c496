-- ===== src/Vminfo.antt =====
-- lib/vminfo.c: the counters of /proc/vmstat, with the sums over the memory zones and the reading
-- of /proc/stat on old kernels. An `unsigned long` has 64 bits.
pub mod Table
pub mod Filled
use nagios_plugins_linux.Base.{
  ℕ, ◌+◌, Bool, true, false, ◌&&◌, ◌||◌, not, [], ◌∷◌, List, Option, none, some, Bytes, codes, ◌==◌,
  if◌then◌else◌, add64, ulong_max,
}
use nagios_plugins_linux.Base.Int.{ℤ, pos, negsuc, ◌-ℤ◌, ltb_ℤ}
use nagios_plugins_linux.Messages.{Outcome, returns, exits, ◌>>=◌}
use nagios_plugins_linux.Procparser.{Bsearch, procparser}
use nagios_plugins_linux.Vminfo.Table.{ProcVmemData, zeroed, vmem_table}

-- `struct proc_vmem`; `none` is a null pointer, or memory that was freed.
pub record ProcVmem : Type 0 where
  pub refcount : ℤ
  pub contents : ProcVmemData

-- What `sscanf (line, "<keyword> %lu %lu", ...)` stored: nothing, the first number, or both.
pub data Conversions : Type 0 where
  none_stored : Conversions
  one_stored : ℕ → Conversions
  two_stored : ℕ → ℕ → Conversions

-- ~0UL
abbrev pub unset : ℕ
unset = ulong_max

abbrev pub preset : ProcVmemData → ProcVmemData
preset d = record d {
  pgalloc = 0;
  pgrefill = 0;
  pgscan = 0;
  pgsteal = 0;
  pgpgin = unset;
  pgpgout = unset;
  pswpin = unset;
  pswpout = unset;
}

-- FOR_ALL_ZONES
abbrev pub for_all_zones : ℕ → ℕ → ℕ → ℕ → ℕ
for_all_zones dma dma32 normal high = add64 (add64 (add64 dma dma32) normal) high

unfoldable pub zone_pgalloc : ProcVmemData → ProcVmemData
zone_pgalloc d =
    if d.pgalloc == 0
    then record d {
      pgalloc = for_all_zones d.pgalloc_dma d.pgalloc_dma32 d.pgalloc_normal d.pgalloc_high;
    }
    else d

unfoldable pub zone_pgrefill : ProcVmemData → ProcVmemData
zone_pgrefill d =
    if d.pgrefill == 0
    then record d {
      pgrefill = for_all_zones d.pgrefill_dma d.pgrefill_dma32 d.pgrefill_normal d.pgrefill_high;
    }
    else d

-- The macro has no parentheses, so this one sum is taken from left to right.
unfoldable pub zone_pgscan : ProcVmemData → ProcVmemData
zone_pgscan d =
    if d.pgscan == 0
    then record d {
      pgscan =
          add64
            (add64
              (add64
                (add64
                  (for_all_zones d.pgscan_direct_dma d.pgscan_direct_dma32 d.pgscan_direct_normal
                    d.pgscan_direct_high)
                  d.pgscan_kswapd_dma)
                d.pgscan_kswapd_dma32)
              d.pgscan_kswapd_normal)
            d.pgscan_kswapd_high;
    }
    else d

unfoldable pub zone_pgsteal : ProcVmemData → ProcVmemData
zone_pgsteal d =
    if d.pgsteal == 0
    then record d {
      pgsteal = for_all_zones d.pgsteal_dma d.pgsteal_dma32 d.pgsteal_normal d.pgsteal_high;
    }
    else d

-- The variables of the loop over /proc/stat.
pub record Search : Type 0 where
  pub found_pgpg_data : Bool
  pub found_pswp_data : Bool
  pub counters : ProcVmemData

unfoldable pub store_swap : Conversions → Search → Search
store_swap none_stored w = w
store_swap (one_stored a) w = record w { counters = record (w.counters) { pswpin = a } }
store_swap (two_stored a b) w = record w {
  counters = record (w.counters) { pswpin = a; pswpout = b };
  found_pswp_data = true;
}

-- The "swap" pattern is tried where the "page" one did not store both numbers.
unfoldable pub store_page : Conversions → Conversions → Search → Search
unfolding store_swap
store_page none_stored swap w = store_swap swap w
store_page (one_stored a) swap w =
    store_swap swap (record w { counters = record (w.counters) { pgpgin = a } })
store_page (two_stored a b) swap w = record w {
  counters = record (w.counters) { pgpgin = a; pgpgout = b };
  found_pgpg_data = true;
}

unfoldable pub drop_missing : Search → ProcVmemData
drop_missing w =
    let d =
      if w.found_pgpg_data then w.counters else record (w.counters) { pgpgin = 0; pgpgout = 0 } in
    if w.found_pswp_data then d else record d { pswpin = 0; pswpout = 0 }

-- `scan` is `sscanf` with the pattern of a keyword.
module _ (b : Bsearch) (scan : Bytes → Bytes → Conversions) where
  unfoldable pub stat_lines : List Bytes → Search → Search
  unfolding store_page
  stat_lines [] w = w
  stat_lines (line ∷ lines) w =
      let stored = store_page (scan (codes "page") line) (scan (codes "swap") line) w in
      let rest = stat_lines lines stored in
      if stored.found_pgpg_data && stored.found_pswp_data then stored else rest

  -- `none` is a /proc/stat that cannot be opened.
  unfoldable pub old_kernel : Option (List Bytes) → Search → ProcVmemData
  unfolding stat_lines drop_missing
  old_kernel none w = drop_missing w
  old_kernel (some lines) w = drop_missing (stat_lines lines w)

  unfoldable pub after_parse : Option (List Bytes) → ProcVmemData → ProcVmemData
  unfolding old_kernel zone_pgalloc zone_pgrefill zone_pgscan zone_pgsteal
  after_parse stat parsed =
      let d = zone_pgsteal (zone_pgscan (zone_pgrefill (zone_pgalloc parsed))) in
      let page = not (d.pgpgin == unset) in
      let swap = not (d.pswpin == unset) in
      if page && swap
      then d
      else old_kernel stat (record { found_pgpg_data = page; found_pswp_data = swap; counters = d })

  -- All that `proc_vmem_read` does to the structure; `vmstat` and `stat` are the lines of the two
  -- files, where they can be opened.
  unfoldable pub read_data :
      Option (List Bytes) → Option (List Bytes) → ProcVmemData → Outcome ProcVmemData
  unfolding after_parse procparser
  read_data vmstat stat d =
      procparser b vmem_table vmstat b' ' (preset d) >>= λ parsed. returns (after_parse stat parsed)

  unfoldable pub proc_vmem_read :
      Option (List Bytes) → Option (List Bytes) → Option ProcVmem → Outcome (Option ProcVmem)
  unfolding read_data
  proc_vmem_read vmstat stat none = returns none
  proc_vmem_read vmstat stat (some vmem) =
      read_data vmstat stat vmem.contents >>= λ d. returns (some (record vmem { contents = d }))

-- `first` and `second` say whether the two calls of `calloc` return memory, and -12 is -ENOMEM.
unfoldable pub proc_vmem_new : Bool → Bool → Option ProcVmem → ℤ × Option ProcVmem
proc_vmem_new first second old =
    if first && second
    then (pos 0, some (record { refcount = pos 1; contents = zeroed }))
    else (negsuc 11, old)

unfoldable pub proc_vmem_unref : Option ProcVmem → Option ProcVmem
proc_vmem_unref none = none
proc_vmem_unref (some vmem) =
    let count = vmem.refcount -ℤ pos 1 in
    if ltb_ℤ (pos 0) count then some (record vmem { refcount = count }) else none

-- The getters of the macro `proc_vmem_get`, each by its field.
unfoldable pub proc_vmem_get : (ProcVmemData → ℕ) → Option ProcVmem → ℕ
proc_vmem_get field none = 0
proc_vmem_get field (some vmem) = field vmem.contents

unfoldable pub proc_vmem_get_pgscand : Option ProcVmem → ℕ
proc_vmem_get_pgscand none = 0
proc_vmem_get_pgscand (some vmem) =
    let d = vmem.contents in
    add64 (add64 d.pgscan_direct_dma d.pgscan_direct_high) d.pgscan_direct_normal

unfoldable pub proc_vmem_get_pgscank : Option ProcVmem → ℕ
proc_vmem_get_pgscank none = 0
proc_vmem_get_pgscank (some vmem) =
    let d = vmem.contents in
    add64 (add64 d.pgscan_kswapd_dma d.pgscan_kswapd_high) d.pgscan_kswapd_normal
