-- ===== src/Vminfo/Table.antt =====
-- lib/vminfo.c: the structure of the counters, and the table of their names. The fields have lost
-- the prefix `vm_`.
use nagios_plugins_linux.Base.{ℕ, [], ◌∷◌, List, String, codes}
use nagios_plugins_linux.Procparser.{Row}

-- `struct proc_vmem_data`
pub record ProcVmemData : Type 0 where
  pub nr_dirty : ℕ
  pub nr_writeback : ℕ
  pub nr_pagecache : ℕ
  pub nr_page_table_pages : ℕ
  pub nr_reverse_maps : ℕ
  pub nr_mapped : ℕ
  pub nr_slab : ℕ
  pub pgpgin : ℕ
  pub pgpgout : ℕ
  pub pswpin : ℕ
  pub pswpout : ℕ
  pub pgalloc : ℕ
  pub pgfree : ℕ
  pub pgactivate : ℕ
  pub pgdeactivate : ℕ
  pub pgfault : ℕ
  pub pgmajfault : ℕ
  pub pgscan : ℕ
  pub pgrefill : ℕ
  pub pgsteal : ℕ
  pub kswapd_steal : ℕ
  pub pageoutrun : ℕ
  pub allocstall : ℕ
  pub pgrotated : ℕ
  pub pgalloc_dma : ℕ
  pub pgalloc_dma32 : ℕ
  pub pgalloc_high : ℕ
  pub pgalloc_normal : ℕ
  pub pgrefill_dma : ℕ
  pub pgrefill_dma32 : ℕ
  pub pgrefill_high : ℕ
  pub pgrefill_normal : ℕ
  pub pgscan_direct_dma : ℕ
  pub pgscan_direct_dma32 : ℕ
  pub pgscan_direct_high : ℕ
  pub pgscan_direct_normal : ℕ
  pub pgscan_kswapd_dma : ℕ
  pub pgscan_kswapd_dma32 : ℕ
  pub pgscan_kswapd_high : ℕ
  pub pgscan_kswapd_normal : ℕ
  pub pgsteal_dma : ℕ
  pub pgsteal_dma32 : ℕ
  pub pgsteal_high : ℕ
  pub pgsteal_normal : ℕ
  pub pgsteal_direct_dma : ℕ
  pub pgsteal_direct_dma32 : ℕ
  pub pgsteal_direct_high : ℕ
  pub pgsteal_direct_normal : ℕ
  pub kswapd_inodesteal : ℕ
  pub nr_unstable : ℕ
  pub pginodesteal : ℕ
  pub slabs_scanned : ℕ

-- The memory that `calloc` returns.
abbrev pub zeroed : ProcVmemData
zeroed = record {
  nr_dirty = 0;
  nr_writeback = 0;
  nr_pagecache = 0;
  nr_page_table_pages = 0;
  nr_reverse_maps = 0;
  nr_mapped = 0;
  nr_slab = 0;
  pgpgin = 0;
  pgpgout = 0;
  pswpin = 0;
  pswpout = 0;
  pgalloc = 0;
  pgfree = 0;
  pgactivate = 0;
  pgdeactivate = 0;
  pgfault = 0;
  pgmajfault = 0;
  pgscan = 0;
  pgrefill = 0;
  pgsteal = 0;
  kswapd_steal = 0;
  pageoutrun = 0;
  allocstall = 0;
  pgrotated = 0;
  pgalloc_dma = 0;
  pgalloc_dma32 = 0;
  pgalloc_high = 0;
  pgalloc_normal = 0;
  pgrefill_dma = 0;
  pgrefill_dma32 = 0;
  pgrefill_high = 0;
  pgrefill_normal = 0;
  pgscan_direct_dma = 0;
  pgscan_direct_dma32 = 0;
  pgscan_direct_high = 0;
  pgscan_direct_normal = 0;
  pgscan_kswapd_dma = 0;
  pgscan_kswapd_dma32 = 0;
  pgscan_kswapd_high = 0;
  pgscan_kswapd_normal = 0;
  pgsteal_dma = 0;
  pgsteal_dma32 = 0;
  pgsteal_high = 0;
  pgsteal_normal = 0;
  pgsteal_direct_dma = 0;
  pgsteal_direct_dma32 = 0;
  pgsteal_direct_high = 0;
  pgsteal_direct_normal = 0;
  kswapd_inodesteal = 0;
  nr_unstable = 0;
  pginodesteal = 0;
  slabs_scanned = 0;
}

abbrev row : String → (ℕ → ProcVmemData → ProcVmemData) → Row ProcVmemData
row name slot = record { name = codes name; slot = slot }

-- `vmem_table`, in the order of the source.
unfoldable pub vmem_table : List (Row ProcVmemData)
vmem_table =
    row "allocstall" (λ v d. record d { allocstall = v })
    ∷ row "kswapd_inodesteal" (λ v d. record d { kswapd_inodesteal = v })
    ∷ row "kswapd_steal" (λ v d. record d { kswapd_steal = v })
    ∷ row "nr_dirty" (λ v d. record d { nr_dirty = v })
    ∷ row "nr_mapped" (λ v d. record d { nr_mapped = v })
    ∷ row "nr_page_table_pages" (λ v d. record d { nr_page_table_pages = v })
    ∷ row "nr_pagecache" (λ v d. record d { nr_pagecache = v })
    ∷ row "nr_reverse_maps" (λ v d. record d { nr_reverse_maps = v })
    ∷ row "nr_slab" (λ v d. record d { nr_slab = v })
    ∷ row "nr_unstable" (λ v d. record d { nr_unstable = v })
    ∷ row "nr_writeback" (λ v d. record d { nr_writeback = v })
    ∷ row "pageoutrun" (λ v d. record d { pageoutrun = v })
    ∷ row "pgactivate" (λ v d. record d { pgactivate = v })
    ∷ row "pgalloc" (λ v d. record d { pgalloc = v })
    ∷ row "pgalloc_dma" (λ v d. record d { pgalloc_dma = v })
    ∷ row "pgalloc_dma32" (λ v d. record d { pgalloc_dma32 = v })
    ∷ row "pgalloc_high" (λ v d. record d { pgalloc_high = v })
    ∷ row "pgalloc_normal" (λ v d. record d { pgalloc_normal = v })
    ∷ row "pgdeactivate" (λ v d. record d { pgdeactivate = v })
    ∷ row "pgfault" (λ v d. record d { pgfault = v })
    ∷ row "pgfree" (λ v d. record d { pgfree = v })
    ∷ row "pginodesteal" (λ v d. record d { pginodesteal = v })
    ∷ row "pgmajfault" (λ v d. record d { pgmajfault = v })
    ∷ row "pgpgin" (λ v d. record d { pgpgin = v })
    ∷ row "pgpgout" (λ v d. record d { pgpgout = v })
    ∷ row "pgrefill" (λ v d. record d { pgrefill = v })
    ∷ row "pgrefill_dma" (λ v d. record d { pgrefill_dma = v })
    ∷ row "pgrefill_dma32" (λ v d. record d { pgrefill_dma32 = v })
    ∷ row "pgrefill_high" (λ v d. record d { pgrefill_high = v })
    ∷ row "pgrefill_normal" (λ v d. record d { pgrefill_normal = v })
    ∷ row "pgrotated" (λ v d. record d { pgrotated = v })
    ∷ row "pgscan" (λ v d. record d { pgscan = v })
    ∷ row "pgscan_direct_dma" (λ v d. record d { pgscan_direct_dma = v })
    ∷ row "pgscan_direct_dma32" (λ v d. record d { pgscan_direct_dma32 = v })
    ∷ row "pgscan_direct_high" (λ v d. record d { pgscan_direct_high = v })
    ∷ row "pgscan_direct_normal" (λ v d. record d { pgscan_direct_normal = v })
    ∷ row "pgscan_kswapd_dma" (λ v d. record d { pgscan_kswapd_dma = v })
    ∷ row "pgscan_kswapd_dma32" (λ v d. record d { pgscan_kswapd_dma32 = v })
    ∷ row "pgscan_kswapd_high" (λ v d. record d { pgscan_kswapd_high = v })
    ∷ row "pgscan_kswapd_normal" (λ v d. record d { pgscan_kswapd_normal = v })
    ∷ row "pgsteal" (λ v d. record d { pgsteal = v })
    ∷ row "pgsteal_dma" (λ v d. record d { pgsteal_dma = v })
    ∷ row "pgsteal_dma32" (λ v d. record d { pgsteal_dma32 = v })
    ∷ row "pgsteal_high" (λ v d. record d { pgsteal_high = v })
    ∷ row "pgsteal_normal" (λ v d. record d { pgsteal_normal = v })
    ∷ row "pgsteal_direct_dma" (λ v d. record d { pgsteal_direct_dma = v })
    ∷ row "pgsteal_direct_dma32" (λ v d. record d { pgsteal_direct_dma32 = v })
    ∷ row "pgsteal_direct_high" (λ v d. record d { pgsteal_direct_high = v })
    ∷ row "pgsteal_direct_normal" (λ v d. record d { pgsteal_direct_normal = v })
    ∷ row "pswpin" (λ v d. record d { pswpin = v })
    ∷ row "pswpout" (λ v d. record d { pswpout = v })
    ∷ row "slabs_scanned" (λ v d. record d { slabs_scanned = v })
    ∷ []
