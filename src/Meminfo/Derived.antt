-- ===== src/Meminfo/Derived.antt =====
-- The figures that lib/meminfo.c derives from those of the file.
use nagios_plugins_linux.Base.{ℕ, ◌+◌, ◌-◌, ◌*◌, ◌/◌, ◌^◌, ◌≤◌, ◌<◌, ◌≡◌, min, arith}
use nagios_plugins_linux.Meminfo.{ProcSysmemData, estimate, derive}

-- The pages that the estimate takes for the file cache.
abbrev pub file_cache : ProcSysmemData → ℕ
file_cache m = m.kb_inactive_file + m.kb_active_file

-- For figures and a reserve that sum up to less than 2 ^ 61 kB the estimate of the available memory
-- is exact: the free memory and the reclaimable caches, less the low watermark (5/4 of the reserve),
-- less, for each of the two caches, its half or the watermark, whichever is smaller; and 0 where
-- this would be negative.
pub estimate_lem :
    (kb_min_free : ℕ) (m : ProcSysmemData)
    → m.kb_main_free + file_cache m + m.kb_slab_reclaimable + kb_min_free < 2 ^ 61
    → estimate kb_min_free m
      ≡ m.kb_main_free
        + file_cache m
        + m.kb_slab_reclaimable
        - (kb_min_free * 5 / 4
            + min (file_cache m / 2) (kb_min_free * 5 / 4)
            + min (m.kb_slab_reclaimable / 2) (kb_min_free * 5 / 4))
unfolding estimate
estimate_lem kb_min_free m b = ground arith

-- The used memory, with the free, cached and buffer memory, adds up to the total, where these three
-- are no more than the total and the figures fit 64 bits.
pub derive_sum :
    (m : ProcSysmemData)
    → m.kb_main_total < 2 ^ 64
    → m.kb_main_free + (m.kb_page_cache + m.kb_slab_reclaimable) + m.kb_main_buffers
      ≤ m.kb_main_total
    → ((derive m).kb_main_used
          + (derive m).kb_main_free
          + (derive m).kb_main_cached
          + (derive m).kb_main_buffers
        ≡ (derive m).kb_main_total)
      × ((derive m).kb_main_cached ≡ m.kb_page_cache + m.kb_slab_reclaimable)
unfolding derive
derive_sum m t h = omega arith
