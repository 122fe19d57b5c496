-- ===== src/Tests/Counters.antt =====
-- The counters of virtual memory.
use nagios_plugins_linux.Base.{
  ◌≡◌, if◌then◌else◌, [], ◌∷◌, List, Option, some, arith, Bytes, codes, streq,
}
use nagios_plugins_linux.Messages.{returns}
use nagios_plugins_linux.Vminfo.Table.{ProcVmemData, zeroed}
use nagios_plugins_linux.Vminfo.{Conversions, none_stored, two_stored, read_data}
use nagios_plugins_linux.Vminfo.Filled.{StatIsBelow, IsCounted, read_data-IsCounted}
use nagios_plugins_linux.Tests.Tables.{linear}

abbrev vmstat : List Bytes
vmstat = codes "pgalloc_dma 3" ∷ codes "pgalloc_normal 4" ∷ []

-- Two numbers on every line of the keyword "page".
abbrev page_scan : Bytes → Bytes → Conversions
page_scan keyword line = if streq keyword (codes "page") then two_stored 5 6 else none_stored

abbrev stat : Option (List Bytes)
stat = some (codes "page 5 6" ∷ [])

stat-IsBelow : StatIsBelow page_scan stat
stat-IsBelow = (((omega arith, omega arith), tt), tt)

read_data-IsCounted_example :
    (d' : ProcVmemData) × (read_data linear page_scan (some vmstat) stat zeroed ≡ returns d')
    × IsCounted d'
read_data-IsCounted_example = read_data-IsCounted linear page_scan vmstat stat zeroed stat-IsBelow
