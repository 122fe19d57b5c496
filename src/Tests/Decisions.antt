-- ===== src/Tests/Decisions.antt =====
-- Runs of programs over the figures of a library.
use nagios_plugins_linux.Base.{
  ℕ, ◌+◌, ◌/◌, ◌%◌, ◌==◌, ◌≡◌, refl, true, [], ◌∷◌, List, Option, none, some, Bytes, codes, arith,
  length,
}
use nagios_plugins_linux.Base.Int.{pos}
use nagios_plugins_linux.Messages.{returns}
use nagios_plugins_linux.Messages.Worst.{ladder}
use nagios_plugins_linux.Thresholds.{parse_argument, alerts}
use nagios_plugins_linux.Program.{getopt_loop}
use nagios_plugins_linux.Program.Options.{Ensures}
use nagios_plugins_linux.Tcpinfo.{TcpStatus, established, tcp_v4, tcp_v6}
use nagios_plugins_linux.Tcpinfo.Counts.{counter}
use nagios_plugins_linux.Tcpinfo.Tcpcount.{lines_in, flags_of, main-established}
use nagios_plugins_linux.Tcpinfo.Tcpcount
use nagios_plugins_linux.Load.Averages
use nagios_plugins_linux.Load.Limits.{
  AreOrdered, last_given, nothing_given, process_options-AreOrdered,
}
use nagios_plugins_linux.Tests.{whole}

argument_none : parse_argument whole none ≡ some none
unfolding parse_argument
argument_none = refl

abbrev length_scan : Bytes → Option ℕ
length_scan [] = none
length_scan (c ∷ cs) = some (length (c ∷ cs))

abbrev sockets : List Bytes
sockets = codes "listening." ∷ [] ∷ codes "e" ∷ []

abbrev both : Tcpcount.Settings
both = record Tcpcount.defaults { tcp_flags = 12 }

both_read :
    getopt_loop Tcpcount.switch_option (Tcpcount.opt_tcp ∷ Tcpcount.opt_tcp6 ∷ []) Tcpcount.defaults
    ≡ returns both
unfolding getopt_loop Tcpcount.switch_option
both_read = refl

main-established_example :
    let v4 = (flags_of both / tcp_v4) % 2 == 1 in
    let v6 = (flags_of both / tcp_v6) % 2 == 1 in
    let count = λ (k : TcpStatus).
      lines_in length_scan k v4 7 sockets + lines_in length_scan k v6 1 sockets in
    (r : Tcpcount.Report) × (Tcpcount.main length_scan whole
        (some (codes "sl" ∷ sockets))
        (some (codes "sl" ∷ sockets))
        7
        1
        (Tcpcount.opt_tcp ∷ Tcpcount.opt_tcp6 ∷ [])
        true
        true
      ≡ returns r)
    × ((k : TcpStatus) → counter k r.counters ≡ count k)
    × (r.status
        ≡ ladder
            (alerts whole (pos (count established)) none)
            (alerts whole (pos (count established)) none))
main-established_example =
    main-established length_scan whole (codes "sl") (codes "sl") sockets sockets 7 1
      (Tcpcount.opt_tcp ∷ Tcpcount.opt_tcp6 ∷ []) both none none both_read argument_none
      argument_none (omega arith)

abbrev loads : List (Averages.Opt whole)
loads = Averages.opt_load5 (record { conversions = 2; first = pos 3; second = pos 4 }) ∷ []

process_options-AreOrdered_example :
    Ensures
      (AreOrdered whole (last_given whole loads (nothing_given whole)))
      (Averages.process_options whole loads)
process_options-AreOrdered_example = process_options-AreOrdered whole loads
