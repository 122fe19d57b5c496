-- ===== src/Tests/Sockets.antt =====
-- A small /proc/net/tcp: a socket that listens, a line that cannot be read, and one established.
use nagios_plugins_linux.Base.{
  ℕ, ◌+◌, ◌^◌, ◌<◌, ◌≡◌, refl, [], ◌∷◌, List, Option, none, some, arith, Bytes, codes,
}
use nagios_plugins_linux.Messages.{returns}
use nagios_plugins_linux.Tcpinfo.{
  TcpStatus, established, zeroed, count_state, count_lines, procparser_tcp,
}
use nagios_plugins_linux.Tcpinfo.Counts.{counter}

-- The length of the line as its state, and none of an empty line.
abbrev length_scan : Bytes → Option ℕ
length_scan [] = none
length_scan (c ∷ cs) = some (nagios_plugins_linux.Base.length (c ∷ cs))

abbrev sockets : List Bytes
sockets = codes "listening." ∷ [] ∷ codes "e" ∷ []

listening :
    procparser_tcp length_scan (some (codes "sl" ∷ sockets)) 7 zeroed
    ≡ returns (record zeroed { tcp_listen = 2; tcp_established = 1 })
unfolding procparser_tcp count_lines count_state
listening = refl

zeroed_fits : (s : TcpStatus) → counter s zeroed + 3 < 2 ^ 64
zeroed_fits established = omega arith
zeroed_fits s = omega arith
