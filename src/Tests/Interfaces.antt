-- ===== src/Tests/Interfaces.antt =====
-- Two snapshots of two network interfaces.
use nagios_plugins_linux.Base.{
  ℕ, ◌*◌, ◌≤◌, ◌≡◌, ◌↔◌, refl, true, false, ◌&&◌, [], ◌∷◌, List, none, some, Bytes, codes, ltb,
  length, arith, bit_of, if◌then◌else◌,
}
use nagios_plugins_linux.Messages.{state_critical, state_unknown, returns, exits}
use nagios_plugins_linux.Messages.Worst.{ladder, any}
use nagios_plugins_linux.Thresholds.{Thresholds, alerts}
use nagios_plugins_linux.Netinfo.{Ifstats, Interface, ends, check_link, netinfo}
use nagios_plugins_linux.Netinfo.Rates.{ArePerSecond, some_down, netinfo-per_second}
use nagios_plugins_linux.Netinfo.Snapshot.{Message, rtm_newlink, Host}
use nagios_plugins_linux.Network.{
  defaults, check_bytes, counter_of, inconvertible, network_status, link_speed,
}
use nagios_plugins_linux.Network.Speed.{link_speed_iff}
use nagios_plugins_linux.Network.Status.{network_status-worst}
use nagios_plugins_linux.Tests.{whole}

abbrev counted : ℕ → Ifstats
counted n = record {
  tx_packets = n;
  rx_packets = n;
  tx_bytes = 100 * n;
  rx_bytes = 200 * n;
  tx_errors = 0;
  rx_errors = 0;
  tx_dropped = 0;
  rx_dropped = 0;
  collisions = 0;
  multicast = 0;
}

abbrev loopback : Interface
loopback = record { ifname = codes "lo"; duplex = 255; speed = 0; flags = 73; stats = none }

abbrev ethernet : ℕ → Interface
ethernet n = record {
  ifname = codes "eth0";
  duplex = 1;
  speed = 1000;
  flags = 65;
  stats = some (counted n);
}

netinfo-per_second_example :
    (zs : List Interface) × ArePerSecond 2
      (loopback ∷ ethernet 10 ∷ [])
      (loopback ∷ ethernet 15 ∷ [])
      zs
    × (netinfo true check_link (loopback ∷ ethernet 10 ∷ []) (loopback ∷ ethernet 15 ∷ []) 2 0 ≡ (
        if bit_of check_link check_link && some_down (loopback ∷ ethernet 10 ∷ [])
        then ends (exits state_critical)
        else ends (returns (zs, length (loopback ∷ ethernet 10 ∷ [])))))
netinfo-per_second_example =
    netinfo-per_second check_link 2 0 (loopback ∷ ethernet 10 ∷ []) (loopback ∷ ethernet 15 ∷ [])
      (omega arith) ((refl, tt), ((refl, tt), tt)) (omega arith)

abbrev host : Host
host = record {
  link_wireless = λ name. false;
  glinksettings = λ name. none;
  gset = λ name. some (record { duplex = 1; speed = 65535 });
  regexec_matches = λ name. true;
}

abbrev link_of : Bytes → ℕ → Message
link_of name flags =
    rtm_newlink
      (record { ifla_ifname = some name; ifi_flags = flags; ifla_stats = some (counted 1) })

link_speed_iff_example : (link_speed 10000 ≡ 10000 * 125000) ↔ (10000 ≤ 4294)
link_speed_iff_example = link_speed_iff 10000 (omega arith)

-- A link of 10 Gbit/s
speed_runs : link_speed 10000 ≡ 176258176
unfolding link_speed
speed_runs = refl

abbrev limits : Thresholds whole
limits = record { warning = none; critical = none }

convertible : any (inconvertible whole defaults) (ethernet 5 ∷ []) ≡ false
unfolding inconvertible
convertible = refl

network_status-worst_example :
    network_status whole defaults check_bytes limits (ethernet 5 ∷ []) 1
    ≡ returns (
        if ltb 1 1
        then state_unknown
        else ladder
            (any
              (λ (ifl : Interface).
                alerts whole (counter_of whole defaults check_bytes ifl) limits.critical)
              (ethernet 5 ∷ []))
            (any
              (λ (ifl : Interface).
                alerts whole (counter_of whole defaults check_bytes ifl) limits.warning)
              (ethernet 5 ∷ [])))
network_status-worst_example =
    network_status-worst whole defaults check_bytes limits (ethernet 5 ∷ []) 1 convertible
