-- ===== src/Netinfo.antt =====
-- lib/netinfo.c: the network interfaces, with the rates between two snapshots. `unsigned int` has 32
-- bits. `(b - a) / (double) seconds` is exact enough for `ceil` with the delays of a minute at most
-- that the programs take, so the rate is the quotient rounded up.
pub mod Rates
pub mod Snapshot
use nagios_plugins_linux.Base.{
  ℕ, ◌+◌, ◌-◌, ◌/◌, Bool, true, false, ◌&&◌, not, [], ◌∷◌, List, Option, none, some, Bytes, streq,
  ◌==◌, if◌then◌else◌, sub32, u32, bit_of,
}
use nagios_plugins_linux.Messages.{
  state_critical, state_unknown, Outcome, returns, plugin_error, ◌>>=◌,
}

-- `ifstats_t`
pub record Ifstats : Type 0 where
  pub tx_packets : ℕ
  pub rx_packets : ℕ
  pub tx_bytes : ℕ
  pub rx_bytes : ℕ
  pub tx_errors : ℕ
  pub rx_errors : ℕ
  pub tx_dropped : ℕ
  pub rx_dropped : ℕ
  pub collisions : ℕ
  pub multicast : ℕ

-- `iflist_t`; a list of these is the linked list.
pub record Interface : Type 0 where
  pub ifname : Bytes
  pub duplex : ℕ
  pub speed : ℕ
  pub flags : ℕ
  pub stats : Option Ifstats

abbrev pub check_link : ℕ
check_link = 1

abbrev pub no_loopback : ℕ
no_loopback = 2

abbrev pub no_wireless : ℕ
no_wireless = 4

-- IFF_UP, IFF_LOOPBACK and IFF_RUNNING of <net/if.h>
abbrev pub if_flags_up : ℕ → Bool
if_flags_up flags = bit_of flags 1

abbrev pub if_flags_loopback : ℕ → Bool
if_flags_loopback flags = bit_of flags 8

abbrev pub if_flags_running : ℕ → Bool
if_flags_running flags = bit_of flags 64

-- The macro DIV, for a number of seconds that is not 0.
abbrev pub div : ℕ → ℕ → ℕ → ℕ
div seconds a b = (sub32 b a + seconds - 1) / seconds

unfoldable pub stats_rate : ℕ → Ifstats → Ifstats → Ifstats
stats_rate seconds s s2 = record {
  tx_packets = div seconds s.tx_packets s2.tx_packets;
  rx_packets = div seconds s.rx_packets s2.rx_packets;
  tx_bytes = div seconds s.tx_bytes s2.tx_bytes;
  rx_bytes = div seconds s.rx_bytes s2.rx_bytes;
  tx_errors = div seconds s.tx_errors s2.tx_errors;
  rx_errors = div seconds s.rx_errors s2.rx_errors;
  tx_dropped = div seconds s.tx_dropped s2.tx_dropped;
  rx_dropped = div seconds s.rx_dropped s2.rx_dropped;
  collisions = div seconds s.collisions s2.collisions;
  multicast = div seconds s.multicast s2.multicast;
}

-- What a run of the code comes to: it dereferences a null pointer, or has an outcome.
pub data Run : Type 0 where
  null_pointer : Run
  ends : Outcome (List Interface × ℕ) → Run

-- The statistics after `if (ifl->stats) { … }`; the outer `none` is the use of `ifl2->stats`, null.
unfoldable pub rate_of : ℕ → Option Ifstats → Option Ifstats → Option (Option Ifstats)
unfolding stats_rate
rate_of seconds none stats2 = some none
rate_of seconds (some s) none = none
rate_of seconds (some s) (some s2) = some (some (stats_rate seconds s s2))

-- An interface in front of what the rest of the loop comes to.
prepend : Interface → Run → Run
prepend ifl null_pointer = null_pointer
prepend ifl (ends m) = ends (m >>= λ r. returns (ifl ∷ r.0, r.1))

-- The end of the round, with the statistics stored.
end_of_round : Bool → Interface → Option (Option Ifstats) → Run → Run
unfolding prepend
end_of_round opt_check_link ifl none rest = null_pointer
end_of_round opt_check_link ifl (some stats) rest =
    if opt_check_link && not (if_flags_up ifl.flags && if_flags_running ifl.flags)
    then ends (plugin_error state_critical)
    else prepend (record ifl { stats = stats }) rest

-- The loop over both lists; `n` is `*ninterfaces`.
unfoldable pub rates : Bool → ℕ → List Interface → List Interface → ℕ → Run
unfolding rate_of end_of_round
rates opt_check_link seconds [] iflhead2 n = ends (returns ([], n))
rates opt_check_link seconds (ifl ∷ ifls) [] n = ends (returns (ifl ∷ ifls, n))
rates opt_check_link seconds (ifl ∷ ifls) (ifl2 ∷ ifls2) n =
    let rest = rates opt_check_link seconds ifls ifls2 (u32 (n + 1)) in
    if not (streq ifl.ifname ifl2.ifname)
    then ends (plugin_error state_unknown)
    else end_of_round opt_check_link ifl (rate_of seconds ifl.stats ifl2.stats) rest

-- `compiled` is whether `regcomp` succeeds, `iflhead` and `iflhead2` are what the two calls of
-- `get_netinfo_snapshot` return, and `ninterfaces` is what `*ninterfaces` holds before.
unfoldable pub netinfo : Bool → ℕ → List Interface → List Interface → ℕ → ℕ → Run
unfolding rates
netinfo compiled options iflhead iflhead2 seconds ninterfaces =
    if not compiled
    then ends (plugin_error state_unknown)
    else if seconds == 0
    then ends (returns (iflhead, ninterfaces))
    else rates (bit_of options check_link) seconds iflhead iflhead2 0

-- The macro `__iflist_get__ (arg)`.
unfoldable pub iflist_get : (Ifstats → ℕ) → Interface → ℕ
iflist_get arg ifl = elim ifl.stats [ none ↦ 0 | some s ↦ arg s ]
