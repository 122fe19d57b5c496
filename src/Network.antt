-- ===== src/Network.antt =====
-- plugins/check_network.c: the thresholds on the rates of the network interfaces. The performance
-- data and the page for debugging are output.
pub mod Speed
pub mod Status
use nagios_plugins_linux.Base.{
  ℕ, ◌+◌, ◌*◌, ◌/◌, Bool, true, false, ◌&&◌, ◌||◌, not, [], ◌∷◌, List, Option, none, some, Bytes,
  codes, starts_with, ltb, leb, ◌==◌, if◌then◌else◌, drop, length, u32, bit_of,
}
use nagios_plugins_linux.Base.Int.{pos, bits64}
use nagios_plugins_linux.Base.Double.{Double}
use nagios_plugins_linux.Messages.{
  NagStatus, state_ok, state_unknown, Outcome, returns, exits, plugin_error, ◌>>=◌,
}
use nagios_plugins_linux.Messages.Worst.{worse}
use nagios_plugins_linux.Thresholds.{Thresholds, get_status}
use nagios_plugins_linux.Netinfo.{
  Ifstats, Interface, check_link, no_loopback, no_wireless, iflist_get,
}

-- The variables of `main` that the options set.
pub record Settings : Type 0 where
  pub ifname_debug : Bool
  pub pd_bytes : Bool
  pub pd_collisions : Bool
  pub pd_drops : Bool
  pub pd_errors : Bool
  pub pd_multicast : Bool
  pub pd_packets : Bool
  pub report_perc : Bool
  pub rx_only : Bool
  pub tx_only : Bool
  pub critical : Option Bytes
  pub warning : Option Bytes
  pub ifname_regex : Option Bytes
  pub options : ℕ

abbrev pub defaults : Settings
defaults = record {
  ifname_debug = false;
  pd_bytes = true;
  pd_collisions = true;
  pd_drops = true;
  pd_errors = true;
  pd_multicast = true;
  pd_packets = true;
  report_perc = false;
  rx_only = false;
  tx_only = false;
  critical = none;
  warning = none;
  ifname_regex = none;
  options = 0;
}

-- What `getopt_long` returns, with `optarg`.
pub data Opt : Type 0 where
  opt_ifname_debug opt_no_bytes opt_no_collisions opt_no_drops opt_no_errors opt_check_link : Opt
  opt_no_loopback opt_no_multicast opt_no_packets opt_rx_only opt_tx_only opt_no_wireless : Opt
  opt_perc opt_help opt_version opt_unrecognized : Opt
  opt_critical opt_warning opt_ifname : Bytes → Opt

-- `options |= flag`
abbrev or_flag : ℕ → Settings → Settings
or_flag flag s = record s {
  options = if bit_of s.options flag then s.options else s.options + flag;
}

-- One round of the `switch`; NO_DROPS has the value of NO_COLLISIONS.
unfoldable pub switch_option : Opt → Settings → Outcome Settings
switch_option opt_ifname_debug s = returns (record s { ifname_debug = true })
switch_option opt_no_bytes s = returns (or_flag 8 (record s { pd_bytes = false }))
switch_option opt_no_collisions s = returns (or_flag 16 (record s { pd_collisions = false }))
switch_option (opt_critical optarg) s = returns (record s { critical = some optarg })
switch_option opt_no_drops s = returns (or_flag 16 (record s { pd_drops = false }))
switch_option opt_no_errors s = returns (or_flag 32 (record s { pd_errors = false }))
switch_option (opt_ifname optarg) s = returns (record s { ifname_regex = some optarg })
switch_option opt_check_link s = returns (or_flag check_link s)
switch_option opt_no_loopback s = returns (or_flag no_loopback s)
switch_option opt_no_multicast s = returns (or_flag 64 (record s { pd_multicast = false }))
switch_option opt_no_packets s = returns (or_flag 128 (record s { pd_packets = false }))
switch_option opt_rx_only s = returns (or_flag 256 (record s { rx_only = true }))
switch_option opt_tx_only s = returns (or_flag 512 (record s { tx_only = true }))
switch_option opt_no_wireless s = returns (or_flag no_wireless s)
switch_option (opt_warning optarg) s = returns (record s { warning = some optarg })
switch_option opt_perc s = returns (record s { report_perc = true })
switch_option opt_help s = exits state_ok
switch_option opt_version s = exits state_ok
switch_option opt_unrecognized s = exits state_unknown

unfoldable pub process_options : List Opt → Settings → Outcome Settings
unfolding switch_option
process_options [] s = returns s
process_options (opt ∷ opts) s = switch_option opt s >>= λ s'. process_options opts s'

-- `network_check`
pub data NetworkCheck : Type 0 where
  check_bytes check_collisions check_dropped check_errors check_multicast : NetworkCheck

-- A check whose performance data is left out is refused by `usage`.
abbrev checked_if : Bool → NetworkCheck → Outcome NetworkCheck
checked_if pd check = if pd then returns check else exits state_unknown

-- The check by the name of the program behind `check_`.
unfoldable pub select_check : Settings → Bytes → Outcome NetworkCheck
select_check s p =
    if starts_with (codes "network_collisions") p
    then checked_if s.pd_collisions check_collisions
    else if starts_with (codes "network_dropped") p
    then checked_if s.pd_drops check_dropped
    else if starts_with (codes "network_errors") p
    then checked_if s.pd_errors check_errors
    else if starts_with (codes "network_multicast") p
    then checked_if s.pd_multicast check_multicast
    else returns check_bytes

-- The tests of `program_name` in front of that, and of both directions being left out.
unfoldable pub program_check : Settings → Bytes → Outcome NetworkCheck
unfolding select_check
program_check s program_name =
    if s.tx_only && s.rx_only
    then exits state_unknown
    else if ltb 6 (length program_name) && starts_with (codes "check_") program_name
    then select_check s (drop 6 program_name)
    else plugin_error state_unknown

unfoldable pub get_threshold_metric : ℕ → ℕ → Bool → Bool → ℕ
get_threshold_metric tx rx tx_only rx_only =
    u32 ((if tx_only then 0 else rx) + (if rx_only then 0 else tx))

-- `(iflist_get_speed (ifl) > 0) ? iflist_get_speed (ifl) * 1000*1000/8 : 0`, in `uint32_t`
unfoldable pub link_speed : ℕ → ℕ
link_speed speed = if ltb 0 speed then u32 (u32 (speed * 1000) * 1000) / 8 else 0

-- With DUPLEX_HALF, which is 0.
unfoldable pub duplex_speed : Interface → ℕ
unfolding link_speed
duplex_speed ifl = if ifl.duplex == 0 then link_speed ifl.speed / 2 else link_speed ifl.speed

is_given : Option Bytes → Bool
is_given none = false
is_given (some s) = true

module _ (d : Double) where
  unfoldable pub ratio_over_speed : ℕ → ℕ → d.D
  ratio_over_speed counter speed =
      d.mul (d.div (d.of_ℤ (pos 100)) (d.of_ℤ (pos speed))) (d.of_ℤ (pos counter))

  -- The cases of the `switch (check)`.
  unfoldable pub counter_of : Settings → NetworkCheck → Interface → d.D
  unfolding get_threshold_metric duplex_speed ratio_over_speed iflist_get
  counter_of s check_bytes ifl =
      let metric =
        get_threshold_metric (iflist_get (λ (i : Ifstats). i.tx_bytes) ifl)
          (iflist_get (λ (i : Ifstats). i.rx_bytes) ifl) s.tx_only s.rx_only in
      if s.report_perc && ltb 0 (duplex_speed ifl)
      then ratio_over_speed metric (duplex_speed ifl)
      else d.of_ℤ (pos metric)
  counter_of s check_collisions ifl = d.of_ℤ (pos (iflist_get (λ (i : Ifstats). i.collisions) ifl))
  counter_of s check_dropped ifl = d.of_ℤ (
      pos (
        get_threshold_metric (iflist_get (λ (i : Ifstats). i.tx_dropped) ifl)
          (iflist_get (λ (i : Ifstats). i.rx_dropped) ifl) s.tx_only s.rx_only))
  counter_of s check_errors ifl = d.of_ℤ (
      pos (
        get_threshold_metric (iflist_get (λ (i : Ifstats). i.tx_errors) ifl)
          (iflist_get (λ (i : Ifstats). i.rx_errors) ifl) s.tx_only s.rx_only))
  counter_of s check_multicast ifl = d.of_ℤ (pos (iflist_get (λ (i : Ifstats). i.multicast) ifl))

  -- `report_perc && (warning || critical) && !(speed > 0)`
  unfoldable pub inconvertible : Settings → Interface → Bool
  unfolding is_given link_speed
  inconvertible s ifl =
      s.report_perc
      && (is_given s.warning || is_given s.critical)
      && not (ltb 0 (link_speed ifl.speed))

  -- The loop over the interfaces.
  unfoldable pub check_interfaces :
      Settings → NetworkCheck → Thresholds d → List Interface → NagStatus → Outcome NagStatus
  unfolding inconvertible counter_of get_status worse
  check_interfaces s check t [] status = returns status
  check_interfaces s check t (ifl ∷ ifls) status =
      let rest =
        check_interfaces s check t ifls (worse (get_status d (counter_of s check ifl) t) status) in
      if inconvertible s ifl then plugin_error state_unknown else rest

  -- From the loop on: `if (ninterfaces < 1) status = STATE_UNKNOWN;`
  unfoldable pub network_status :
      Settings → NetworkCheck → Thresholds d → List Interface → ℕ → Outcome NagStatus
  unfolding check_interfaces
  network_status s check t iflhead ninterfaces =
      check_interfaces s check t iflhead state_ok >>= λ status.
      returns (if ltb ninterfaces 1 then state_unknown else status)
