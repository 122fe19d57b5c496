-- ===== src/Fc.antt =====
-- plugins/check_fc.c: the ports of the Fibre Channel hosts that are online, and their counters. The
-- counters have 64 bits. `sysfs t` is sysfs at the time `t`, which each `sleep` takes one further.
pub mod Ports
use nagios_plugins_linux.Base.{
  ℕ, zero, suc, ◌+◌, ◌-◌, ◌/◌, ◌%◌, Bool, true, false, not, ◌||◌, [], ◌∷◌, List, Option, none, some,
  Bytes, codes, streq, ◌==◌, if◌then◌else◌, add64, sub64,
}
use nagios_plugins_linux.Base.Int.{pos}
use nagios_plugins_linux.Base.Double.{Double}
use nagios_plugins_linux.Base.Numeral.{Number}
use nagios_plugins_linux.Messages.{
  NagStatus, state_ok, state_unknown, Outcome, returns, exits, ◌>>=◌,
}
use nagios_plugins_linux.Thresholds.{Thresholds, get_status}
use nagios_plugins_linux.Sysfs.{
  File, fc_port_state, fc_statistic, Entry, is_dot, Value, getline, getvalue,
}
use nagios_plugins_linux.Program.{getopt_loop, thresholds_or_usage, Slots, slot, put}
use nagios_plugins_linux.Program.Arguments.{Arguments, read_arguments}

-- `fc_host_statistics`
pub record FcHostStatistics : Type 0 where
  pub rx_frames : ℕ
  pub tx_frames : ℕ
  pub error_frames : ℕ
  pub invalid_crc_count : ℕ
  pub link_failure_count : ℕ
  pub loss_of_signal_count : ℕ
  pub loss_of_sync_count : ℕ

abbrev pub zeroed : FcHostStatistics
zeroed = record {
  rx_frames = 0;
  tx_frames = 0;
  error_frames = 0;
  invalid_crc_count = 0;
  link_failure_count = 0;
  loss_of_signal_count = 0;
  loss_of_sync_count = 0;
}

-- What the loop over the hosts keeps: the ports, those online, the statistics, the two totals, and
-- the time.
pub record Totals : Type 0 where
  pub n_ports : ℕ
  pub n_online : ℕ
  pub stats : FcHostStatistics
  pub drx_frames_tot : ℕ
  pub dtx_frames_tot : ℕ
  pub time : ℕ

abbrev pub no_ports : Totals
no_ports = record {
  n_ports = 0;
  n_online = 0;
  stats = zeroed;
  drx_frames_tot = 0;
  dtx_frames_tot = 0;
  time = 0;
}

-- `dp->d_type & (DT_DIR | DT_LNK)`, which is 14.
abbrev pub is_host : Entry → Bool
is_host dp = not (is_dot dp.d_name || (dp.d_type / 2) % 8 == 0)

-- The frames of a host, as the loop over the readings leaves them, with the time.
pub record Frames : Type 0 where
  pub rx : ℕ
  pub tx : ℕ
  pub time : ℕ

module _ (strtoull : Bytes → Number ℕ) (sysfs : ℕ → File → Option Bytes) where
  read_value : Value → Outcome ℕ
  read_value v = if v.succeeded then returns v.value else exits state_unknown

  unfoldable pub fc_host_get_statistic : Bytes → Bytes → ℕ → Outcome ℕ
  unfolding getvalue read_value
  fc_host_get_statistic which host t =
      read_value (getvalue strtoull (sysfs t) 0 (fc_statistic host which))

  -- The loop over the readings, with those that are left.
  frames_loop : Bytes → ℕ → ℕ → Bool → Slots → Slots → Frames → Outcome Frames
  unfolding fc_host_get_statistic
  frames_loop host zero t tog rx tx f = returns f
  frames_loop host (suc left) t tog rx tx f =
      fc_host_get_statistic (codes "rx_frames") host (suc t) >>= λ r.
      fc_host_get_statistic (codes "tx_frames") host (suc t) >>= λ w.
      let rx' = put (not tog) r rx in
      let tx' = put (not tog) w tx in
      frames_loop host left (suc t) (not tog) rx' tx' (record {
        rx = sub64 (slot (not tog) rx') (slot tog rx');
        tx = sub64 (slot (not tog) tx') (slot tog tx');
        time = suc t;
      })

  host_frames : Bytes → ℕ → ℕ → Outcome Frames
  unfolding frames_loop
  host_frames host count t = fc_host_get_statistic (codes "rx_frames") host t >>= λ r.
      fc_host_get_statistic (codes "tx_frames") host t >>= λ w.
      frames_loop host (count - 1) t false (record { first = r; second = 0 })
        (record { first = w; second = 0 }) (record { rx = r; tx = w; time = t })

  -- The five sums of errors, with the frames of the host.
  add_errors : Bytes → Frames → FcHostStatistics → Outcome FcHostStatistics
  add_errors host f s = fc_host_get_statistic (codes "error_frames") host f.time >>= λ errors.
      fc_host_get_statistic (codes "invalid_crc_count") host f.time >>= λ crc.
      fc_host_get_statistic (codes "link_failure_count") host f.time >>= λ link.
      fc_host_get_statistic (codes "loss_of_signal_count") host f.time >>= λ signal.
      fc_host_get_statistic (codes "loss_of_sync_count") host f.time >>= λ sync. returns (record {
        rx_frames = f.rx;
        tx_frames = f.tx;
        error_frames = add64 s.error_frames errors;
        invalid_crc_count = add64 s.invalid_crc_count crc;
        link_failure_count = add64 s.link_failure_count link;
        loss_of_signal_count = add64 s.loss_of_signal_count signal;
        loss_of_sync_count = add64 s.loss_of_sync_count sync;
      })

  -- One round of the loop; `online` is whether the state of the port is `Online`.
  host_round : Bytes → ℕ → Bool → Totals → Outcome Totals
  unfolding host_frames add_errors
  host_round host count online s = host_frames host count s.time >>= λ f.
      add_errors host f s.stats >>= λ stats. returns (record {
        n_ports = s.n_ports + 1;
        n_online = if online then s.n_online + 1 else s.n_online;
        stats = stats;
        drx_frames_tot = add64 s.drx_frames_tot f.rx;
        dtx_frames_tot = add64 s.dtx_frames_tot f.tx;
        time = f.time;
      })

-- `STREQ` of a null pointer, where the state of a port cannot be read.
pub data Run (A : Type 0) : Type 0 where
  done : A → Run A
  ended : NagStatus → Run A
  null_pointer : Run A

abbrev and_then : {A B : Type 0} → Outcome A → (A → Run B) → Run B
and_then (returns a) f = f a
and_then (exits status) f = ended status

module _ (strtoull : Bytes → Number ℕ) (sysfs : ℕ → File → Option Bytes) where
  port_round : Bytes → ℕ → Option Bytes → Totals → (Totals → Run Totals) → Run Totals
  unfolding host_round
  port_round host count none s next = null_pointer
  port_round host count (some line) s next =
      and_then (host_round strtoull sysfs host count (streq line (codes "Online")) s) next

  -- The loop over what `sysfsparser_readfilename` returns; `failed` is the error of the last
  -- `readdir`.
  host_loop : List Entry → Bool → ℕ → Totals → Run Totals
  unfolding port_round getline
  host_loop [] failed count s = if failed then ended state_unknown else done s
  host_loop (dp ∷ rest) failed count s =
      if is_host dp
      then port_round dp.d_name count (getline (sysfs s.time) (fc_port_state dp.d_name)) s
          (λ s'. host_loop rest failed count s')
      else host_loop rest failed count s

  with_totals : Run Totals → Run Totals
  with_totals (done s) = done (record s {
    stats = record s.stats { rx_frames = s.drx_frames_tot; tx_frames = s.dtx_frames_tot };
  })
  with_totals (ended status) = ended status
  with_totals null_pointer = null_pointer

  -- `dir` is /sys/class/fc_host, where it can be opened.
  unfoldable pub fc_host_status : Option (List Entry) → Bool → ℕ → Run Totals
  unfolding host_loop with_totals
  fc_host_status none failed count = ended state_unknown
  fc_host_status (some dir) failed count = with_totals (host_loop dir failed count no_ports)

-- The variables of `main` that the options set.
pub record Settings : Type 0 where
  pub summary : Bool
  pub verbose : Bool
  pub critical : Option Bytes
  pub warning : Option Bytes

abbrev pub defaults : Settings
defaults = record { summary = false; verbose = false; critical = none; warning = none }

pub data Opt : Type 0 where
  opt_fchostinfo opt_verbose opt_help opt_version opt_unrecognized : Opt
  opt_critical opt_warning : Bytes → Opt

switch_option : Opt → Settings → Outcome Settings
switch_option opt_fchostinfo s = returns (record s { summary = true })
switch_option (opt_critical optarg) s = returns (record s { critical = some optarg })
switch_option (opt_warning optarg) s = returns (record s { warning = some optarg })
switch_option opt_verbose s = returns (record s { verbose = true })
switch_option opt_help s = exits state_ok
switch_option opt_version s = exits state_ok
switch_option opt_unrecognized s = exits state_unknown

pub record Report : Type 0 where
  pub status : NagStatus
  pub totals : Totals

module _ (d : Double) where
  abbrev with_status : Thresholds d → Run Totals → Run Report
  with_status t (done s) =
      done (record { status = get_status d (d.of_ℤ (pos s.n_online)) t; totals = s })
  with_status t (ended status) = ended status
  with_status t null_pointer = null_pointer

  -- `mounted` is what `sysfsparser_check_for_sysfs` looks at; `--fchostinfo` prints and returns
  -- STATE_UNKNOWN.
  unfoldable pub main :
      (Bytes → Number ℕ)
      → (ℕ → File → Option Bytes)
      → List Opt
      → List Bytes
      → Bool
      → Option (List Entry)
      → Bool
      → Run Report
  unfolding getopt_loop switch_option read_arguments thresholds_or_usage fc_host_status get_status
  main strtoull sysfs opts args mounted dir failed =
      and_then (getopt_loop switch_option opts defaults) λ s.
        if s.summary
        then ended state_unknown
        else and_then (read_arguments args) λ a.
          if not mounted
          then ended state_unknown
          else and_then (thresholds_or_usage d s.warning s.critical)
              λ t. with_status t (fc_host_status strtoull sysfs dir failed a.count)
