-- ===== src/Fc/Ports.antt =====
-- What plugins/check_fc.c counts where all files of the hosts can be read.
use nagios_plugins_linux.Base.{
  ℕ, zero, suc, ◌+◌, ◌-◌, ◌^◌, ◌%◌, ◌<◌, ◌≡◌, refl, Bool, false, not, [], ◌∷◌, List, Option, some,
  Bytes, codes, streq, length, if◌then◌else◌, add64, sub64, arith, Bool-cases, inl, inr,
}
use nagios_plugins_linux.Base.Numeral.{Number}
use nagios_plugins_linux.Messages.{returns}
use nagios_plugins_linux.Sysfs.{File, fc_port_state, Entry, getline}
use nagios_plugins_linux.Program.{Slots, slot, put}
use nagios_plugins_linux.Program.Rates.{slot-put_here, slot-put_there}
use nagios_plugins_linux.Fc.{
  FcHostStatistics, Totals, no_ports, is_host, Frames, fc_host_get_statistic, frames_loop,
  host_frames, add_errors, host_round, done, port_round, host_loop, fc_host_status, with_totals,
}

-- The names of the hosts in the directory.
abbrev pub hosts : List Entry → List Bytes
hosts [] = []
hosts (dp ∷ rest) = if is_host dp then dp.d_name ∷ hosts rest else hosts rest

-- `value t host which` is a counter at a time, and `state t host` the state of the port. The rounds
-- of a host end `more + 1` later.
module _ (value : ℕ → Bytes → Bytes → ℕ) (state : ℕ → Bytes → Bytes) (more : ℕ) where
  abbrev pub online : ℕ → List Bytes → ℕ
  online t [] = 0
  online t (h ∷ hs) =
      (if streq (state t h) (codes "Online") then 1 else 0) + online (t + suc more) hs

  -- What a counter grew by between the last two readings.
  abbrev pub growth : Bytes → ℕ → Bytes → ℕ
  growth which t h = sub64 (value (t + suc more) h which) (value (t + more) h which)

  abbrev pub sum_of_growth : Bytes → ℕ → List Bytes → ℕ
  sum_of_growth which t [] = 0
  sum_of_growth which t (h ∷ hs) = growth which t h + sum_of_growth which (t + suc more) hs

  module _ (strtoull : Bytes → Number ℕ) (sysfs : ℕ → File → Option Bytes) where
    -- Every counter and every state of a port can be read.
    abbrev pub AreRead : Type 0
    AreRead =
        ((t : ℕ) (host which : Bytes)
          → fc_host_get_statistic strtoull sysfs which host t ≡ returns (value t host which))
        × ((t : ℕ) (host : Bytes) → getline (sysfs t) (fc_port_state host) ≡ some (state t host))

    module _ (read : AreRead) where
      -- The frames at the end of the rounds of a host that start at a time.
      last_frames : ℕ → ℕ → Bytes → Frames
      last_frames t left h = record {
        rx =
            sub64 (value (t + suc left) h (codes "rx_frames"))
              (value (t + left) h (codes "rx_frames"));
        tx =
            sub64 (value (t + suc left) h (codes "tx_frames"))
              (value (t + left) h (codes "tx_frames"));
        time = t + suc left;
      }

      frames_loop-last :
          (h : Bytes) (left t : ℕ) (tog : Bool) (rx tx : Slots) (f : Frames)
          → slot tog rx ≡ value t h (codes "rx_frames")
          → slot tog tx ≡ value t h (codes "tx_frames")
          → frames_loop strtoull sysfs h (suc left) t tog rx tx f ≡ returns (last_frames t left h)
      unfolding frames_loop last_frames
      frames_loop-last h zero t tog rx tx f p q =
          let r = value (suc t) h (codes "rx_frames") in
          let w = value (suc t) h (codes "tx_frames") in
          let one : t + 1 ≡ suc t = omega arith in
          let same : t + 0 ≡ t = omega arith in
          rw
            (
              one,
              same,
              read.0 (suc t) h (codes "rx_frames"),
              read.0 (suc t) h (codes "tx_frames"),
              slot-put_here tog r rx,
              slot-put_here tog w tx,
              slot-put_there tog r rx,
              slot-put_there tog w tx,
              p,
              q,
            )
            refl
      frames_loop-last h (suc left) t tog rx tx f p q =
          let r = value (suc t) h (codes "rx_frames") in
          let w = value (suc t) h (codes "tx_frames") in
          let rx' = put (not tog) r rx in
          let tx' = put (not tog) w tx in
          let next : Frames = record {
            rx = sub64 (slot (not tog) rx') (slot tog rx');
            tx = sub64 (slot (not tog) tx') (slot tog tx');
            time = suc t;
          } in
          let shifted : suc t + left ≡ t + suc left = omega arith in
          let again : suc t + suc left ≡ t + suc (suc left) = omega arith in
          let rest =
            frames_loop-last h left (suc t) (not tog) rx' tx' next (slot-put_here tog r rx)
              (slot-put_here tog w tx) in
          rw (read.0 (suc t) h (codes "rx_frames"), read.0 (suc t) h (codes "tx_frames"))
            (rw (shifted, again) at rest)

      host_frames-last :
          (h : Bytes) (t : ℕ)
          → host_frames strtoull sysfs h (suc (suc more)) t ≡ returns (last_frames t more h)
      unfolding host_frames
      host_frames-last h t =
          let one : suc (suc more) - 1 ≡ suc more = omega arith in
          let r = value t h (codes "rx_frames") in
          let w = value t h (codes "tx_frames") in
          rw (read.0 t h (codes "rx_frames"), read.0 t h (codes "tx_frames"), one)
            (frames_loop-last h more t false (record { first = r; second = 0 })
              (record { first = w; second = 0 }) (record { rx = r; tx = w; time = t }) refl refl)

      -- The totals behind a host.
      behind_host : Bytes → FcHostStatistics → Totals → Totals
      behind_host h stats s = record {
        n_ports = s.n_ports + 1;
        n_online = if streq (state s.time h) (codes "Online") then s.n_online + 1 else s.n_online;
        stats = stats;
        drx_frames_tot = add64 s.drx_frames_tot (growth (codes "rx_frames") s.time h);
        dtx_frames_tot = add64 s.dtx_frames_tot (growth (codes "tx_frames") s.time h);
        time = s.time + suc more;
      }

      -- The statistics behind a host.
      with_errors : Bytes → Totals → FcHostStatistics
      with_errors h s =
          let t = s.time + suc more in
          record {
            rx_frames = growth (codes "rx_frames") s.time h;
            tx_frames = growth (codes "tx_frames") s.time h;
            error_frames = add64 s.stats.error_frames (value t h (codes "error_frames"));
            invalid_crc_count =
                add64 s.stats.invalid_crc_count (value t h (codes "invalid_crc_count"));
            link_failure_count =
                add64 s.stats.link_failure_count (value t h (codes "link_failure_count"));
            loss_of_signal_count =
                add64 s.stats.loss_of_signal_count (value t h (codes "loss_of_signal_count"));
            loss_of_sync_count =
                add64 s.stats.loss_of_sync_count (value t h (codes "loss_of_sync_count"));
          }

      host_round_lem :
          (h : Bytes) (s : Totals)
          → host_round strtoull sysfs h (suc (suc more)) (streq (state s.time h) (codes "Online")) s
            ≡ returns (behind_host h (with_errors h s) s)
      unfolding host_round add_errors behind_host last_frames with_errors
      host_round_lem h s =
          rw
            (
              host_frames-last h s.time,
              read.0 (s.time + suc more) h (codes "error_frames"),
              read.0 (s.time + suc more) h (codes "invalid_crc_count"),
              read.0 (s.time + suc more) h (codes "link_failure_count"),
              read.0 (s.time + suc more) h (codes "loss_of_signal_count"),
              read.0 (s.time + suc more) h (codes "loss_of_sync_count"),
            )
            refl

      -- What the loop adds to the totals.
      abbrev Adds : List Bytes → Totals → Totals → Type 0
      Adds hs s s' =
          (s'.n_ports ≡ s.n_ports + length hs)
          × (s'.n_online ≡ s.n_online + online s.time hs)
          × (s'.drx_frames_tot
              ≡ (s.drx_frames_tot + sum_of_growth (codes "rx_frames") s.time hs) % 2 ^ 64)
          × (s'.dtx_frames_tot
              ≡ (s.dtx_frames_tot + sum_of_growth (codes "tx_frames") s.time hs) % 2 ^ 64)

      behind_host-Adds :
          (h : Bytes) (hs : List Bytes) (stats : FcHostStatistics) (s s' : Totals)
          → Adds hs (behind_host h stats s) s'
          → Adds (h ∷ hs) s s'
      unfolding behind_host
      behind_host-Adds h hs stats s s' (ports, on, rx, tx) = (
        omega (arith, ports),
        elim (Bool-cases (streq (state s.time h) (codes "Online"))) [
          | inl e ↦ rw e (omega (arith, rw e at on))
          | inr e ↦ rw e (omega (arith, rw e at on))
        ],
        omega (arith, rx),
        omega (arith, tx),
      )

      host_loop-Adds :
          (dir : List Entry) (s : Totals)
          → s.drx_frames_tot < 2 ^ 64
          → s.dtx_frames_tot < 2 ^ 64
          → (s' : Totals) × (host_loop strtoull sysfs dir false (suc (suc more)) s ≡ done s')
            × Adds (hosts dir) s s'
      unfolding host_loop port_round
      host_loop-Adds [] s a b = (s, refl, (omega arith, omega arith, omega arith, omega arith))
      host_loop-Adds (dp ∷ rest) s a b = elim (Bool-cases (is_host dp)) [
        | inl e ↦
            let stats = with_errors dp.d_name s in
            let p = host_round_lem dp.d_name s in
            let next = behind_host dp.d_name stats s in
            let bound_rx : next.drx_frames_tot < 2 ^ 64 = unfold behind_host in omega arith in
            let bound_tx : next.dtx_frames_tot < 2 ^ 64 = unfold behind_host in omega arith in
            let (s', q, adds) = host_loop-Adds rest next bound_rx bound_tx in
            (
              s',
              rw (e, read.1 s.time dp.d_name, p) q,
              rw e (behind_host-Adds dp.d_name (hosts rest) stats s s' adds),
            )
        | inr e ↦ let (s', q, adds) = host_loop-Adds rest s a b in (s', rw e q, rw e adds)
      ]

-- With two or more readings, where every counter and every state of a port can be read,
-- fc_host_status counts all hosts and those that are online when their turn comes, and the frames
-- are the sums over the hosts of what the counters grew by between their last two readings, modulo
-- 2^64.
pub fc_host_status-counts :
    (strtoull : Bytes → Number ℕ) (sysfs : ℕ → File → Option Bytes) (value : ℕ → Bytes → Bytes → ℕ)
    (state : ℕ → Bytes → Bytes) (more : ℕ) (dir : List Entry)
    → AreRead value state more strtoull sysfs
    → (s : Totals) × (fc_host_status strtoull sysfs (some dir) false (suc (suc more)) ≡ done s)
      × (s.n_ports ≡ length (hosts dir))
      × (s.n_online ≡ online value state more 0 (hosts dir))
      × (s.stats.rx_frames
          ≡ sum_of_growth value state more (codes "rx_frames") 0 (hosts dir) % 2 ^ 64)
      × (s.stats.tx_frames
          ≡ sum_of_growth value state more (codes "tx_frames") 0 (hosts dir) % 2 ^ 64)
unfolding fc_host_status with_totals
fc_host_status-counts strtoull sysfs value state more dir read =
    let (s, p, (ports, on, rx, tx)) =
      host_loop-Adds value state more strtoull sysfs read dir no_ports (omega arith)
        (omega arith) in
    (
      record s {
        stats = record s.stats { rx_frames = s.drx_frames_tot; tx_frames = s.dtx_frames_tot };
      },
      rw p refl,
      omega (arith, ports),
      omega (arith, on),
      omega (arith, rx),
      omega (arith, tx),
    )
