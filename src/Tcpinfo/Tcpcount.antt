-- ===== src/Tcpinfo/Tcpcount.antt =====
-- plugins/check_tcpcount.c: the established connections against the thresholds.
use nagios_plugins_linux.Base.{
  ℕ, ◌+◌, ◌/◌, ◌%◌, ◌^◌, ◌<◌, ◌≤◌, Bool, true, false, [], ◌∷◌, List, Option, none, some, Bytes,
  ◌==◌, if◌then◌else◌, ◌≡◌, refl, arith, length,
}
use nagios_plugins_linux.Base.Int.{ℤ, pos, negsuc}
use nagios_plugins_linux.Base.Double.{Double}
use nagios_plugins_linux.Messages.{
  NagStatus, state_ok, state_unknown, Outcome, returns, exits, plugin_error, ◌>>=◌,
}
use nagios_plugins_linux.Messages.Worst.{ladder}
use nagios_plugins_linux.Thresholds.{Range, Thresholds, parse_argument, alerts, get_status}
use nagios_plugins_linux.Program.{getopt_loop, thresholds_or_usage}
use nagios_plugins_linux.Program.Ladder.{thresholds_or_usage-parsed}
use nagios_plugins_linux.Tcpinfo.{
  TcpStatus, established, assigned, tcp_v4, tcp_v6, ProcTcptableData, ProcTcptable, zeroed,
  proc_tcptable_new, proc_tcptable_read, proc_tcp_get, procparser_tcp, read_data,
}
use nagios_plugins_linux.Tcpinfo.Counts.{
  procparser_tcp-counter, effective, occurrences, counter, number,
}

-- The variables of `main` that the options set.
pub record Settings : Type 0 where
  pub tcp_flags : ℕ
  pub verbose : Bool
  pub critical : Option Bytes
  pub warning : Option Bytes

abbrev pub defaults : Settings
defaults = record { tcp_flags = 0; verbose = false; critical = none; warning = none }

pub data Opt : Type 0 where
  opt_tcp opt_tcp6 opt_verbose opt_help opt_version opt_unrecognized : Opt
  opt_critical opt_warning : Bytes → Opt

-- `tcp_flags |= flag`, for a flag of one bit.
abbrev with_flag : ℕ → ℕ → ℕ
with_flag flag flags = if (flags / flag) % 2 == 1 then flags else flags + flag

unfoldable pub switch_option : Opt → Settings → Outcome Settings
switch_option opt_tcp s = returns (record s { tcp_flags = with_flag tcp_v4 s.tcp_flags })
switch_option opt_tcp6 s = returns (record s { tcp_flags = with_flag tcp_v6 s.tcp_flags })
switch_option (opt_critical optarg) s = returns (record s { critical = some optarg })
switch_option (opt_warning optarg) s = returns (record s { warning = some optarg })
switch_option opt_verbose s = returns (record s { verbose = true })
switch_option opt_help s = exits state_ok
switch_option opt_version s = exits state_ok
switch_option opt_unrecognized s = exits state_unknown

-- The flags for the reader; TCP_VERBOSE is 2.
abbrev pub flags_of : Settings → ℕ
flags_of s =
    let chosen = if s.tcp_flags == 0 then tcp_v4 else s.tcp_flags in
    if s.verbose then with_flag 2 chosen else chosen

is_negative : ℤ → Bool
is_negative (pos n) = false
is_negative (negsuc n) = true

-- What is printed and returned: the state and the eleven counters.
pub record Report : Type 0 where
  pub status : NagStatus
  pub counters : ProcTcptableData

counters_of : Option ProcTcptable → ProcTcptableData
counters_of none = zeroed
counters_of (some tcptable) = tcptable.contents

-- `scan` is `sscanf` of lib/tcpinfo.c; `tcp` and `tcp6` are the files, and `state` and `state6` what
-- the variable of the reader holds before.
module _ (scan : Bytes → Option ℕ) (d : Double) (tcp tcp6 : Option (List Bytes))
    (state state6 : ℕ) where
  read_and_report : Settings → Thresholds d → ℤ × Option ProcTcptable → Outcome Report
  unfolding proc_tcptable_read proc_tcp_get get_status counters_of is_negative
  read_and_report s my_threshold new =
      if is_negative new.0
      then plugin_error state_unknown
      else proc_tcptable_read scan (flags_of s) tcp tcp6 state state6 new.1 >>= λ tcptable.
          returns (record {
            status =
                get_status d
                  (d.of_ℤ
                    (pos (proc_tcp_get (λ (t : ProcTcptableData). t.tcp_established) tcptable)))
                  my_threshold;
            counters = counters_of tcptable;
          })

  -- `first` and `second` are whether the calls of `calloc` return memory.
  unfoldable pub main : List Opt → Bool → Bool → Outcome Report
  unfolding getopt_loop switch_option thresholds_or_usage read_and_report proc_tcptable_new
  main opts first second = getopt_loop switch_option opts defaults >>= λ s.
      thresholds_or_usage d s.warning s.critical >>= λ t.
      read_and_report s t (proc_tcptable_new first second none)

zeroed-counter : (s : TcpStatus) → counter s zeroed ≡ 0
zeroed-counter s = ground arith

module _ (scan : Bytes → Option ℕ) where
  -- The lines of a table in a state, if the table is asked for.
  abbrev pub lines_in : TcpStatus → Bool → ℕ → List Bytes → ℕ
  lines_in s asked state lines =
      if asked then occurrences (number s) (effective scan state lines) else 0

  lines_in-le :
      (s : TcpStatus) (asked : Bool) (state : ℕ) (lines : List Bytes)
      → lines_in s asked state lines ≤ length lines
  lines_in-le s false state lines = omega arith
  lines_in-le s true state [] = omega arith
  lines_in-le s true state (line ∷ lines) =
      ground (arith, lines_in-le s true (assigned state (scan line)) lines)

  table-counts :
      (asked : Bool) (heading : Bytes) (lines : List Bytes) (state : ℕ) (t : ProcTcptableData)
      → ((s : TcpStatus) → counter s t + length lines < 2 ^ 64)
      → (t' : ProcTcptableData) × ((if asked
            then procparser_tcp scan (some (heading ∷ lines)) state t
            else returns t)
          ≡ returns t')
        × ((s : TcpStatus) → counter s t' ≡ counter s t + lines_in s asked state lines)
  table-counts false heading lines state t b = (t, refl, λ s. omega arith)
  table-counts true heading lines state t b = procparser_tcp-counter scan heading lines state t b

  read_data-counts :
      (flags : ℕ) (heading heading6 : Bytes) (lines lines6 : List Bytes) (state state6 : ℕ)
      → length lines + length lines6 < 2 ^ 64
      → let v4 = (flags / tcp_v4) % 2 == 1 in
        let v6 = (flags / tcp_v6) % 2 == 1 in
        (t : ProcTcptableData) × (read_data scan flags
            (some (heading ∷ lines))
            (some (heading6 ∷ lines6))
            state
            state6
            zeroed
          ≡ returns t)
        × ((s : TcpStatus) → counter s t ≡ lines_in s v4 state lines + lines_in s v6 state6 lines6)
  unfolding read_data
  read_data-counts flags heading heading6 lines lines6 state state6 b =
      let v4 = (flags / tcp_v4) % 2 == 1 in
      let v6 = (flags / tcp_v6) % 2 == 1 in
      let (t, e, n) =
        table-counts v4 heading lines state zeroed
          (λ s. let z = zeroed-counter s in omega (arith, z, b)) in
      let (t', e', n') = table-counts v6 heading6 lines6 state6 t (λ s.
        let z = zeroed-counter s in
        let l = lines_in-le s v4 state lines in let m = n s in omega (arith, z, b, l, m)) in
      (
        t',
        rw e e',
        λ s. let z = zeroed-counter s in let m = n s in let m' = n' s in omega (arith, z, m, m'),
      )

-- With options that are read, ranges that can be parsed and tables that can be opened, whose lines
-- together do not reach 2^64, check_tcpcount reports for each state how many lines of the tables
-- asked for are in it, and decides on the number of those in ESTABLISHED: CRITICAL if it alerts the
-- critical range, else WARNING if it alerts the warning range, else OK.
pub main-established :
    (scan : Bytes → Option ℕ) (d : Double) (heading heading6 : Bytes) (lines lines6 : List Bytes)
    (state state6 : ℕ) (opts : List Opt) (s : Settings) (w c : Option (Range d))
    → getopt_loop switch_option opts defaults ≡ returns s
    → parse_argument d s.warning ≡ some w
    → parse_argument d s.critical ≡ some c
    → length lines + length lines6 < 2 ^ 64
    → let v4 = (flags_of s / tcp_v4) % 2 == 1 in
      let v6 = (flags_of s / tcp_v6) % 2 == 1 in
      let count =
        λ (k : TcpStatus). lines_in scan k v4 state lines + lines_in scan k v6 state6 lines6 in
      let v = d.of_ℤ (pos (count established)) in
      (r : Report) × (main scan d
          (some (heading ∷ lines))
          (some (heading6 ∷ lines6))
          state
          state6
          opts
          true
          true
        ≡ returns r)
      × ((k : TcpStatus) → counter k r.counters ≡ count k)
      × (r.status ≡ ladder (alerts d v c) (alerts d v w))
unfolding main read_and_report proc_tcptable_read proc_tcptable_new is_negative proc_tcp_get
    counters_of get_status
main-established scan d heading heading6 lines lines6 state state6 opts s w c o hw hc b =
    let (t, e, n) =
      read_data-counts scan (flags_of s) heading heading6 lines lines6 state state6 b in
    let v = d.of_ℤ (pos t.tcp_established) in
    let all = n established in
    (
      record { status = ladder (alerts d v c) (alerts d v w); counters = t },
      rw (o, thresholds_or_usage-parsed d s.warning s.critical w c hw hc, e) refl,
      n,
      rw (← all) refl,
    )
