-- ===== src/Tcpinfo.antt =====
-- lib/tcpinfo.c: the number of TCP sockets in each state. `sscanf` is a parameter; the listing of
-- the verbose mode is output only and left out.
pub mod Counts
pub mod Tcpcount
use nagios_plugins_linux.Base.{
  ℕ, ◌+◌, ◌/◌, ◌%◌, Bool, true, false, ◌&&◌, [], ◌∷◌, List, Option, none, some, Bytes, ◌==◌,
  if◌then◌else◌, u64,
}
use nagios_plugins_linux.Base.Int.{ℤ, pos, negsuc, ◌-ℤ◌, ltb_ℤ}
use nagios_plugins_linux.Messages.{state_unknown, Outcome, returns, plugin_error, ◌>>=◌}

-- `tcp_status`; the first has the number 1.
pub data TcpStatus : Type 0 where
  established syn_sent syn_recv fin_wait1 fin_wait2 time_wait close close_wait last_ack listen
        closing :
      TcpStatus

-- TCP_v4 and TCP_v6
abbrev pub tcp_v4 : ℕ
tcp_v4 = 4

abbrev pub tcp_v6 : ℕ
tcp_v6 = 8

-- The `case` labels of the `switch`.
abbrev pub status_of : ℕ → Option TcpStatus
status_of state =
    if state == 1
    then some established
    else if state == 2
    then some syn_sent
    else if state == 3
    then some syn_recv
    else if state == 4
    then some fin_wait1
    else if state == 5
    then some fin_wait2
    else if state == 6
    then some time_wait
    else if state == 7
    then some close
    else if state == 8
    then some close_wait
    else if state == 9
    then some last_ack
    else if state == 10
    then some listen
    else if state == 11
    then some closing
    else none

-- `struct proc_tcptable_data`
pub record ProcTcptableData : Type 0 where
  pub tcp_established : ℕ
  pub tcp_syn_sent : ℕ
  pub tcp_syn_recv : ℕ
  pub tcp_fin_wait1 : ℕ
  pub tcp_fin_wait2 : ℕ
  pub tcp_time_wait : ℕ
  pub tcp_close : ℕ
  pub tcp_close_wait : ℕ
  pub tcp_last_ack : ℕ
  pub tcp_listen : ℕ
  pub tcp_closing : ℕ

abbrev pub zeroed : ProcTcptableData
zeroed = record {
  tcp_established = 0;
  tcp_syn_sent = 0;
  tcp_syn_recv = 0;
  tcp_fin_wait1 = 0;
  tcp_fin_wait2 = 0;
  tcp_time_wait = 0;
  tcp_close = 0;
  tcp_close_wait = 0;
  tcp_last_ack = 0;
  tcp_listen = 0;
  tcp_closing = 0;
}

-- `struct proc_tcptable`; `none` is a null pointer, or memory that was freed.
pub record ProcTcptable : Type 0 where
  pub refcount : ℤ
  pub contents : ProcTcptableData

-- The body of the `switch`.
unfoldable pub count_state : Option TcpStatus → ProcTcptableData → ProcTcptableData
count_state none t = t
count_state (some established) t = record t { tcp_established = u64 (t.tcp_established + 1) }
count_state (some syn_sent) t = record t { tcp_syn_sent = u64 (t.tcp_syn_sent + 1) }
count_state (some syn_recv) t = record t { tcp_syn_recv = u64 (t.tcp_syn_recv + 1) }
count_state (some fin_wait1) t = record t { tcp_fin_wait1 = u64 (t.tcp_fin_wait1 + 1) }
count_state (some fin_wait2) t = record t { tcp_fin_wait2 = u64 (t.tcp_fin_wait2 + 1) }
count_state (some time_wait) t = record t { tcp_time_wait = u64 (t.tcp_time_wait + 1) }
count_state (some close) t = record t { tcp_close = u64 (t.tcp_close + 1) }
count_state (some close_wait) t = record t { tcp_close_wait = u64 (t.tcp_close_wait + 1) }
count_state (some last_ack) t = record t { tcp_last_ack = u64 (t.tcp_last_ack + 1) }
count_state (some listen) t = record t { tcp_listen = u64 (t.tcp_listen + 1) }
count_state (some closing) t = record t { tcp_closing = u64 (t.tcp_closing + 1) }

abbrev pub assigned : ℕ → Option ℕ → ℕ
assigned state none = state
assigned state (some read) = read

-- `scan` is what `sscanf` stores in `state` for a line, `none` where it stores nothing: the variable
-- then keeps its value, and a line with too few fields is counted all the same, after a warning.
module _ (scan : Bytes → Option ℕ) where
  -- The lines behind the heading; `state` is the value of the variable before them.
  unfoldable pub count_lines : ℕ → List Bytes → ProcTcptableData → ProcTcptableData
  unfolding count_state
  count_lines state [] t = t
  count_lines state (line ∷ lines) t =
      let now = assigned state (scan line) in count_lines now lines (count_state (status_of now) t)

  behind_heading : ℕ → List Bytes → ProcTcptableData → ProcTcptableData
  unfolding count_lines
  behind_heading state [] t = t
  behind_heading state (heading ∷ lines) t = count_lines state lines t

  -- `none` is a file that cannot be opened; `state` is what the variable holds at the start, which
  -- the source does not initialise.
  unfoldable pub procparser_tcp :
      Option (List Bytes) → ℕ → ProcTcptableData → Outcome ProcTcptableData
  unfolding behind_heading
  procparser_tcp none state t = plugin_error state_unknown
  procparser_tcp (some lines) state t = returns (behind_heading state lines t)

  -- `tcp` and `tcp6` are the lines of the two files, and `state` and `state6` what the variable
  -- holds at the start of each call.
  read_data :
      ℕ
      → Option (List Bytes)
      → Option (List Bytes)
      → ℕ
      → ℕ
      → ProcTcptableData
      → Outcome ProcTcptableData
  unfolding procparser_tcp
  read_data flags tcp tcp6 state state6 t =
      (if (flags / tcp_v4) % 2 == 1 then procparser_tcp tcp state t else returns t) >>= λ t'.
      if (flags / tcp_v6) % 2 == 1 then procparser_tcp tcp6 state6 t' else returns t'

  unfoldable pub proc_tcptable_read :
      ℕ
      → Option (List Bytes)
      → Option (List Bytes)
      → ℕ
      → ℕ
      → Option ProcTcptable
      → Outcome (Option ProcTcptable)
  unfolding read_data
  proc_tcptable_read flags tcp tcp6 state state6 none = returns none
  proc_tcptable_read flags tcp tcp6 state state6 (some tcptable) =
      read_data flags tcp tcp6 state state6 tcptable.contents >>= λ t.
      returns (some (record tcptable { contents = t }))

-- `first` and `second` say whether the two calls of `calloc` return memory, and -12 is -ENOMEM.
unfoldable pub proc_tcptable_new : Bool → Bool → Option ProcTcptable → ℤ × Option ProcTcptable
proc_tcptable_new first second old =
    if first && second
    then (pos 0, some (record { refcount = pos 1; contents = zeroed }))
    else (negsuc 11, old)

unfoldable pub proc_tcptable_unref : Option ProcTcptable → Option ProcTcptable
proc_tcptable_unref none = none
proc_tcptable_unref (some tcptable) =
    let count = tcptable.refcount -ℤ pos 1 in
    if ltb_ℤ (pos 0) count then some (record tcptable { refcount = count }) else none

-- The getters of the macro `proc_tcp_get`, each by its field.
unfoldable pub proc_tcp_get : (ProcTcptableData → ℕ) → Option ProcTcptable → ℕ
proc_tcp_get field none = 0
proc_tcp_get field (some tcptable) = field tcptable.contents
