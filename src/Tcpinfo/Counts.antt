-- ===== src/Tcpinfo/Counts.antt =====
-- The counters of lib/tcpinfo.c against the lines that were read.
use nagios_plugins_linux.Base.{
  ℕ, ◌+◌, ◌^◌, ◌<◌, ◌≡◌, refl, [], ◌∷◌, List, Option, some, Bytes, arith, ◌==◌, if◌then◌else◌,
  length,
}
use nagios_plugins_linux.Messages.{returns}
use nagios_plugins_linux.Tcpinfo.{
  TcpStatus, established, syn_sent, syn_recv, fin_wait1, fin_wait2, time_wait, close, close_wait,
  last_ack, listen, closing, status_of, ProcTcptableData, count_state, assigned, count_lines,
  behind_heading, procparser_tcp,
}

-- The number of a status in the kernel.
abbrev pub number : TcpStatus → ℕ
number established = 1
number syn_sent = 2
number syn_recv = 3
number fin_wait1 = 4
number fin_wait2 = 5
number time_wait = 6
number close = 7
number close_wait = 8
number last_ack = 9
number listen = 10
number closing = 11

abbrev pub counter : TcpStatus → ProcTcptableData → ℕ
counter established t = t.tcp_established
counter syn_sent t = t.tcp_syn_sent
counter syn_recv t = t.tcp_syn_recv
counter fin_wait1 t = t.tcp_fin_wait1
counter fin_wait2 t = t.tcp_fin_wait2
counter time_wait t = t.tcp_time_wait
counter close t = t.tcp_close
counter close_wait t = t.tcp_close_wait
counter last_ack t = t.tcp_last_ack
counter listen t = t.tcp_listen
counter closing t = t.tcp_closing

-- The states that are counted: a line without one counts again for the line before it.
abbrev pub effective : (Bytes → Option ℕ) → ℕ → List Bytes → List ℕ
effective scan state [] = []
effective scan state (line ∷ lines) =
    assigned state (scan line) ∷ effective scan (assigned state (scan line)) lines

abbrev pub occurrences : ℕ → List ℕ → ℕ
occurrences n [] = 0
occurrences n (m ∷ l) = (if m == n then 1 else 0) + occurrences n l

count_state-counter :
    (s : TcpStatus) (state : ℕ) (t : ProcTcptableData)
    → counter s t + 1 < 2 ^ 64
    → counter s (count_state (status_of state) t)
      ≡ counter s t + (if state == number s then 1 else 0)
unfolding count_state
count_state-counter established state t b = ground arith
count_state-counter s state t b = ground arith

module _ (scan : Bytes → Option ℕ) where
  count_lines-counter :
      (s : TcpStatus) (state : ℕ) (lines : List Bytes) (t : ProcTcptableData)
      → counter s t + length lines < 2 ^ 64
      → counter s (count_lines scan state lines t)
        ≡ counter s t + occurrences (number s) (effective scan state lines)
  unfolding count_lines
  count_lines-counter s state [] t b = omega arith
  count_lines-counter s state (line ∷ lines) t b =
      let now = assigned state (scan line) in
      let one = count_state-counter s now t (omega arith) in
      let rest =
        count_lines-counter s now lines (count_state (status_of now) t) (ground (arith, one)) in
      omega (arith, one, rest)

  -- For each of the eleven states, reading a table adds to its counter the number of lines behind
  -- the heading that are in this state, where a line from which no state is read is taken to be in
  -- the state of the line before it, and the first such line in the one that the uninitialised
  -- variable holds; the counters are to fit 64 bits.
  pub procparser_tcp-counter :
      (heading : Bytes) (lines : List Bytes) (state : ℕ) (t : ProcTcptableData)
      → ((s : TcpStatus) → counter s t + length lines < 2 ^ 64)
      → (t' : ProcTcptableData) × (procparser_tcp scan (some (heading ∷ lines)) state t
          ≡ returns t')
        × ((s : TcpStatus)
            → counter s t' ≡ counter s t + occurrences (number s) (effective scan state lines))
  unfolding procparser_tcp behind_heading
  procparser_tcp-counter heading lines state t b =
      (count_lines scan state lines t, refl, λ s. count_lines-counter s state lines t (b s))
