-- ===== src/Multipath.antt =====
-- plugins/check_multipath.c: the dialogue with multipathd over a socket, and the faulty paths. A
-- `size_t` has 8 bytes and the lowest stands first.
pub mod Dialogue
pub mod Served
pub mod Bounds
use nagios_plugins_linux.Base.{
  ℕ, zero, suc, ◌+◌, ◌-◌, ◌*◌, ◌/◌, ◌%◌, Bool, true, false, not, ◌&&◌, [], ◌∷◌, ◌++◌, List, Option,
  none, some, Bytes, codes, length, take, drop, replicate, min, ltb, ◌==◌, if◌then◌else◌,
}
use nagios_plugins_linux.Messages.{
  NagStatus, state_ok, state_critical, state_unknown, Outcome, returns, exits, plugin_error, ◌>>=◌,
}

-- What a call of `read` or `write` comes back with: an error that is EINTR or EAGAIN, another
-- error, or the most bytes that it moves.
pub data Answer : Type 0 where
  again error : Answer
  moves : ℕ → Answer

-- What a sequence of calls leaves, with the answers that it does not use; it waits where they end,
-- and overruns where a call of `read` puts bytes behind the buffer.
pub data Calls (A : Type 0) : Type 0 where
  waiting overrun : Calls A
  done : A → List Answer → Calls A

written : Bytes → Calls Bytes → Calls Bytes
written front waiting = waiting
written front overrun = overrun
written front (done bytes answers) = done (front ++ bytes) answers

-- The bytes of `buf` that are written; `total` is their number.
unfoldable pub write_all : List Answer → Bytes → Calls Bytes
unfolding written
write_all answers [] = done [] answers
write_all [] (c ∷ cs) = waiting
write_all (again ∷ answers) (c ∷ cs) = write_all answers (c ∷ cs)
write_all (error ∷ answers) (c ∷ cs) = done [] answers
write_all (moves zero ∷ answers) (c ∷ cs) = done [] answers
write_all (moves (suc n) ∷ answers) (c ∷ cs) =
    written (c ∷ take n cs) (write_all answers (drop n cs))

-- `front` in front of the bytes that are read, with the bytes that are left to read.
read : Bytes → Calls (Bytes × Bytes) → Calls (Bytes × Bytes)
read front waiting = waiting
read front overrun = overrun
read front (done (bytes, incoming) answers) = done (front ++ bytes, incoming) answers

-- The bytes that are put into `buf`, of those that are `incoming`; `len` is what is asked for, and
-- `room` the number of bytes that the buffer has from there on. A call of `read` moves none at the
-- end of the file only.
unfoldable pub read_all : ℕ → List Answer → ℕ → Bytes → Calls (Bytes × Bytes)
unfolding read
read_all room answers zero incoming = done ([], incoming) answers
read_all room [] (suc len) incoming = waiting
read_all room (again ∷ answers) (suc len) incoming = read_all room answers (suc len) incoming
read_all room (error ∷ answers) (suc len) incoming = done ([], incoming) answers
read_all room (moves zero ∷ answers) (suc len) incoming = done ([], incoming) answers
read_all room (moves (suc n) ∷ answers) (suc len) [] = done ([], []) answers
read_all room (moves (suc n) ∷ answers) (suc len) (c ∷ cs) =
    let got = c ∷ take (min n len) cs in
    let rest = read_all (room - length got) answers (len - min n len) (drop (min n len) cs) in
    if ltb room (length got) then overrun else read got rest

-- The bytes of a `size_t`, and back.
abbrev size_bytes_of : ℕ → ℕ → Bytes
size_bytes_of zero n = []
size_bytes_of (suc k) n = (n % 256) ∷ size_bytes_of k (n / 256)

abbrev pub size_bytes : ℕ → Bytes
size_bytes n = size_bytes_of 8 n

abbrev pub size_of : Bytes → ℕ
size_of [] = 0
size_of (c ∷ cs) = c + 256 * size_of cs

-- The rest of a dialogue, behind calls that have to move a number of bytes.
abbrev after_write : ℕ → Calls Bytes → (List Answer → Calls (Outcome Bytes)) → Calls (Outcome Bytes)
after_write len waiting next = waiting
after_write len overrun next = overrun
after_write len (done bytes answers) next =
    if length bytes == len then next answers else done (plugin_error state_unknown) answers

abbrev after_read :
    ℕ
    → Calls (Bytes × Bytes)
    → (Bytes → Bytes → List Answer → Calls (Outcome Bytes))
    → Calls (Outcome Bytes)
after_read len waiting next = waiting
after_read len overrun next = overrun
after_read len (done (bytes, incoming) answers) next =
    if length bytes == len
    then next bytes incoming answers
    else done (plugin_error state_unknown) answers

-- The bytes of `buf`, which are zero before.
reply_in : ℕ → ℕ → Bytes → List Answer → Calls (Outcome Bytes)
reply_in bufsize len bytes answers = done (returns (bytes ++ replicate (bufsize - len) 0)) answers

read_reply : ℕ → Bytes → Bytes → List Answer → Calls (Outcome Bytes)
unfolding read_all reply_in
read_reply bufsize size incoming answers =
    if ltb bufsize (size_of size)
    then done (plugin_error state_unknown) answers
    else after_read (size_of size) (read_all bufsize answers (size_of size) incoming)
        λ bytes left rest. reply_in bufsize (size_of size) bytes rest

receive : ℕ → Bytes → List Answer → Calls (Outcome Bytes)
unfolding read_all read_reply
receive bufsize incoming answers = after_read 8 (read_all 8 answers 8 incoming) (read_reply bufsize)

-- The text is sent with the closing NUL.
send : Bytes → List Answer → (List Answer → Calls (Outcome Bytes)) → Calls (Outcome Bytes)
unfolding write_all
send query answers next = after_write (length query + 1) (write_all answers (query ++ 0 ∷ [])) next

-- The length of the message is sent, and then the message. `connected` is whether
-- `multipathd_connect` returns a socket.
unfoldable pub multipathd_query : Bool → List Answer → Bytes → Bytes → ℕ → Calls (Outcome Bytes)
unfolding write_all send receive
multipathd_query connected answers incoming query bufsize =
    if not connected
    then done (plugin_error state_unknown) answers
    else after_write 8 (write_all answers (size_bytes (length query + 1)))
        λ rest. send query rest (receive bufsize incoming)

-- A token that was read, in front of the others; there are no empty ones.
abbrev finished : Bytes → List Bytes → List Bytes
finished [] rest = rest
finished (r ∷ rs) rest = (r ∷ rs) ∷ rest

-- The tokens of `strtok_r (str1, "\n", …)` up to the NUL, behind the bytes of one that is being
-- read; none where no NUL comes, so that the source reads behind the buffer.
unfoldable pub tokens : Bytes → Bytes → Option (List Bytes)
tokens token [] = none
tokens token (c ∷ cs) =
    let next = tokens (if c == 10 then [] else token ++ c ∷ []) cs in
    if c == 0
    then some (finished token [])
    else if c == 10
    then elim next [ none ↦ none | some l ↦ some (finished token l) ]
    else next

-- What `main` ends with: the state and the number of faulty paths.
pub data Result : Type 0 where
  ends : NagStatus → ℕ → Result
  reads_behind : Result

-- `regexec` is whether a line fits the pattern of a path that is active and ready.
module _ (regexec : Bytes → Bool) where
  abbrev pub faulty : List Bytes → ℕ
  faulty [] = 0
  faulty (token ∷ rest) = (if regexec token then 0 else 1) + faulty rest

  -- The first row is the heading.
  abbrev pub faulty_rows : List Bytes → ℕ
  faulty_rows [] = 0
  faulty_rows (heading ∷ rest) = faulty rest

  check_for_faulty_paths : Option (List Bytes) → Result
  check_for_faulty_paths none = reads_behind
  check_for_faulty_paths (some rows) =
      if ltb 0 (faulty_rows rows) then ends state_critical (faulty_rows rows) else ends state_ok 0

  reported : Bool → Calls (Outcome Bytes) → Calls Result
  unfolding tokens check_for_faulty_paths
  reported compiled waiting = waiting
  reported compiled overrun = overrun
  reported compiled (done (exits status) answers) = done (ends status 0) answers
  reported compiled (done (returns buffer) answers) =
      if compiled
      then done (check_for_faulty_paths (tokens [] buffer)) answers
      else done (ends state_unknown 0) answers

  -- From `getuid` on; `compiled` is whether `regcomp` returns 0.
  unfoldable pub main : Bool → Bool → Bool → List Answer → Bytes → Calls Result
  unfolding multipathd_query reported
  main is_root connected compiled answers incoming =
      if is_root
      then reported compiled
          (multipathd_query connected answers incoming (codes "show paths") 10240)
      else done (ends state_unknown 0) answers
