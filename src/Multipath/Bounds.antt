-- ===== src/Multipath/Bounds.antt =====
-- The buffer of plugins/check_multipath.c, whatever multipathd answers.
use nagios_plugins_linux.Base.{
  ℕ, zero, suc, ◌+◌, ◌-◌, ◌≤◌, ◌≡◌, take, drop, min, length-take_le, Bool, true, false, [], ◌∷◌,
  ◌++◌, List, Bytes, length, replicate, Bool-cases, inl, inr, ltb, ◌==◌, arith, length-append,
  length-replicate, ==_iff,
}
use nagios_plugins_linux.Messages.{Outcome, returns, exits, plugin_error}
use nagios_plugins_linux.Multipath.{
  Answer, again, error, moves, Calls, waiting, overrun, done, written, read, after_write,
  after_read, read_reply, reply_in, size_of, read_all, multipathd_query, write_all, size_bytes,
  receive, send,
}

-- No call of `read` puts bytes behind its buffer, and what is returned has a number of bytes.
abbrev pub Fits : ℕ → Calls (Outcome Bytes) → Type 0
Fits n waiting = Unit
Fits n overrun = ⊥
Fits n (done (exits status) answers) = Unit
Fits n (done (returns buf) answers) = length buf ≡ n

abbrev IsWithin : {A : Type 0} → Calls A → Type 0
IsWithin waiting = Unit
IsWithin overrun = ⊥
IsWithin (done a answers) = Unit

written-IsWithin : (front : Bytes) (c : Calls Bytes) → IsWithin c → IsWithin (written front c)
unfolding written
written-IsWithin front waiting h = tt
written-IsWithin front overrun h = absurd h
written-IsWithin front (done bytes answers) h = tt

write_all-IsWithin : (answers : List Answer) (buf : Bytes) → IsWithin (write_all answers buf)
unfolding write_all
write_all-IsWithin answers [] = tt
write_all-IsWithin [] (c ∷ cs) = tt
write_all-IsWithin (again ∷ answers) (c ∷ cs) = write_all-IsWithin answers (c ∷ cs)
write_all-IsWithin (error ∷ answers) (c ∷ cs) = tt
write_all-IsWithin (moves zero ∷ answers) (c ∷ cs) = tt
write_all-IsWithin (moves (suc n) ∷ answers) (c ∷ cs) =
    written-IsWithin (c ∷ take n cs) _ (write_all-IsWithin answers (drop n cs))

read-IsWithin : (front : Bytes) (c : Calls (Bytes × Bytes)) → IsWithin c → IsWithin (read front c)
unfolding read
read-IsWithin front waiting h = tt
read-IsWithin front overrun h = absurd h
read-IsWithin front (done (bytes, incoming) answers) h = tt

-- Where no more is asked for than the buffer has room for, the bytes stay in it.
read_all-IsWithin :
    (room : ℕ) (answers : List Answer) (len : ℕ) (incoming : Bytes)
    → len ≤ room
    → IsWithin (read_all room answers len incoming)
unfolding read_all
read_all-IsWithin room answers zero incoming h = tt
read_all-IsWithin room [] (suc len) incoming h = tt
read_all-IsWithin room (again ∷ answers) (suc len) incoming h =
    read_all-IsWithin room answers (suc len) incoming h
read_all-IsWithin room (error ∷ answers) (suc len) incoming h = tt
read_all-IsWithin room (moves zero ∷ answers) (suc len) incoming h = tt
read_all-IsWithin room (moves (suc n) ∷ answers) (suc len) [] h = tt
read_all-IsWithin room (moves (suc n) ∷ answers) (suc len) (c ∷ cs) h =
    let k = length-take_le (min n len) cs in
    let fits : ltb room (suc (length (take (min n len) cs))) ≡ false = ground (arith, k) in
    rw fits (
      read-IsWithin (c ∷ take (min n len) cs) _ (
        read_all-IsWithin (room - suc (length (take (min n len) cs))) answers (len - min n len)
          (drop (min n len) cs) (omega (arith, k))))

after_write-Fits :
    (n len : ℕ) (c : Calls Bytes) (next : List Answer → Calls (Outcome Bytes))
    → IsWithin c
    → ((answers : List Answer) → Fits n (next answers))
    → Fits n (after_write len c next)
unfolding plugin_error
after_write-Fits n len waiting next w h = tt
after_write-Fits n len overrun next w h = absurd w
after_write-Fits n len (done bytes answers) next w h = elim (Bool-cases (length bytes == len)) [
  | inl e ↦ rw e (h answers)
  | inr e ↦ rw e tt
]

after_read-Fits :
    (n len : ℕ) (c : Calls (Bytes × Bytes))
    (next : Bytes → Bytes → List Answer → Calls (Outcome Bytes))
    → IsWithin c
    → ((bytes left : Bytes) (answers : List Answer)
        → length bytes ≡ len
        → Fits n (next bytes left answers))
    → Fits n (after_read len c next)
unfolding plugin_error
after_read-Fits n len waiting next w h = tt
after_read-Fits n len overrun next w h = absurd w
after_read-Fits n len (done (bytes, left) answers) next w h =
    elim (Bool-cases (length bytes == len)) [
      | inl e ↦ rw e (h bytes left answers ((==_iff _ _).0 e))
      | inr e ↦ rw e tt
    ]

read_reply-Fits :
    (bufsize : ℕ) (size incoming : Bytes) (answers : List Answer)
    → Fits bufsize (read_reply bufsize size incoming answers)
unfolding read_reply reply_in plugin_error
read_reply-Fits bufsize size incoming answers = elim (Bool-cases (ltb bufsize (size_of size))) [
  | inl e ↦ rw e tt
  | inr e ↦ rw e (
      after_read-Fits bufsize (size_of size) _ _
        (read_all-IsWithin bufsize answers (size_of size) incoming (ground (arith, e)))
        λ bytes left rest h.
          let total = length-append bytes (replicate (bufsize - size_of size) 0) in
          let zeros = length-replicate {A = ℕ} (bufsize - size_of size) 0 in
          ground (arith, e, h, total, zeros))
]

-- Whatever length multipathd announces, whatever it sends and however the calls go, no call of
-- `read` in multipathd_query puts a byte behind the buffer it is given, and where the function
-- returns, the buffer has its size.
pub multipathd_query-Fits :
    (connected : Bool) (answers : List Answer) (incoming query : Bytes) (bufsize : ℕ)
    → Fits bufsize (multipathd_query connected answers incoming query bufsize)
unfolding multipathd_query receive send plugin_error
multipathd_query-Fits false answers incoming query bufsize = tt
multipathd_query-Fits true answers incoming query bufsize =
    let received : (rest : List Answer) → Fits bufsize (receive bufsize incoming rest) = λ rest.
      after_read-Fits bufsize 8 (read_all 8 rest 8 incoming) (read_reply bufsize)
        (read_all-IsWithin 8 rest 8 incoming (omega arith))
        (λ size left answers3 h. read_reply-Fits bufsize size left answers3) in
    after_write-Fits bufsize 8 (write_all answers (size_bytes (length query + 1)))
      (λ rest1. send query rest1 (receive bufsize incoming))
      (write_all-IsWithin answers (size_bytes (length query + 1)))
      (λ rest1.
        after_write-Fits bufsize (length query + 1) (write_all rest1 (query ++ 0 ∷ []))
          (receive bufsize incoming) (write_all-IsWithin rest1 (query ++ 0 ∷ [])) received)
