-- ===== src/Multipath/Served.antt =====
-- The whole dialogue of plugins/check_multipath.c, from an answer of multipathd to the state.
use nagios_plugins_linux.Base.{
  ℕ, ◌+◌, ◌-◌, ◌≤◌, ◌≡◌, ◌≢◌, refl, sym, ap, ◌∙◌, true, false, Bool, [], ◌∷◌, ◌++◌, List, Bytes,
  codes, length, take, drop, arith, ltb, ◌==◌, ==_refl, if◌then◌else◌, some, replicate,
  length-append,
}
use mathlib.Core.List.{append_assoc, append-nil}
use nagios_plugins_linux.Messages.{Outcome, returns, state_critical, state_ok}
use nagios_plugins_linux.Multipath.{
  Answer, Calls, done, write_all, read_all, after_write, after_read, size_bytes, size_of,
  read_reply, multipathd_query, send, receive, tokens, finished, faulty, Result, ends, main,
  check_for_faulty_paths, reported, reply_in,
}
use nagios_plugins_linux.Multipath.Dialogue.{
  first, later, IsFair, later-IsFair, first-append, write_all-Writes, read_all-Reads,
}

-- With some number of the answers a dialogue comes to its end.
abbrev pub Ends : {A : Type 0} → (ℕ → Answer) → (List Answer → Calls A) → A → Type 0
Ends s dialogue out =
    (n : ℕ) × ((rest : List Answer) → dialogue (first n s ++ rest) ≡ done out rest)

after_write-Ends :
    (s : ℕ → Answer) (len : ℕ) (buf : Bytes) (next : List Answer → Calls (Outcome Bytes))
    (out : Outcome Bytes)
    → IsFair s
    → length buf ≡ len
    → ((t : ℕ → Answer) → IsFair t → Ends t next out)
    → Ends s (λ answers. after_write len (write_all answers buf) next) out
after_write-Ends s len buf next out f h rest_Ends =
    let (n, p) = write_all-Writes s buf f in
    let (m, q) = rest_Ends (later n s) (later-IsFair n s f) in
    (
      n + m,
      λ rest.
          rw (first-append n m s rest, p (first m (later n s) ++ rest), h, ==_refl len) (q rest),
    )

after_read-Ends :
    (s : ℕ → Answer) (room len : ℕ) (incoming : Bytes)
    (next : Bytes → Bytes → List Answer → Calls (Outcome Bytes)) (out : Outcome Bytes)
    → IsFair s
    → len ≤ room
    → length (take len incoming) ≡ len
    → ((t : ℕ → Answer) → IsFair t → Ends t (next (take len incoming) (drop len incoming)) out)
    → Ends s (λ answers. after_read len (read_all room answers len incoming) next) out
after_read-Ends s room len incoming next out f l h rest_Ends =
    let (n, p) = read_all-Reads s len incoming f in
    let (m, q) = rest_Ends (later n s) (later-IsFair n s f) in
    (
      n + m,
      λ rest.
          rw (first-append n m s rest, p room (first m (later n s) ++ rest) l, h, ==_refl len)
            (q rest),
    )

size_of-size_bytes : (n : ℕ) → n ≤ 10240 → size_of (size_bytes n) ≡ n
size_of-size_bytes n h = omega arith

take-front : (xs ys : Bytes) → take (length xs) (xs ++ ys) ≡ xs
take-front [] ys = refl
take-front (x ∷ xs) ys = ap {B = Bytes} (λ r. x ∷ r) (take-front xs ys)

read_reply-Ends :
    (s : ℕ → Answer) (bufsize n : ℕ) (reply behind size : Bytes)
    → IsFair s
    → length reply ≡ n
    → n ≤ bufsize
    → size_of size ≡ n
    → Ends s
        (read_reply bufsize size (reply ++ behind))
        (returns (reply ++ replicate (bufsize - n) 0))
unfolding read_reply reply_in
read_reply-Ends s bufsize n reply behind size f h b e =
    let front : take n (reply ++ behind) ≡ reply = rw (sym h) (take-front reply behind) in
    let (m, p) =
      after_read-Ends s bufsize n (reply ++ behind)
        (λ bytes left rest. reply_in bufsize n bytes rest)
        (returns (reply ++ replicate (bufsize - n) 0)) f b (rw (front, h) refl)
        (λ t g. (0, λ rest. rw front refl)) in
    let small : ltb bufsize n ≡ false = ground arith in (m, λ rest. rw (e, small) (p rest))

-- What multipathd sends: the length, and as many bytes.
abbrev pub sent : Bytes → Bytes
sent reply = size_bytes (length reply) ++ reply

multipathd_query-Ends :
    (s : ℕ → Answer) (reply behind query : Bytes)
    → IsFair s
    → length reply ≤ 10240
    → Ends s
        (λ answers. multipathd_query true answers (sent reply ++ behind) query 10240)
        (returns (reply ++ replicate (10240 - length reply) 0))
unfolding multipathd_query send receive
multipathd_query-Ends s reply behind query f b =
    after_write-Ends s 8 (size_bytes (length query + 1)) _ _ f refl λ s1 f1.
      after_write-Ends s1 (length query + 1) (query ++ 0 ∷ []) _ _ f1 (length-append query (0 ∷ []))
        λ s2 f2. after_read-Ends s2 8 8 (sent reply ++ behind) _ _ f2 (omega arith) refl λ s3 f3.
          read_reply-Ends s3 10240 (length reply) reply behind (size_bytes (length reply)) f3 refl b
            (size_of-size_bytes (length reply) b)

-- The paths that multipathd lists, each on a line of its own.
abbrev pub listing : List Bytes → Bytes
listing [] = []
listing (l ∷ ls) = l ++ 10 ∷ listing ls

abbrev InLine : Bytes → Type 0
InLine [] = Unit
InLine (c ∷ cs) = (c ≢ 10) × (c ≢ 0) × InLine cs

abbrev pub AreLines : List Bytes → Type 0
AreLines [] = Unit
AreLines (l ∷ ls) = InLine l × AreLines ls

-- The lines with something on them.
abbrev pub filled : List Bytes → List Bytes
filled [] = []
filled ([] ∷ ls) = filled ls
filled ((c ∷ cs) ∷ ls) = (c ∷ cs) ∷ filled ls

tokens-line :
    (token l rest : Bytes) (r : List Bytes)
    → InLine l
    → tokens [] rest ≡ some r
    → tokens token (l ++ 10 ∷ rest) ≡ some (finished (token ++ l) r)
unfolding tokens
tokens-line token [] rest r h e = rw (e, append-nil token) refl
tokens-line token (c ∷ cs) rest r (newline, nul, h) e =
    let n : (c == 10) ≡ false = ground arith in
    let z : (c == 0) ≡ false = ground arith in
    rw (n, z, sym (append_assoc token (c ∷ []) cs)) (tokens-line (token ++ c ∷ []) cs rest r h e)

finished-filled : (l : Bytes) (ls : List Bytes) → finished l (filled ls) ≡ filled (l ∷ ls)
finished-filled [] ls = refl
finished-filled (c ∷ cs) ls = refl

tokens-listing :
    (ls : List Bytes) (behind : Bytes)
    → AreLines ls
    → tokens [] (listing ls ++ 0 ∷ behind) ≡ some (filled ls)
unfolding tokens
tokens-listing [] behind h = refl
tokens-listing (l ∷ ls) behind h = rw (append_assoc l (10 ∷ listing ls) (0 ∷ behind)) (
    tokens-line [] l (listing ls ++ 0 ∷ behind) (filled ls) h.0 (tokens-listing ls behind h.1)
    ∙ ap (λ r. some r) (finished-filled l ls))

-- The lines that do not fit the pattern.
abbrev pub misfits : (Bytes → Bool) → List Bytes → List Bytes
misfits regexec [] = []
misfits regexec (l ∷ ls) = if regexec l then misfits regexec ls else l ∷ misfits regexec ls

faulty-misfits :
    (regexec : Bytes → Bool) (ls : List Bytes) → faulty regexec ls ≡ length (misfits regexec ls)
faulty-misfits regexec [] = refl
faulty-misfits regexec (l ∷ ls) = ground (arith, faulty-misfits regexec ls)

abbrev pub verdict : ℕ → Result
verdict n = ends (if ltb 0 n then state_critical else state_ok) n

check_for_faulty_paths-verdict :
    (regexec : Bytes → Bool) (rows : List Bytes)
    → check_for_faulty_paths regexec (some rows) ≡ verdict (length (misfits regexec (drop 1 rows)))
unfolding check_for_faulty_paths
check_for_faulty_paths-verdict regexec [] = refl
check_for_faulty_paths-verdict regexec (heading ∷ rows) =
    rw (faulty-misfits regexec rows) (ground arith)

-- For an answer of at most 10240 bytes with its NUL, and however the calls of read and write are
-- interrupted and cut up, as long as each wait ends with a byte that moves, root's dialogue comes to
-- its end: the state is CRITICAL with the number of the lines behind the heading that do not fit
-- the pattern, or OK where there is none; empty lines do not count.
pub main-served :
    (regexec : Bytes → Bool) (s : ℕ → Answer) (ls : List Bytes) (behind : Bytes)
    → IsFair s
    → AreLines ls
    → length (listing ls ++ 0 ∷ []) ≤ 10240
    → Ends s
        (λ answers. main regexec true true true answers (sent (listing ls ++ 0 ∷ []) ++ behind))
        (verdict (length (misfits regexec (drop 1 (filled ls)))))
unfolding main reported
main-served regexec s ls behind f h b =
    let reply = listing ls ++ 0 ∷ [] in
    let zeros = replicate (10240 - length reply) 0 in
    let (n, p) = multipathd_query-Ends s reply behind (codes "show paths") f b in
    let read_rows : tokens [] (reply ++ zeros) ≡ some (filled ls) =
      rw (append_assoc (listing ls) (0 ∷ []) zeros) (tokens-listing ls zeros h) in
    (
      n,
      λ rest.
          rw (p rest, read_rows)
            (ap (λ r. done r rest) (check_for_faulty_paths-verdict regexec (filled ls))),
    )
