-- ===== src/Multipath/Dialogue.antt =====
-- `write_all` and `read_all` of plugins/check_multipath.c over calls that are interrupted or move a
-- part only, as long as each wait ends.
use native.Mathlib.Nat.{suc-add, zero-add}
use nagios_plugins_linux.Base.{
  ℕ, zero, suc, ◌+◌, ◌-◌, ◌≤◌, ◌≡◌, refl, ap, ◌∙◌, [], ◌∷◌, ◌++◌, List, Bytes, length, take, drop,
  min, arith, take-append-drop, take-split, drop-split, length-drop, length-take_le, ltb, false,
}
use nagios_plugins_linux.Multipath.{Answer, again, moves, done, write_all, read_all, written, read}

-- The first answers of an endless sequence of them, and those from a place on.
abbrev pub first : ℕ → (ℕ → Answer) → List Answer
first zero s = []
first (suc n) s = s 0 ∷ first n (λ i. s (suc i))

abbrev pub later : ℕ → (ℕ → Answer) → ℕ → Answer
later zero s = s
later (suc n) s = later n (λ i. s (suc i))

-- Some calls are interrupted, and then one moves at least a byte.
abbrev pub Waits : ℕ → (ℕ → Answer) → Type 0
Waits zero s = (n : ℕ) × (s 0 ≡ moves (suc n))
Waits (suc d) s = (s 0 ≡ again) × Waits d (λ i. s (suc i))

-- It is so from each moment on.
abbrev pub IsFair : (ℕ → Answer) → Type 0
IsFair s = (k : ℕ) → (d : ℕ) × Waits d (later k s)

pub later-IsFair : (k : ℕ) (s : ℕ → Answer) → IsFair s → IsFair (later k s)
later-IsFair zero s f = f
later-IsFair (suc k) s f = later-IsFair k (λ i. s (suc i)) (λ j. f (suc j))

pub first-append :
    (n m : ℕ) (s : ℕ → Answer) (rest : List Answer)
    → first (n + m) s ++ rest ≡ first n s ++ (first m (later n s) ++ rest)
first-append zero m s rest = rw zero-add refl
first-append (suc n) m s rest =
    rw (suc-add n m) (ap {B = List Answer} (λ l. s 0 ∷ l) (first-append n m (λ i. s (suc i)) rest))

-- All of the text is written, in some number of calls.
abbrev pub Writes : (ℕ → Answer) → Bytes → Type 0
Writes s buf = (n : ℕ) × ((rest : List Answer) → write_all (first n s ++ rest) buf ≡ done buf rest)

write_all-Waits :
    (d : ℕ) (s : ℕ → Answer) (c : ℕ) (cs : Bytes)
    → IsFair s
    → Waits d s
    → ((t : ℕ → Answer) (buf : Bytes) → IsFair t → length buf ≤ length cs → Writes t buf)
    → Writes s (c ∷ cs)
unfolding write_all written
write_all-Waits zero s c cs f (m, e) next =
    let (n, p) = next (λ i. s (suc i)) (drop m cs) (later-IsFair 1 s f) (length-drop m cs) in
    (suc n, λ rest. rw (e, p rest, take-append-drop m cs) refl)
write_all-Waits (suc d) s c cs f (e, w) next =
    let (n, p) = write_all-Waits d (λ i. s (suc i)) c cs (later-IsFair 1 s f) w next in
    (suc n, λ rest. rw (e, p rest) refl)

write_all-within :
    (fuel : ℕ) (s : ℕ → Answer) (buf : Bytes) → IsFair s → length buf ≤ fuel → Writes s buf
unfolding write_all
write_all-within fuel s [] f h = (0, λ rest. refl)
write_all-within zero s (c ∷ cs) f h = absurd (omega arith)
write_all-within (suc fuel) s (c ∷ cs) f h =
    write_all-Waits (f 0).0 s c cs f (f 0).1
      λ t buf g l. write_all-within fuel t buf g (omega arith)

pub write_all-Writes : (s : ℕ → Answer) (buf : Bytes) → IsFair s → Writes s buf
write_all-Writes s buf f = write_all-within (length buf) s buf f (omega arith)

-- As many bytes as are asked for are read, or all up to the end of the file, into a buffer with room
-- for them.
abbrev pub Reads : (ℕ → Answer) → ℕ → Bytes → Type 0
Reads s len incoming =
    (n : ℕ) × ((room : ℕ) (rest : List Answer)
      → len ≤ room
      → read_all room (first n s ++ rest) len incoming
        ≡ done (take len incoming, drop len incoming) rest)

read_all-parts :
    (m len : ℕ) (cs : Bytes)
    → (take (min m len) cs ++ take (len - min m len) (drop (min m len) cs) ≡ take len cs)
      × (drop (len - min m len) (drop (min m len) cs) ≡ drop len cs)
read_all-parts m len cs =
    let whole : min m len + (len - min m len) ≡ len = omega arith in
    (
      take-split (min m len) (len - min m len) cs ∙ ap (λ n. take n cs) whole,
      drop-split (min m len) (len - min m len) cs ∙ ap (λ n. drop n cs) whole,
    )

read_all-Waits :
    (d : ℕ) (s : ℕ → Answer) (len : ℕ) (incoming : Bytes)
    → IsFair s
    → Waits d s
    → ((t : ℕ → Answer) (l : ℕ) (left : Bytes) → IsFair t → l ≤ len → Reads t l left)
    → Reads s (suc len) incoming
unfolding read_all read
read_all-Waits zero s len [] f (m, e) next = (1, λ room rest l. rw e refl)
read_all-Waits zero s len (c ∷ cs) f (m, e) next =
    let (n, p) =
      next (λ i. s (suc i)) (len - min m len) (drop (min m len) cs) (later-IsFair 1 s f)
        (omega arith) in
    let (a, b) = read_all-parts m len cs in
    (
      suc n,
      λ room rest l.
          let k = length-take_le (min m len) cs in
          let fits : ltb room (suc (length (take (min m len) cs))) ≡ false = ground (arith, k) in
          rw (e, fits, p (room - suc (length (take (min m len) cs))) rest (omega (arith, k)), a, b)
            refl,
    )
read_all-Waits (suc d) s len incoming f (e, w) next =
    let (n, p) = read_all-Waits d (λ i. s (suc i)) len incoming (later-IsFair 1 s f) w next in
    (suc n, λ room rest l. rw (e, p room rest l) refl)

read_all-within :
    (fuel : ℕ) (s : ℕ → Answer) (len : ℕ) (incoming : Bytes)
    → IsFair s
    → len ≤ fuel
    → Reads s len incoming
unfolding read_all
read_all-within fuel s zero incoming f h = (0, λ room rest l. refl)
read_all-within zero s (suc len) incoming f h = absurd (omega arith)
read_all-within (suc fuel) s (suc len) incoming f h =
    read_all-Waits (f 0).0 s len incoming f (f 0).1
      λ t l left g b. read_all-within fuel t l left g (omega arith)

pub read_all-Reads : (s : ℕ → Answer) (len : ℕ) (incoming : Bytes) → IsFair s → Reads s len incoming
read_all-Reads s len incoming f = read_all-within len s len incoming f (omega arith)
