-- ===== src/Collection/Totals.antt =====
-- The hash table of lib/collection.c under any sequence of insertions: each key's count is the sum
-- of its increments, and the counts of all keys add up to the number of elements.
use nagios_plugins_linux.Base.{
  ℕ, ◌+◌, ◌^◌, ◌≤◌, ◌<◌, ◌≡◌, refl, ap, ◌∙◌, sym, true, false, [], ◌∷◌, ◌++◌, List, Option, none,
  some, inl, inr, arith, Bytes, streq, streq_iff, streq_refl, if◌then◌else◌, length, Bool-cases,
  Option-cases, get_or-replicate,
}
use nagios_plugins_linux.Collection.{
  Entry, Hashtable, hashsize, hash, counter_create, counter_put, counter_lookup, find,
}
use nagios_plugins_linux.Collection.Lookup.{count_in, count_of, bumped, count_of-counter_put}
use nagios_plugins_linux.Collection.Counts.{
  IsValid, mem, Distinct, present, put-elements, put-keys, counter_put-IsValid,
  counter_create-IsValid,
}

-- The insertions of a caller, in order.
abbrev pub put_all : Hashtable → List (Bytes × ℕ) → Hashtable
put_all h [] = h
put_all h ((k, n) ∷ puts) = put_all (counter_put h k n) puts

-- The sum of the increments of a key, `none` where it is never inserted.
abbrev pub tally : Bytes → List (Bytes × ℕ) → Option ℕ
tally j [] = none
tally j ((k, n) ∷ puts) =
    if streq k j
    then elim (tally j puts) [ none ↦ some n | some m ↦ some (n + m) ]
    else tally j puts

abbrev pub number : Option ℕ → ℕ
number none = 0
number (some n) = n

-- Two tallies one after the other.
abbrev joined : Option ℕ → Option ℕ → Option ℕ
joined none b = b
joined (some n) none = some n
joined (some n) (some m) = some (n + m)

put_all-joined :
    (h : Hashtable) (puts : List (Bytes × ℕ)) (j : Bytes)
    → IsValid h
    → number (count_of h j) + number (tally j puts) < 2 ^ 64
    → count_of (put_all h puts) j ≡ joined (count_of h j) (tally j puts)
put_all-joined h [] j v b = ground arith
put_all-joined h ((k, n) ∷ puts) j v b =
    let step = count_of-counter_put h k j n v.full in
    let rest = put_all-joined (counter_put h k n) puts j (counter_put-IsValid k n v) in
    ground (arith, step, rest)

count_of-create : (j : Bytes) → count_of counter_create j ≡ none
unfolding count_of counter_create counter_lookup find count_in
count_of-create j = rw (get_or-replicate {A = List Entry} hashsize (hash j) [])

-- From an empty table, whatever the insertions and however the keys collide, the count of a key is
-- the sum of its increments if that fits 64 bits, and a key never inserted is not found.
pub count_of-put_all :
    (puts : List (Bytes × ℕ)) (j : Bytes)
    → number (tally j puts) < 2 ^ 64
    → count_of (put_all counter_create puts) j ≡ tally j puts
count_of-put_all puts j b =
    let e = count_of-create j in
    rw count_of-create at
      (put_all-joined counter_create puts j counter_create-IsValid (rw e (omega arith)))

-- The counts of the listed keys, added up.
abbrev pub sum_counts : (Bytes → Option ℕ) → List Bytes → ℕ
sum_counts f [] = 0
sum_counts f (k ∷ ks) = number (f k) + sum_counts f ks

-- Two tables that differ at most in the count of `key`.
module _ (f g : Bytes → Option ℕ) (key : Bytes)
    (same : (j : Bytes) → streq key j ≡ false → g j ≡ f j) where
  sum_counts-absent : (ks : List Bytes) → mem key ks ≡ false → sum_counts g ks ≡ sum_counts f ks
  sum_counts-absent [] h = refl
  sum_counts-absent (k ∷ ks) h = ground (arith, same k, sum_counts-absent ks)

  sum_counts-present :
      (ks : List Bytes)
      → Distinct ks
      → mem key ks ≡ true
      → sum_counts g ks + number (f key) ≡ sum_counts f ks + number (g key)
  sum_counts-present [] d h = cc
  sum_counts-present (k ∷ ks) d h = elim (Bool-cases (streq key k)) [
    | inl e ↦
        let p = (streq_iff key k).0 e in
        let rest = sum_counts-absent ks (rw p d.0) in rw (rest, p) (omega arith)
    | inr n ↦
        let s = same k n in
        let rest = sum_counts-present ks d.1 (rw n at h) in rw s (omega (arith, rest))
  ]

sum_counts-append :
    (f : Bytes → Option ℕ) (ks : List Bytes) (k : Bytes)
    → sum_counts f (ks ++ k ∷ []) ≡ sum_counts f ks + number (f k)
sum_counts-append f [] k = omega arith
sum_counts-append f (x ∷ ks) k = omega (arith, sum_counts-append f ks k)

abbrev pub total : Hashtable → ℕ
total h = sum_counts (count_of h) h.keys

number-le-sum_counts :
    (f : Bytes → Option ℕ) (ks : List Bytes) (k : Bytes)
    → mem k ks ≡ true
    → number (f k) ≤ sum_counts f ks
number-le-sum_counts f [] k h = cc
number-le-sum_counts f (x ∷ ks) k h = ground (arith, streq_iff k x, number-le-sum_counts f ks k)

module _ (f g : Bytes → Option ℕ) (key : Bytes)
    (same : (j : Bytes) → streq key j ≡ false → g j ≡ f j) (ks : List Bytes)
    (distinct : Distinct ks) (known : present (f key) ≡ mem key ks) (inc : ℕ)
    (self : g key ≡ some (bumped inc (f key))) (fits : sum_counts f ks + inc < 2 ^ 64) where
  added_old : (n : ℕ) → f key ≡ some n → sum_counts g ks ≡ sum_counts f ks + inc
  added_old n e =
      let old : mem key ks ≡ true = sym known ∙ rw e in
      let sums = sum_counts-present f g key same ks distinct old in
      let small = number-le-sum_counts f ks key old in
      let mine = rw e at self in ground (arith, sums, small, mine)

  added_new : f key ≡ none → sum_counts g (ks ++ key ∷ []) ≡ sum_counts f ks + inc
  added_new e =
      let new : mem key ks ≡ false = sym known ∙ rw e in
      let sums = sum_counts-absent f g key same ks new in
      let mine = rw e at self in ground (arith, sums, mine, sum_counts-append g ks key)

  added : sum_counts g (if present (f key) then ks else ks ++ key ∷ []) ≡ sum_counts f ks + inc
  added = elim (Option-cases (f key)) [
    | inl e ↦ rw e (added_new e)
    | inr (n, e) ↦ rw e (added_old n e)
  ]

-- One insertion adds its increment to the total, as long as the total fits 64 bits.
total-put :
    {h : Hashtable} (key : Bytes) (inc : ℕ)
    → IsValid h
    → total h + inc < 2 ^ 64
    → total (counter_put h key inc) ≡ total h + inc
total-put {h} key inc v b =
    let step = λ (j : Bytes). count_of-counter_put h key j inc v.full in
    let self = rw streq_refl at (step key) in
    let same = λ (j : Bytes) (n : streq key j ≡ false). rw n at (step j) in
    ap (sum_counts (count_of (counter_put h key inc))) (put-keys h key inc)
    ∙ added (count_of h) (count_of (counter_put h key inc)) key same h.keys v.distinct (v.known key)
        inc self b

-- One insertion of one element after another.
abbrev pub put_each : Hashtable → List Bytes → Hashtable
put_each h [] = h
put_each h (k ∷ ks) = put_each (counter_put h k 1) ks

put_each-total :
    (h : Hashtable) (ks : List Bytes)
    → IsValid h
    → total h ≡ h.elements
    → h.elements + length ks < 2 ^ 32
    → (total (put_each h ks) ≡ (put_each h ks).elements)
      × ((put_each h ks).elements ≡ h.elements + length ks)
      × IsValid (put_each h ks)
put_each-total h [] v e b = (e, omega arith, v)
put_each-total h (k ∷ ks) v e b =
    let elements = put-elements h k 1 in
    let one = total-put k 1 v (omega arith) in
    let (a, b', c) =
      put_each-total (counter_put h k 1) ks (counter_put-IsValid k 1 v) (omega arith)
        (omega arith) in
    (a, omega arith, c)

elements-create : counter_create.elements ≡ 0
unfolding counter_create
elements-create = refl

total-create : total counter_create ≡ counter_create.elements
unfolding counter_create
total-create = refl

-- From an empty table, after fewer than 2 ^ 32 insertions of one element each, the number of
-- elements is the number of insertions, and the counts of all keys of the array add up to it.
pub put_each-elements :
    (ks : List Bytes)
    → length ks < 2 ^ 32
    → ((put_each counter_create ks).elements ≡ length ks)
      × (total (put_each counter_create ks) ≡ length ks)
      × IsValid (put_each counter_create ks)
put_each-elements ks b =
    let (a, e, v) =
      put_each-total counter_create ks counter_create-IsValid total-create
        (omega (arith, elements-create)) in
    (omega (arith, elements-create), omega (arith, elements-create), v)
