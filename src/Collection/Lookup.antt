-- ===== src/Collection/Lookup.antt =====
-- The hash table of lib/collection.c as a map from keys to counts: what `counter_put` does to
-- every later `counter_lookup`, whatever the hash values.
use nagios_plugins_linux.Base.{
  ℕ, ◌+◌, ◌*◌, ◌<◌, ◌≡◌, ◌≢◌, refl, ap, false, [], ◌∷◌, List, Option, none, some, inl, inr, arith,
  Bytes, streq, streq_iff, streq_refl, if◌then◌else◌, get_or, set, length, get_or-set_self,
  get_or-set_ne, length-set, Bool-cases, Option-cases, u32, u64, ◌==◌, ==_iff,
}
use nagios_plugins_linux.Collection.{
  Entry, Hashtable, hashsize, hash, hash_from, extended, find, add_to, counter_lookup, counter_put,
}

hash_from-lt-hashsize : (v : ℕ) (s : Bytes) → hash_from v s < hashsize
unfolding hash_from
hash_from-lt-hashsize v [] = omega arith
hash_from-lt-hashsize v (c ∷ s) = hash_from-lt-hashsize (u32 (extended c + 31 * v)) s

pub hash-lt-hashsize : (s : Bytes) → hash s < hashsize
unfolding hash
hash-lt-hashsize s = hash_from-lt-hashsize 0 s

-- The count of a key; a key that is not there has none.
unfoldable pub count_in : Option Entry → Option ℕ
count_in none = none
count_in (some e) = some e.count

unfoldable pub count_of : Hashtable → Bytes → Option ℕ
unfolding count_in
count_of h key = count_in (counter_lookup h key)

-- What a put leaves as the key's count.
abbrev pub bumped : ℕ → Option ℕ → ℕ
bumped increment none = increment
bumped increment (some n) = u64 (n + increment)

find-add_to_self :
    (key : Bytes) (inc : ℕ) (l : List Entry) (e : Entry)
    → find key l ≡ some e
    → count_in (find key (add_to key inc l)) ≡ some (u64 (e.count + inc))
unfolding find add_to count_in
find-add_to_self key inc [] e h = cc
find-add_to_self key inc (np ∷ next) e h =
    ground (arith, find-add_to_self key inc next e, streq_refl np.key, streq_iff key np.key)

find-add_to_ne :
    (key j : Bytes) (inc : ℕ) (l : List Entry)
    → streq key j ≡ false
    → find j (add_to key inc l) ≡ find j l
unfolding find add_to
find-add_to_ne key j inc [] h = refl
find-add_to_ne key j inc (np ∷ next) h = ground (
  arith,
  find-add_to_ne key j inc next,
  streq_iff key np.key,
  streq_iff j np.key,
  streq_iff key j,
)

find-fresh :
    (j key : Bytes) (inc : ℕ) (l : List Entry)
    → streq key j ≡ false
    → find j (record { key = key; count = inc } ∷ l) ≡ find j l
unfolding find
find-fresh j key inc l h = ground (arith, streq_iff key j, streq_iff j key)

-- `counter_lookup` after a change of the bucket of `key`.
module _ (h : Hashtable) (full : length h.table ≡ hashsize) (key : Bytes)
    (bucket : List Entry) where
  abbrev changed : List (List Entry)
  changed = set h.table (hash key) bucket

  in_table : hash key < length h.table
  in_table = rw full (hash-lt-hashsize key)

  bucket_self : get_or changed (hash key) [] ≡ bucket
  bucket_self = get_or-set_self h.table (hash key) bucket [] in_table

  -- Another key either shares the bucket or keeps its own.
  bucket_other :
      (j : Bytes)
      → find j bucket ≡ find j (get_or h.table (hash key) [])
      → find j (get_or changed (hash j) []) ≡ find j (get_or h.table (hash j) [])
  bucket_other j same = elim (Bool-cases (hash key == hash j)) [
    | inl e ↦ let p = (==_iff (hash key) (hash j)).0 e in rw (← p) (rw bucket_self same)
    | inr n ↦
        let ne : hash key ≢ hash j = λ p. let q = (==_iff (hash key) (hash j)).1 p in cc in
        rw (get_or-set_ne h.table (hash key) (hash j) bucket [] ne)
  ]

counter_put_self :
    (h : Hashtable) (key : Bytes) (inc : ℕ)
    → length h.table ≡ hashsize
    → count_of (counter_put h key inc) key ≡ some (bumped inc (count_of h key))
unfolding count_of counter_put counter_lookup
counter_put_self h key inc full =
    let bucket = get_or h.table (hash key) [] in
    let fresh : Entry = record { key = key; count = inc } in
    elim (Option-cases (find key bucket)) [
      | inl e ↦ rw e (rw (bucket_self h full key (fresh ∷ bucket), find, streq_refl key))
      | inr (np, e) ↦ rw e (
          rw (bucket_self h full key (add_to key inc bucket))
            (find-add_to_self key inc bucket np e))
    ]

counter_put-ne :
    (h : Hashtable) (key j : Bytes) (inc : ℕ)
    → length h.table ≡ hashsize
    → streq key j ≡ false
    → count_of (counter_put h key inc) j ≡ count_of h j
unfolding count_of counter_put counter_lookup
counter_put-ne h key j inc full ne =
    let bucket = get_or h.table (hash key) [] in
    let fresh : Entry = record { key = key; count = inc } in
    elim (Option-cases (find key bucket)) [
      | inl e ↦ rw e (
          ap count_in (bucket_other h full key (fresh ∷ bucket) j (find-fresh j key inc bucket ne)))
      | inr (np, e) ↦ rw e (
          ap count_in (
            bucket_other h full key (add_to key inc bucket) j (find-add_to_ne key j inc bucket ne)))
    ]

pub counter_put-length :
    (h : Hashtable) (key : Bytes) (inc : ℕ) → length (counter_put h key inc).table ≡ length h.table
unfolding counter_put
counter_put-length h key inc = elim (Option-cases (counter_lookup h key)) [
  | inl e ↦ rw e (length-set h.table (hash key) _)
  | inr (np, e) ↦ rw e (length-set h.table (hash key) _)
]

-- After `counter_put` the key's count is the increment, or the old count plus the increment if
-- the key was there; every other key keeps its count, or its absence.
pub count_of-counter_put :
    (h : Hashtable) (key j : Bytes) (inc : ℕ)
    → length h.table ≡ hashsize
    → count_of (counter_put h key inc) j
      ≡ (if streq key j then some (bumped inc (count_of h j)) else count_of h j)
count_of-counter_put h key j inc full = elim (Bool-cases (streq key j)) [
  | inl e ↦ let p = (streq_iff key j).0 e in rw e (rw (← p) (counter_put_self h key inc full))
  | inr n ↦ rw n (counter_put-ne h key j inc full n)
]
