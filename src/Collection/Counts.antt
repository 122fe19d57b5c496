-- ===== src/Collection/Counts.antt =====
-- The counters of the hash table of lib/collection.c against its contents: the array of keys, the
-- number of unique keys and the number of elements stored.
use nagios_plugins_linux.Base.{
  ℕ, ◌+◌, ◌^◌, ◌%◌, ◌≡◌, refl, ◌∙◌, Bool, true, false, ◌||◌, [], ◌∷◌, ◌++◌, List, Option, none,
  some, inl, inr, arith, Bytes, streq, streq_iff, if◌then◌else◌, length, length-append,
  length-replicate, get_or-replicate, Bool-cases, u32,
}
use nagios_plugins_linux.Collection.{
  Entry, Hashtable, hashsize, hash, find, counter_create, counter_lookup, counter_put, put_entry,
}
use nagios_plugins_linux.Collection.Lookup.{
  count_in, count_of, counter_put-length, count_of-counter_put,
}

abbrev pub mem : Bytes → List Bytes → Bool
mem k [] = false
mem k (x ∷ xs) = streq k x || mem k xs

abbrev pub Distinct : List Bytes → Type 0
Distinct [] = Unit
Distinct (x ∷ xs) = (mem x xs ≡ false) × Distinct xs

abbrev pub present : Option ℕ → Bool
present none = false
present (some n) = true

-- The invariant of the table.
pub record IsValid (h : Hashtable) : Type 0 where
  pub full : length h.table ≡ hashsize
  pub known : (j : Bytes) → present (count_of h j) ≡ mem j h.keys
  pub distinct : Distinct h.keys
  pub counted : h.uniq ≡ length h.keys % 2 ^ 32

mem-append : (k x : Bytes) (l : List Bytes) → mem k (l ++ x ∷ []) ≡ (mem k l || streq k x)
mem-append k x [] = ground arith
mem-append k x (y ∷ l) = ground (arith, mem-append k x l)

streq_comm : (a b : Bytes) → streq a b ≡ streq b a
streq_comm a b = ground (arith, streq_iff a b, streq_iff b a)

Distinct-append :
    (x : Bytes) (l : List Bytes) → Distinct l → mem x l ≡ false → Distinct (l ++ x ∷ [])
Distinct-append x [] d h = (refl, tt)
Distinct-append x (y ∷ l) d h =
    (rw (mem-append y x l) (ground (arith, streq_comm x y)), Distinct-append x l d.1 (ground arith))

-- What a put does to the keys and to their number, by whether the key was there.
pub put-keys :
    (h : Hashtable) (key : Bytes) (inc : ℕ)
    → (counter_put h key inc).keys
      ≡ (if present (count_of h key) then h.keys else h.keys ++ key ∷ [])
unfolding counter_put put_entry count_of count_in
put-keys h key inc = ground arith

put-uniq :
    (h : Hashtable) (key : Bytes) (inc : ℕ)
    → (counter_put h key inc).uniq ≡ (if present (count_of h key) then h.uniq else u32 (h.uniq + 1))
unfolding counter_put put_entry count_of count_in
put-uniq h key inc = ground arith

pub put-elements :
    (h : Hashtable) (key : Bytes) (inc : ℕ)
    → (counter_put h key inc).elements ≡ u32 (h.elements + 1)
unfolding counter_put put_entry
put-elements h key inc = ground arith

known-put :
    {h : Hashtable} (key : Bytes) (inc : ℕ) (j : Bytes)
    → IsValid h
    → present (count_of (counter_put h key inc) j) ≡ mem j (counter_put h key inc).keys
known-put {h} key inc j v =
    let c = count_of-counter_put h key j inc v.full in
    let k = put-keys h key inc in
    let a = v.known j in
    let b = v.known key in
    rw (c, k) (ground (arith, mem-append j key h.keys, streq_iff key j, streq_iff j key))

put-Distinct :
    {h : Hashtable} (key : Bytes) (inc : ℕ) → IsValid h → Distinct (counter_put h key inc).keys
put-Distinct {h} key inc v =
    rw (put-keys h key inc, v.known key)
      (elim (Bool-cases (mem key h.keys)) [
        | inl old ↦ rw old v.distinct
        | inr new ↦ rw new (Distinct-append key h.keys v.distinct new)
      ])

counted-put :
    {h : Hashtable} (key : Bytes) (inc : ℕ)
    → IsValid h
    → (counter_put h key inc).uniq ≡ length (counter_put h key inc).keys % 2 ^ 32
counted-put {h} key inc v =
    rw (put-keys h key inc, put-uniq h key inc)
      (elim (Bool-cases (present (count_of h key))) [
        | inl old ↦ rw old v.counted
        | inr new ↦ rw (new, v.counted, length-append h.keys (key ∷ [])) (omega arith)
      ])

-- `counter_put` keeps the table valid: all 101 buckets stay, the array of keys lists exactly the
-- keys that can be looked up, none of them twice, and `uniq` counts them.
pub counter_put-IsValid :
    {h : Hashtable} (key : Bytes) (inc : ℕ) → IsValid h → IsValid (counter_put h key inc)
counter_put-IsValid {h} key inc v = record {
  full = counter_put-length h key inc ∙ v.full;
  known = λ j. known-put key inc j v;
  distinct = put-Distinct key inc v;
  counted = counted-put key inc v;
}

pub counter_create-IsValid : IsValid counter_create
unfolding counter_create count_of counter_lookup find count_in
counter_create-IsValid = record {
  full = length-replicate {A = List Entry} hashsize [];
  known = λ j. rw (get_or-replicate {A = List Entry} hashsize (hash j) []);
  distinct = tt;
  counted = refl;
}
