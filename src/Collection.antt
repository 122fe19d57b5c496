-- ===== src/Collection.antt =====
-- lib/collection.c: the hash table that counts keys. A bucket is the chain of `next` pointers from
-- its head; `keys` holds the `uniq` pointers of the array of keys, in its order. Allocation
-- succeeds here, since `xmalloc` ends the process otherwise.
pub mod Lookup
pub mod Counts
pub mod Totals
use nagios_plugins_linux.Base.{
  ℕ, ◌+◌, ◌*◌, ◌%◌, ◌-◌, ◌^◌, [], ◌∷◌, ◌++◌, List, Option, none, some, Bytes, streq, ltb, ◌==◌,
  if◌then◌else◌, get_or, set, replicate, u32, u64,
}

abbrev pub hashsize : ℕ
hashsize = 101

-- `hashable_t`, without `next`
pub record Entry : Type 0 where
  pub key : Bytes
  pub count : ℕ

pub record Hashtable : Type 0 where
  pub capacity : ℕ
  pub elements : ℕ
  pub uniq : ℕ
  pub table : List (List Entry)
  pub keys : List Bytes

-- A `char` is signed: it is extended to the 32 bits of an `unsigned`.
abbrev extended : ℕ → ℕ
extended c = if ltb c 128 then c else c + (2 ^ 32 - 256)

hash_from : ℕ → Bytes → ℕ
hash_from hashval [] = hashval % hashsize
hash_from hashval (c ∷ s) = hash_from (u32 (extended c + 31 * hashval)) s

unfoldable pub hash : Bytes → ℕ
unfolding hash_from
hash s = hash_from 0 s

unfoldable pub counter_create : Hashtable
counter_create = record {
  capacity = hashsize;
  elements = 0;
  uniq = 0;
  table = replicate hashsize [];
  keys = [];
}

-- The walk along one chain.
unfoldable pub find : Bytes → List Entry → Option Entry
find key [] = none
find key (np ∷ next) = if streq key np.key then some np else find key next

unfoldable pub counter_lookup : Hashtable → Bytes → Option Entry
unfolding find
counter_lookup h key = find key (get_or h.table (hash key) [])

-- `np->count += increment`, at the entry that the walk finds
unfoldable pub add_to : Bytes → ℕ → List Entry → List Entry
add_to key increment [] = []
add_to key increment (np ∷ next) =
    if streq key np.key
    then record np { count = u64 (np.count + increment) } ∷ next
    else np ∷ add_to key increment next

-- The two cases of `(np = counter_lookup (hashtable, key)) == NULL`, up to `elements++`.
put_entry : Option Entry → Hashtable → Bytes → ℕ → Hashtable
unfolding add_to
put_entry none h key increment = record h {
  table =
      set h.table (hash key)
        (record { key = key; count = increment } ∷ get_or h.table (hash key) []);
  keys = h.keys ++ key ∷ [];
  uniq = u32 (h.uniq + 1);
}
put_entry (some np) h key increment = record h {
  table = set h.table (hash key) (add_to key increment (get_or h.table (hash key) []));
}

-- The entry that is returned is the one that `counter_lookup` finds afterwards.
unfoldable pub counter_put : Hashtable → Bytes → ℕ → Hashtable
unfolding put_entry
counter_put h key increment =
    let h' = put_entry (counter_lookup h key) h key increment in
    record h' { elements = u32 (h'.elements + 1) }

unfoldable pub counter_get_elements : Hashtable → ℕ
counter_get_elements h = h.elements

unfoldable pub counter_get_unique_elements : Hashtable → ℕ
counter_get_unique_elements h = h.uniq

-- A null pointer is `none`.
unfoldable pub counter_keys : Hashtable → Option (List Bytes)
counter_keys h = if ltb h.uniq 1 then none else some h.keys
