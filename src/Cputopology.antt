-- ===== src/Cputopology.antt =====
-- lib/cputopology.c: the masks of sysfs, and the counts of sockets, cores and threads. The set of
-- processors of <sched.h> is the list of the members that were set.
pub mod Mask
use nagios_plugins_linux.Base.{
  ℕ, zero, suc, ◌+◌, ◌-◌, ◌*◌, ◌/◌, ◌%◌, Bool, true, false, ◌&&◌, ◌||◌, not, [], ◌∷◌, ◌++◌, List,
  Option, none, some, Bytes, codes, starts_with, drop, length, ltb, leb, ◌==◌, if◌then◌else◌, u32,
  u64,
}
use nagios_plugins_linux.Base.Int.{ℤ, pos, negsuc, bits64, to_int}
use nagios_plugins_linux.Sysfs.{File, kernel_max, thread_siblings, core_siblings, getline}

-- `tolower` in the C locale
abbrev tolower : ℕ → ℕ
tolower c = if leb b'A' c && leb c b'Z' then c + 32 else c

-- `none` is -1.
unfoldable pub char_to_val : ℕ → Option ℕ
char_to_val c =
    if leb b'0' c && leb c b'9'
    then some (c - b'0')
    else if leb b'a' (tolower c) && leb (tolower c) b'f'
    then some (tolower c - b'a' + 10)
    else none

-- `if (…) CPU_SET_S (cpu, setsize, set);`
abbrev pub set_if : Bool → ℕ → List ℕ → List ℕ
set_if test cpu l = if test then cpu ∷ l else l

-- The four tests `val & 1` to `val & 8`, for the lowest member `cpu`, and the members set otherwise.
abbrev pub bits_of : ℕ → ℕ → List ℕ → List ℕ
bits_of val cpu l = set_if (val % 2 == 1) cpu (
    set_if ((val / 2) % 2 == 1) (cpu + 1)
      (set_if ((val / 4) % 2 == 1) (cpu + 2) (set_if ((val / 8) % 2 == 1) (cpu + 3) l)))

-- What the loop comes to: the members set; a bad digit; or, for a comma in front of all digits, a
-- read of the byte before them.
pub data Parsed : Type 0 where
  members : List ℕ → Parsed
  bad_digit : Parsed
  before_start : Parsed

-- The rest of a round, at the digit, in front of the later rounds.
digit : Option ℕ → ℕ → Parsed → Parsed
digit none cpu rest = bad_digit
digit (some val) cpu (members l) = members (bits_of val cpu l)
digit (some val) cpu bad_digit = bad_digit
digit (some val) cpu before_start = before_start

-- The loop, over the bytes from the last one backwards; it skips one comma a round.
unfoldable pub parse_mask : Bytes → ℕ → Parsed
unfolding digit char_to_val
parse_mask [] cpu = members []
parse_mask (c ∷ []) cpu = if c == b',' then before_start else digit (char_to_val c) cpu (members [])
parse_mask (c ∷ e ∷ cs) cpu =
    let next = parse_mask (e ∷ cs) (cpu + 4) in
    let after_comma = parse_mask cs (cpu + 4) in
    if c == b',' then digit (char_to_val e) cpu after_comma else digit (char_to_val c) cpu next

abbrev pub backwards : Bytes → Bytes → Bytes
backwards [] acc = acc
backwards (c ∷ cs) acc = backwards cs (c ∷ acc)

-- `0x` is skipped.
abbrev pub without_prefix : Bytes → Bytes
without_prefix str = if starts_with (codes "0x") str then drop 2 str else str

abbrev pub is_set : ℕ → List ℕ → Bool
is_set cpu [] = false
is_set cpu (c ∷ cs) = c == cpu || is_set cpu cs

-- `CPU_COUNT_S`: each member once, and none that the set has no room for, which `CPU_SET_S` leaves
-- out.
abbrev pub count_below : ℕ → List ℕ → ℕ
count_below room [] = 0
count_below room (cpu ∷ cpus) =
    (if ltb cpu room && not (is_set cpu cpus) then 1 else 0) + count_below room cpus

-- The value returned; `none` is a read out of bounds, unless the byte read is the `x` of the prefix.
count_of : ℕ → Bool → Parsed → Option ℤ
count_of room has_prefix (members l) = some (pos (count_below room l))
count_of room has_prefix bad_digit = some (negsuc 0)
count_of room has_prefix before_start = if has_prefix then some (negsuc 0) else none

-- `room` is `8 * setsize`.
unfoldable pub cpumask_parse : ℕ → Option Bytes → Option ℤ
unfolding count_of parse_mask
cpumask_parse room none = some (negsuc 0)
cpumask_parse room (some str) =
    count_of room (starts_with (codes "0x") str) (parse_mask (backwards (without_prefix str) []) 0)

-- `get_processor_number_kernel_max`, from the value that was read
unfoldable pub get_processor_number_kernel_max : ℕ → ℤ
unfolding to_int
get_processor_number_kernel_max value = to_int (u64 (value + 1))

-- The three counts.
pub record Topology : Type 0 where
  pub nsockets : ℕ
  pub ncores : ℕ
  pub nthreads : ℕ

abbrev at_least_one : ℕ → ℕ
at_least_one n = if n == 0 then 1 else n

-- An `int` as `unsigned int`.
abbrev unsigned : ℤ → ℕ
unsigned z = u32 (bits64 z)

module _ (sysfs : File → Option Bytes) (room ncpus : ℕ) where
  -- The rest of a round with a mask of threads: `ncpus` is what is online, and a -1 of
  -- `cpumask_parse` is 2 ^ 32 - 1 threads or cores.
  counts : Option ℤ → Option ℤ → Option Topology
  counts none cores = none
  counts (some threads) none = none
  counts (some threads) (some cores) =
      let nthreads = at_least_one (unsigned threads) in
      let ncores = at_least_one (unsigned cores / nthreads) in
      some (record {
        nsockets = at_least_one (ncpus / nthreads / ncores);
        ncores = ncores;
        nthreads = nthreads;
      })

  read_cpu : ℕ → Option Bytes → Option Topology → Option Topology
  unfolding counts cpumask_parse getline
  read_cpu cpu none t = t
  read_cpu cpu (some mask) none = none
  read_cpu cpu (some mask) (some t) =
      counts (cpumask_parse room (some mask))
        (cpumask_parse room (getline sysfs (core_siblings cpu)))

  -- The loop over `n` processors from `cpu` on; `none` is a read out of bounds.
  unfoldable pub read_cpus : ℕ → ℕ → Option Topology → Option Topology
  unfolding read_cpu getline
  read_cpus zero cpu t = t
  read_cpus (suc n) cpu t =
      read_cpus n (cpu + 1) (read_cpu cpu (getline sysfs (thread_siblings cpu)) t)

  -- `maxcpus` processors, and whether the set can be allocated.
  unfoldable pub get_cputopology_read : ℕ → Bool → Option Topology
  unfolding read_cpus
  get_cputopology_read maxcpus allocated =
      let one : Topology = record { nsockets = 1; ncores = 1; nthreads = 1 } in
      let read = read_cpus maxcpus 0 (some one) in if allocated then read else some one
