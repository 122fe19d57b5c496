-- ===== src/Processes.antt =====
-- lib/processes.c: the number of processes, or of threads, of each user. The nodes behind the head
-- stand in a list; the chain ends at the node that points to itself. A `long` and an `rlim_t` are
-- held as their 64 bits. `getpwuid` and `getrlimit` are parameters.
pub mod Totals
pub mod Counted
pub mod Nbprocs
use nagios_plugins_linux.Base.{
  ℕ, ◌+◌, ◌-◌, ◌/◌, ◌%◌, ◌^◌, Bool, true, false, not, ◌&&◌, ◌||◌, [], ◌∷◌, List, Option, none, some,
  Bytes, codes, starts_with, is_digit, drop, ◌==◌, if◌then◌else◌, u32, u64,
}
use nagios_plugins_linux.Base.Int.{bits64}
use nagios_plugins_linux.Base.Numeral.{Number, strtol}
use nagios_plugins_linux.Messages.{state_unknown, Outcome, returns, plugin_error}

-- `struct procs_list_node`, without `next`
pub record ProcsListNode : Type 0 where
  pub uid : ℕ
  pub username : Bytes
  pub nbr : ℕ
  pub rlimit_nproc_soft : ℕ
  pub rlimit_nproc_hard : ℕ

-- The list: `nbr` of its head, and the nodes behind the head.
pub record ProcsList : Type 0 where
  pub nbr : ℕ
  pub nodes : List ProcsListNode

unfoldable pub procs_list_node_init : ProcsList
procs_list_node_init = record { nbr = 0; nodes = [] }

-- What readdir returns: for a directory whose name begins with a digit, and whose `status` file
-- opens, the lines of that file.
pub record Dirent : Type 0 where
  pub is_directory : Bool
  pub d_name : Bytes
  pub status : Option (List Bytes)

-- The variables of the loop over the lines.
pub record Got : Type 0 where
  pub gotname : Bool
  pub gotuid : Bool
  pub gotthreads : Bool
  pub threads_nbr : ℕ
  pub uid : ℕ

abbrev pub nbprocs_threads : ℕ
nbprocs_threads = 2

-- `isdigit ((unsigned char) dp->d_name[0])`
abbrev pub begins_with_digit : Bytes → Bool
begins_with_digit [] = false
begins_with_digit (c ∷ cs) = is_digit c

-- The three tests of one line. The number is cut to `unsigned long`, or to the 32 bits of `uid_t`.
-- The name of the command is kept for the verbose output only, which is left out.
unfoldable pub read_line : Bytes → Got → Got
read_line line g =
    let g1 = if starts_with (codes "Name:") line then record g { gotname = true } else g in
    let g2 =
      if starts_with (codes "Threads:") line
      then record g1 { threads_nbr = bits64 (strtol (drop 8 line)).value; gotthreads = true }
      else g1 in
    if starts_with (codes "Uid:") line
    then record g2 { uid = u32 (bits64 (strtol (drop 4 line)).value); gotuid = true }
    else g2

abbrev pub got_all : Got → Bool
got_all g = g.gotname && g.gotuid && g.gotthreads

module _ (uid_to_username : ℕ → Bytes) (soft hard : ℕ) where
  -- The node that is appended; `soft` and `hard` are the limits that `getrlimit` reports, or
  -- RLIM_INFINITY where it fails.
  new_node : ℕ → ℕ → ProcsListNode
  new_node uid inc = record {
    uid = uid;
    username = uid_to_username uid;
    nbr = inc;
    rlimit_nproc_soft = soft;
    rlimit_nproc_hard = hard;
  }

  -- The walk along the chain: the first node of the user is incremented, or a node is appended.
  walk : ℕ → ℕ → List ProcsListNode → List ProcsListNode
  unfolding new_node
  walk uid inc [] = new_node uid inc ∷ []
  walk uid inc (p ∷ next) =
      let rest = walk uid inc next in
      if p.uid == uid then record p { nbr = u64 (p.nbr + inc) } ∷ next else p ∷ rest

  unfoldable pub procs_list_node_add : ℕ → ℕ → ProcsList → ProcsList
  unfolding walk
  procs_list_node_add uid inc plist = record {
    nbr = u64 (plist.nbr + inc);
    nodes = walk uid inc plist.nodes;
  }

  -- The loop over the lines of a `status` file, which ends at the first line that completes the
  -- three figures; `uid` is kept from one file to the next.
  unfoldable pub read_status : Bool → List Bytes → Got → ProcsList → ℕ × ProcsList
  unfolding procs_list_node_add read_line
  read_status threads [] g plist = (g.uid, plist)
  read_status threads (line ∷ lines) g plist =
      let g' = read_line line g in
      let rest = read_status threads lines g' plist in
      if got_all g'
      then (g'.uid, procs_list_node_add g'.uid (if threads then g'.threads_nbr else 1) plist)
      else rest

  abbrev fresh : ℕ → Got
  fresh uid = record {
    gotname = false;
    gotuid = false;
    gotthreads = false;
    threads_nbr = 0;
    uid = uid;
  }

  read_file : Bool → Option (List Bytes) → ℕ → ProcsList → ℕ × ProcsList
  unfolding read_status
  read_file threads none uid plist = (uid, plist)
  read_file threads (some lines) uid plist = read_status threads lines (fresh uid) plist

  -- The loop over the entries of /proc; `failed` says whether `readdir` ends with an error.
  unfoldable pub scan_entries : Bool → Bool → List Dirent → ℕ × ProcsList → Outcome ProcsList
  unfolding read_file
  scan_entries threads failed [] (uid, plist) =
      if failed then plugin_error state_unknown else returns plist
  scan_entries threads failed (dp ∷ entries) (uid, plist) = scan_entries threads failed entries (
      if not dp.is_directory || not (begins_with_digit dp.d_name)
      then (uid, plist)
      else read_file threads dp.status uid plist)

  -- `none` is a /proc that cannot be opened; `uid` starts as (uid_t) -1.
  unfoldable pub procs_list_getall : ℕ → Bool → Option (List Dirent) → Outcome ProcsList
  unfolding scan_entries procs_list_node_init
  procs_list_getall flags failed none = plugin_error state_unknown
  procs_list_getall flags failed (some entries) =
      scan_entries ((flags / nbprocs_threads) % 2 == 1) failed entries
        (2 ^ 32 - 1, procs_list_node_init)

unfoldable pub procs_list_node_get_total_procs_nbr : ProcsList → ℕ
procs_list_node_get_total_procs_nbr list = list.nbr

-- The nodes that `proc_list_node_foreach` visits: it stops in front of the node that points to
-- itself, which is the last one.
unfoldable pub proc_list_node_foreach : List ProcsListNode → List ProcsListNode
proc_list_node_foreach [] = []
proc_list_node_foreach (x ∷ []) = []
proc_list_node_foreach (x ∷ y ∷ l) = x ∷ proc_list_node_foreach (y ∷ l)
