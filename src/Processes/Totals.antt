-- ===== src/Processes/Totals.antt =====
-- The list of lib/processes.c over any contents of /proc: every user stands in it once, and the
-- numbers of the users add up to that of the head.
use nagios_plugins_linux.Base.{
  ℕ, ◌+◌, ◌-◌, ◌%◌, ◌^◌, ◌≡◌, refl, ap, ◌∙◌, Bool, false, not, ◌||◌, [], ◌∷◌, ◌++◌, List, Option,
  none, some, Bytes, arith, ◌==◌, Bool-cases, inl, inr,
}
use nagios_plugins_linux.Messages.{returns}
use nagios_plugins_linux.Processes.{
  ProcsListNode, ProcsList, Dirent, Got, begins_with_digit, procs_list_node_init, read_line,
  got_all, new_node, walk, procs_list_node_add, read_status, read_file, scan_entries,
  procs_list_getall, proc_list_node_foreach,
}

abbrev pub sum_nbr : List ProcsListNode → ℕ
sum_nbr [] = 0
sum_nbr (p ∷ nodes) = p.nbr + sum_nbr nodes

abbrev pub has_uid : ℕ → List ProcsListNode → Bool
has_uid uid [] = false
has_uid uid (p ∷ nodes) = p.uid == uid || has_uid uid nodes

abbrev pub Distinct : List ProcsListNode → Type 0
Distinct [] = Unit
Distinct (p ∷ nodes) = (has_uid p.uid nodes ≡ false) × Distinct nodes

-- The invariant of the list.
pub record IsValid (plist : ProcsList) : Type 0 where
  pub summed : plist.nbr ≡ sum_nbr plist.nodes % 2 ^ 64
  pub distinct : Distinct plist.nodes

procs_list_node_init-IsValid : IsValid procs_list_node_init
unfolding procs_list_node_init
procs_list_node_init-IsValid = record { summed = refl; distinct = tt }

-- All nodes but the last one.
abbrev pub but_last : List ProcsListNode → List ProcsListNode
but_last [] = []
but_last (x ∷ []) = []
but_last (x ∷ y ∷ l) = x ∷ but_last (y ∷ l)

pub proc_list_node_foreach-but_last :
    (l : List ProcsListNode) → proc_list_node_foreach l ≡ but_last l
unfolding proc_list_node_foreach
proc_list_node_foreach-but_last [] = refl
proc_list_node_foreach-but_last (x ∷ []) = refl
proc_list_node_foreach-but_last (x ∷ y ∷ l) =
    ap {B = List ProcsListNode} (λ r. x ∷ r) (proc_list_node_foreach-but_last (y ∷ l))

module _ (uid_to_username : ℕ → Bytes) (soft hard : ℕ) where
  sum_nbr-walk :
      (uid inc : ℕ) (nodes : List ProcsListNode)
      → sum_nbr (walk uid_to_username soft hard uid inc nodes) % 2 ^ 64
        ≡ (sum_nbr nodes + inc) % 2 ^ 64
  unfolding walk new_node
  sum_nbr-walk uid inc [] = omega arith
  sum_nbr-walk uid inc (p ∷ next) = let rest = sum_nbr-walk uid inc next in ground (arith, rest)

  has_uid-walk :
      (v uid inc : ℕ) (nodes : List ProcsListNode)
      → has_uid v (walk uid_to_username soft hard uid inc nodes) ≡ (has_uid v nodes || uid == v)
  unfolding walk new_node
  has_uid-walk v uid inc [] = ground arith
  has_uid-walk v uid inc (p ∷ next) = let rest = has_uid-walk v uid inc next in ground (arith, rest)

  walk-Distinct :
      (uid inc : ℕ) (nodes : List ProcsListNode)
      → Distinct nodes
      → Distinct (walk uid_to_username soft hard uid inc nodes)
  unfolding walk new_node
  walk-Distinct uid inc [] d = (refl, tt)
  walk-Distinct uid inc (p ∷ next) d = elim (Bool-cases (p.uid == uid)) [
    | inl e ↦ rw e d
    | inr n ↦
        let other = has_uid-walk p.uid uid inc next in
        rw n (ground (arith, other), walk-Distinct uid inc next d.1)
  ]

  -- Adding to the number of a user, known or new, keeps the list valid: no user stands in it twice,
  -- and the number of the head is the sum of those of the users modulo 2 ^ 64.
  pub procs_list_node_add-IsValid :
      (uid inc : ℕ) (plist : ProcsList)
      → IsValid plist
      → IsValid (procs_list_node_add uid_to_username soft hard uid inc plist)
  unfolding procs_list_node_add
  procs_list_node_add-IsValid uid inc plist v = record {
    summed = let s = v.summed in let w = sum_nbr-walk uid inc plist.nodes in omega (arith, s, w);
    distinct = walk-Distinct uid inc plist.nodes v.distinct;
  }

  read_status-IsValid :
      (threads : Bool) (lines : List Bytes) (g : Got) (plist : ProcsList)
      → IsValid plist
      → IsValid (read_status uid_to_username soft hard threads lines g plist).1
  unfolding read_status
  read_status-IsValid threads [] g plist v = v
  read_status-IsValid threads (line ∷ lines) g plist v =
      let rest = read_status-IsValid threads lines (read_line line g) plist v in
      elim (Bool-cases (got_all (read_line line g))) [
        | inl e ↦ rw e (procs_list_node_add-IsValid _ _ plist v)
        | inr n ↦ rw n rest
      ]

  read_file-IsValid :
      (threads : Bool) (status : Option (List Bytes)) (uid : ℕ) (plist : ProcsList)
      → IsValid plist
      → IsValid (read_file uid_to_username soft hard threads status uid plist).1
  unfolding read_file
  read_file-IsValid threads none uid plist v = v
  read_file-IsValid threads (some lines) uid plist v = read_status-IsValid threads lines _ plist v

  scan_entries-IsValid :
      (threads : Bool) (entries : List Dirent) (uid : ℕ) (plist : ProcsList)
      → IsValid plist
      → (p : ProcsList) × (scan_entries uid_to_username soft hard threads false entries (uid, plist)
          ≡ returns p)
        × IsValid p
  unfolding scan_entries
  scan_entries-IsValid threads [] uid plist v = (plist, refl, v)
  scan_entries-IsValid threads (dp ∷ entries) uid plist v =
      elim (Bool-cases (not dp.is_directory || not (begins_with_digit dp.d_name))) [
        | inl e ↦ rw e (scan_entries-IsValid threads entries uid plist v)
        | inr n ↦ rw n (
            scan_entries-IsValid threads entries _ _
              (read_file-IsValid threads dp.status uid plist v))
      ]

  -- If /proc can be read to its end, the list that is returned is valid, whatever the entries and
  -- the lines of their files.
  pub procs_list_getall-IsValid :
      (flags : ℕ) (entries : List Dirent)
      → (p : ProcsList) × (procs_list_getall uid_to_username soft hard flags false (some entries)
          ≡ returns p)
        × IsValid p
  unfolding procs_list_getall
  procs_list_getall-IsValid flags entries =
      scan_entries-IsValid _ entries (2 ^ 32 - 1) procs_list_node_init procs_list_node_init-IsValid

  foreach-cons :
      (x y : ProcsListNode) (l : List ProcsListNode)
      → proc_list_node_foreach (x ∷ y ∷ l) ≡ x ∷ proc_list_node_foreach (y ∷ l)
  unfolding proc_list_node_foreach
  foreach-cons x y l = refl

  foreach-append :
      (l : List ProcsListNode) (x : ProcsListNode) → proc_list_node_foreach (l ++ x ∷ []) ≡ l
  unfolding proc_list_node_foreach
  foreach-append [] x = refl
  foreach-append (y ∷ []) x = refl
  foreach-append (y ∷ z ∷ l) x = ap (λ r. y ∷ r) (foreach-append (z ∷ l) x)

  walk-new :
      (uid inc : ℕ) (nodes : List ProcsListNode)
      → has_uid uid nodes ≡ false
      → walk uid_to_username soft hard uid inc nodes
        ≡ nodes ++ new_node uid_to_username soft hard uid inc ∷ []
  unfolding walk
  walk-new uid inc [] h = refl
  walk-new uid inc (p ∷ next) h = let rest = walk-new uid inc next in ground (arith, rest)

  -- A loop with `proc_list_node_foreach` never visits the user that was added last: right after a
  -- new user is added it visits exactly those that were there before.
  pub foreach-add :
      (uid inc : ℕ) (plist : ProcsList)
      → has_uid uid plist.nodes ≡ false
      → proc_list_node_foreach (procs_list_node_add uid_to_username soft hard uid inc plist).nodes
        ≡ plist.nodes
  unfolding procs_list_node_add
  foreach-add uid inc plist h =
      ap proc_list_node_foreach (walk-new uid inc plist.nodes h) ∙ foreach-append plist.nodes _
