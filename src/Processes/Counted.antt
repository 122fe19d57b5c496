-- ===== src/Processes/Counted.antt =====
-- The number of processes, or of threads, that lib/processes.c finds in /proc.
use nagios_plugins_linux.Base.{
  ℕ, ◌+◌, ◌-◌, ◌/◌, ◌==◌, ◌%◌, ◌^◌, ◌≡◌, refl, ap, ◌∙◌, Bool, true, false, not, ◌&&◌, ◌||◌, [], ◌∷◌,
  List, Option, none, some, Bytes, codes, starts_with, drop, if◌then◌else◌, arith, Bool-cases, inl,
  inr,
}
use nagios_plugins_linux.Base.Int.{bits64}
use nagios_plugins_linux.Base.Numeral.{strtol}
use nagios_plugins_linux.Messages.{returns}
use nagios_plugins_linux.Processes.{
  ProcsList, Dirent, Got, begins_with_digit, procs_list_node_init, read_line, got_all, fresh,
  procs_list_node_add, read_status, read_file, scan_entries, procs_list_getall,
}

-- What a `status` file counts for: nothing before the three figures are known, and then 1, or the
-- number of its threads.
abbrev counted : Bool → List Bytes → Got → ℕ
counted threads [] g = 0
counted threads (line ∷ lines) g =
    let rest = counted threads lines (read_line line g) in
    if got_all (read_line line g)
    then (if threads then (read_line line g).threads_nbr else 1)
    else rest

abbrev nothing_got : Got
nothing_got = record {
  gotname = false;
  gotuid = false;
  gotthreads = false;
  threads_nbr = 0;
  uid = 0;
}

abbrev file_count : Bool → Option (List Bytes) → ℕ
file_count threads none = 0
file_count threads (some lines) = counted threads lines nothing_got

-- The sum over the directories whose names begin with a digit.
abbrev pub running : Bool → List Dirent → ℕ
running threads [] = 0
running threads (dp ∷ entries) =
    (if dp.is_directory && begins_with_digit dp.d_name then file_count threads dp.status else 0)
    + running threads entries

-- The user that is kept from a file before makes no difference.
abbrev Agree : Got → Got → Type 0
Agree g h =
    (g.gotname ≡ h.gotname)
    × (g.gotuid ≡ h.gotuid)
    × (g.gotthreads ≡ h.gotthreads)
    × (g.threads_nbr ≡ h.threads_nbr)

-- What a line makes of the variables, without the user.
abbrev Reads : Bytes → Got → Type 0
Reads line g =
    ((read_line line g).gotname ≡ (starts_with (codes "Name:") line || g.gotname))
    × ((read_line line g).gotuid ≡ (starts_with (codes "Uid:") line || g.gotuid))
    × ((read_line line g).gotthreads ≡ (starts_with (codes "Threads:") line || g.gotthreads))
    × ((read_line line g).threads_nbr ≡ (
        if starts_with (codes "Threads:") line
        then bits64 (strtol (drop 8 line)).value
        else g.threads_nbr))

read_line-Reads : (line : Bytes) (g : Got) → Reads line g
unfolding read_line
read_line-Reads line g = (ground arith, ground arith, ground arith, ground arith)

read_line-Agree :
    (line : Bytes) (g h : Got) → Agree g h → Agree (read_line line g) (read_line line h)
read_line-Agree line g h a =
    let r = read_line-Reads line g in
    let t = read_line-Reads line h in
    (cc (r.0, t.0, a.0), cc (r.1, t.1, a.1), cc (r.2, t.2, a.2), cc (r.3, t.3, a.3))

counted-Agree :
    (threads : Bool) (lines : List Bytes) (g h : Got)
    → Agree g h
    → counted threads lines g ≡ counted threads lines h
unfolding read_line
counted-Agree threads [] g h a = refl
counted-Agree threads (line ∷ lines) g h a =
    let b = read_line-Agree line g h a in
    let rest = counted-Agree threads lines (read_line line g) (read_line line h) b in
    rw (b.0, b.1, b.2, b.3, rest) refl

module _ (uid_to_username : ℕ → Bytes) (soft hard : ℕ) where
  read_status-counted :
      (threads : Bool) (lines : List Bytes) (g : Got) (plist : ProcsList)
      → (read_status uid_to_username soft hard threads lines g plist).1.nbr % 2 ^ 64
        ≡ (plist.nbr + counted threads lines g) % 2 ^ 64
  unfolding read_status procs_list_node_add
  read_status-counted threads [] g plist = omega arith
  read_status-counted threads (line ∷ lines) g plist =
      let rest = read_status-counted threads lines (read_line line g) plist in
      elim (Bool-cases (got_all (read_line line g))) [
        | inl e ↦ rw e (omega arith)
        | inr n ↦ rw n rest
      ]

  read_file-counted :
      (threads : Bool) (status : Option (List Bytes)) (uid : ℕ) (plist : ProcsList)
      → (read_file uid_to_username soft hard threads status uid plist).1.nbr % 2 ^ 64
        ≡ (plist.nbr + file_count threads status) % 2 ^ 64
  unfolding read_file
  read_file-counted threads none uid plist = omega arith
  read_file-counted threads (some lines) uid plist =
      read_status-counted threads lines (fresh uid_to_username soft hard uid) plist
      ∙ ap (λ n. (plist.nbr + n) % 2 ^ 64)
          (counted-Agree threads lines (fresh uid_to_username soft hard uid) nothing_got
            (refl, refl, refl, refl))

  scan_entries-running :
      (threads : Bool) (entries : List Dirent) (uid : ℕ) (plist p : ProcsList)
      → scan_entries uid_to_username soft hard threads false entries (uid, plist) ≡ returns p
      → p.nbr % 2 ^ 64 ≡ (plist.nbr + running threads entries) % 2 ^ 64
  unfolding scan_entries
  scan_entries-running threads [] uid plist p e = ground (arith, e)
  scan_entries-running threads (dp ∷ entries) uid plist p e =
      elim (Bool-cases (not dp.is_directory || not (begins_with_digit dp.d_name))) [
        | inl c ↦
            let next = scan_entries-running threads entries uid plist p (rw c at e) in
            let none_here : (dp.is_directory && begins_with_digit dp.d_name) ≡ false =
              ground (arith, c) in
            rw none_here (omega (arith, next))
        | inr c ↦
            let next = scan_entries-running threads entries _ _ p (rw c at e) in
            let here : (dp.is_directory && begins_with_digit dp.d_name) ≡ true =
              ground (arith, c) in
            let one = read_file-counted threads dp.status uid plist in
            rw here (omega (arith, next, one))
      ]

  -- The number of the head is the number of processes, or of threads, modulo 2 ^ 64.
  pub procs_list_getall-running :
      (flags : ℕ) (entries : List Dirent) (p : ProcsList)
      → procs_list_getall uid_to_username soft hard flags false (some entries) ≡ returns p
      → p.nbr % 2 ^ 64 ≡ running ((flags / 2) % 2 == 1) entries % 2 ^ 64
  unfolding procs_list_getall procs_list_node_init
  procs_list_getall-running flags entries p e =
      scan_entries-running ((flags / 2) % 2 == 1) entries (2 ^ 32 - 1) procs_list_node_init p e
      ∙ ap (λ n. n % 2 ^ 64) (omega arith)
