-- ===== src/Pressure/Starvation.antt =====
-- The figures of lib/pressure.c against the four readings they are made of.
use nagios_plugins_linux.Base.{
  ℕ, ◌+◌, ◌-◌, ◌/◌, ◌^◌, ◌≤◌, ◌<◌, ◌≡◌, true, false, [], ◌∷◌, ◌++◌, List, Option, some, Bytes,
  codes, arith, starts_with, length, sub64,
}
use nagios_plugins_linux.Messages.{returns}
use nagios_plugins_linux.Pressure.{
  ProcPsiOneline, find_label, checked_psi, proc_psi_parser, proc_psi_read,
}

abbrev pub Unlabelled : Bytes → List Bytes → Type 0
Unlabelled label [] = Unit
Unlabelled label (line ∷ lines) = (starts_with label line ≡ false) × Unlabelled label lines

module _ {D : Type 0} (scan : ℕ → Bytes → Option (ProcPsiOneline D)) where
  -- A file holds the figures of a label: they are scanned, behind the label and one more byte, from
  -- a line that begins with it, and no line before begins with it.
  pub record Holds (label : Bytes) (psi : ProcPsiOneline D) (lines : List Bytes) : Type 0 where
    pub before : List Bytes
    pub line : Bytes
    pub behind : List Bytes
    pub split : lines ≡ before ++ line ∷ behind
    pub unlabelled : Unlabelled label before
    pub labelled : starts_with label line ≡ true
    pub scanned : scan (length label + 1) line ≡ some psi

  find_label-append :
      (label line : Bytes) (before behind : List Bytes)
      → Unlabelled label before
      → starts_with label line ≡ true
      → find_label scan label (before ++ line ∷ behind) ≡ scan (length label + 1) line
  unfolding find_label
  find_label-append label line [] behind u l = rw l
  find_label-append label line (x ∷ before) behind u l =
      rw (u.0) (find_label-append label line before behind u.1 l)

  proc_psi_parser-Holds :
      {label : Bytes} {psi : ProcPsiOneline D} {lines : List Bytes}
      → Holds label psi lines
      → proc_psi_parser scan (some lines) label ≡ returns psi
  unfolding proc_psi_parser checked_psi
  proc_psi_parser-Holds {label} h =
      let found = find_label-append label h.line h.before h.behind h.unlabelled h.labelled in
      rw (h.split, found, h.scanned)

  -- The difference of two readings of a counter that does not run backwards.
  sub64_exact : (a b : ℕ) → b ≤ a → a < 2 ^ 64 → sub64 a b ≡ a - b
  sub64_exact a b l w = omega arith

  -- The averages and totals that are stored are those of the first "some" line and the first
  -- "full" line before the pause, and for either the starvation is what its total grew by during
  -- the pause of at least one second, per second, if no total runs backwards or exceeds 64 bits.
  pub proc_psi_read-starvation :
      (delay : ℕ) {before before_full after after_full : List Bytes}
      {first full psi psi_full : ProcPsiOneline D}
      → 0 < delay
      → Holds (codes "some") first before
      → Holds (codes "full") full before_full
      → Holds (codes "some") psi after
      → Holds (codes "full") psi_full after_full
      → first.total ≤ psi.total
      → psi.total < 2 ^ 64
      → full.total ≤ psi_full.total
      → psi_full.total < 2 ^ 64
      → proc_psi_read scan delay (some before) (some before_full) (some after) (some after_full)
        ≡ returns (
          record {
            some_total = first.total;
            full_total = full.total;
            some_avg10 = first.avg10;
            some_avg60 = first.avg60;
            some_avg300 = first.avg300;
            full_avg10 = full.avg10;
            full_avg60 = full.avg60;
            full_avg300 = full.avg300;
          },
          (psi.total - first.total) / delay,
          (psi_full.total - full.total) / delay,
        )
  unfolding proc_psi_read
  proc_psi_read-starvation delay {first = first} {full = full} {psi = psi} {psi_full = psi_full}
        some_time hs hf hs' hf' l w l' w' =
      rw (
        proc_psi_parser-Holds hs,
        proc_psi_parser-Holds hf,
        proc_psi_parser-Holds hs',
        proc_psi_parser-Holds hf',
        sub64_exact psi.total first.total l w,
        sub64_exact psi_full.total full.total l' w',
      )
