-- ===== src/Thresholds/Parse.antt =====
-- `parse_range_string` and `set_thresholds` of lib/thresholds.c against the range format of the
-- Nagios guidelines: `10`, `10:`, `~:10`, `10:20`, each also behind an `@`.
use nagios_plugins_linux.Base.{
  Bool, true, false, ◌||◌, [], ◌∷◌, ◌++◌, ◌≡◌, ◌⊎◌, inl, inr, refl, Option, none, some, arith,
  Bytes, ◌==◌, if◌then◌else◌, contains, Bool-cases, if-eq-some, strchr, strchr-append,
  strchr-eq-none, ◌∙◌,
}
use mathlib.Core.Bool.{false≢true}
use mathlib.Core.List.{append-nil}
use mathlib.Core.Path.{subst}
use nagios_plugins_linux.Base.Int.{pos}
use nagios_plugins_linux.Base.Double.{Double}
use nagios_plugins_linux.Messages.{returns}
use nagios_plugins_linux.Thresholds.{
  AlertOn, outside, inside, Range, Thresholds, set_range_end, parse_range_string, set_thresholds,
  unparseable, parse_argument, set_parsed, read_range, read_start, read_end, default_range,
}

-- What may follow a number: the end of the text, or a colon.
abbrev pub stops : Bytes → Bool
stops [] = true
stops (c ∷ cs) = c == b':'

abbrev begins_plainly : Bytes → Bool
begins_plainly [] = false
begins_plainly (c ∷ cs) = if c == b'@' || c == b'~' then false else true

module _ (d : Double) where
  -- `t` is a text that `strtod` reads as `v`, also in front of a colon.
  pub record Denotes (t : Bytes) (v : d.D) : Type 0 where
    pub no_colon : contains b':' t ≡ false
    pub plain : begins_plainly t ≡ true
    pub reads : (rest : Bytes) → stops rest ≡ true → (d.strtod (t ++ rest)).value ≡ v

  -- The forms of a range.
  pub data Form : Type 0 where
    up_to : d.D → Form
    from : d.D → Form
    below : d.D → Form
    between : d.D → d.D → Form

  -- `Writes f text`: the text is the range `f` in the guidelines' notation.
  pub data Writes : Form → Bytes → Type 0 where
    alone : {t : Bytes} {v : d.D} → Denotes t v → Writes (up_to v) t
    open_end : {t : Bytes} {v : d.D} → Denotes t v → Writes (from v) (t ++ b':' ∷ [])
    tilde : {t : Bytes} {v : d.D} → Denotes t v → Writes (below v) (b'~' ∷ b':' ∷ t)
    pair :
        {s t : Bytes} {v w : d.D} → Denotes s v → Denotes t w → Writes (between v w) (s ++ b':' ∷ t)

  abbrev zero_d : d.D
  zero_d = d.of_ℤ (pos 0)

  -- The range that the guidelines give a form.
  abbrev pub meaning : AlertOn → Form → Range d
  meaning a (up_to v) = record {
    start = zero_d;
    end = v;
    start_infinity = false;
    end_infinity = false;
    alert_on = a;
  }
  meaning a (from v) = record {
    start = v;
    end = zero_d;
    start_infinity = false;
    end_infinity = true;
    alert_on = a;
  }
  meaning a (below v) = record {
    start = zero_d;
    end = v;
    start_infinity = true;
    end_infinity = false;
    alert_on = a;
  }
  meaning a (between v w) = record {
    start = v;
    end = w;
    start_infinity = false;
    end_infinity = false;
    alert_on = a;
  }

  -- A range whose ends are both finite and out of order is refused.
  abbrev pub accepted : Range d → Option (Range d)
  accepted r = if r.start_infinity || r.end_infinity || d.le r.start r.end then some r else none

  abbrev pub with_at : AlertOn → Bytes → Bytes
  with_at outside t = t
  with_at inside t = b'@' ∷ t

  read_end_lem :
      (t : Bytes) {v : d.D} (r : Range d)
      → Denotes t v
      → read_end d t r ≡ accepted (record r { end = v; end_infinity = false })
  unfolding read_end
  read_end_lem [] r p = absurd (false≢true p.plain)
  read_end_lem (c ∷ cs) r p = let e = rw append-nil at (p.reads [] refl) in ground (arith, e)

  read_start_lem :
      (t : Bytes) {v : d.D} (rest : Bytes) (r : Range d)
      → Denotes t v
      → read_start d (t ++ b':' ∷ rest) r ≡ record r { start = v; start_infinity = false }
  unfolding read_start
  read_start_lem [] rest r p = absurd (false≢true p.plain)
  read_start_lem (c ∷ cs) rest r p = let e = p.reads (b':' ∷ rest) refl in ground (arith, e)

  read_Writes :
      {f : Form} {text : Bytes} (a : AlertOn)
      → Writes f text
      → read_range d text (strchr b':' text) (default_range d a) ≡ accepted (meaning a f)
  unfolding read_range
  read_Writes a (alone {t} {v} p) =
      rw (strchr-eq-none b':' t p.no_colon) (read_end_lem t (default_range d a) p)
  read_Writes a (open_end {t} {v} p) =
      rw (strchr-append b':' t [] p.no_colon, read_start_lem t [] (default_range d a) p)
        (unfold read_end in refl)
  read_Writes a (tilde {t} {v} p) = read_end_lem t _ p
  read_Writes a (pair {s} {t} {v} {w} p q) =
      rw (strchr-append b':' s t p.no_colon, read_start_lem s t (default_range d a) p)
        (read_end_lem t _ q)

  skips_at :
      (t rest : Bytes)
      → begins_plainly t ≡ true
      → parse_range_string d (t ++ rest)
        ≡ read_range d (t ++ rest) (strchr b':' (t ++ rest)) (default_range d outside)
  unfolding parse_range_string
  skips_at [] rest h = absurd (false≢true h)
  skips_at (c ∷ cs) rest h = ground arith

  parse_plain :
      {f : Form} {text : Bytes}
      → Writes f text
      → parse_range_string d text ≡ read_range d text (strchr b':' text) (default_range d outside)
  parse_plain (alone {t} p) = rw append-nil at (skips_at t [] p.plain)
  parse_plain (open_end {t} p) = skips_at t (b':' ∷ []) p.plain
  parse_plain (tilde p) = unfold parse_range_string in refl
  parse_plain (pair {s} {t} p q) = skips_at s (b':' ∷ t) p.plain

  -- A text that writes a range in one of the four forms, alone or behind an `@`, is parsed into
  -- the range that the form means; one whose two finite ends are out of order is refused.
  pub parse_range_string-Writes :
      {f : Form} {text : Bytes} (a : AlertOn)
      → Writes f text
      → parse_range_string d (with_at a text) ≡ accepted (meaning a f)
  parse_range_string-Writes outside w = parse_plain w ∙ read_Writes outside w
  parse_range_string-Writes inside w = unfold parse_range_string in read_Writes inside w

  abbrev pub IsOrdered : Range d → Type 0
  IsOrdered r = (r.start_infinity || r.end_infinity || d.le r.start r.end) ≡ true

  accepted-IsOrdered : (r : Range d) {r' : Range d} → accepted r ≡ some r' → IsOrdered r'
  accepted-IsOrdered r h =
      let (y, e) = if-eq-some (r.start_infinity || r.end_infinity || d.le r.start r.end) h in
      subst IsOrdered e y

  read_end-IsOrdered :
      (t : Bytes) (r : Range d) {r' : Range d} → read_end d t r ≡ some r' → IsOrdered r'
  unfolding read_end
  read_end-IsOrdered [] r h = accepted-IsOrdered r h
  read_end-IsOrdered (c ∷ cs) r h =
      accepted-IsOrdered (set_range_end d r (d.strtod (c ∷ cs)).value) h

  read_range-IsOrdered :
      (str : Bytes) (colon : Option Bytes) (r : Range d) {r' : Range d}
      → read_range d str colon r ≡ some r'
      → IsOrdered r'
  unfolding read_range
  read_range-IsOrdered str none r h = read_end-IsOrdered str r h
  read_range-IsOrdered str (some []) r h = read_end-IsOrdered str r h
  read_range-IsOrdered str (some (c ∷ cs)) r h = read_end-IsOrdered cs (read_start d str r) h

  -- Whatever the argument text, a range that the parser accepts has an infinite end or its ends
  -- in order.
  pub parse_range_string-IsOrdered :
      (str : Bytes) {r : Range d} → parse_range_string d str ≡ some r → IsOrdered r
  unfolding parse_range_string
  parse_range_string-IsOrdered [] h = read_range-IsOrdered [] none (default_range d outside) h
  parse_range_string-IsOrdered (c ∷ cs) h = elim (Bool-cases (c == b'@')) [
    | inl y ↦ read_range-IsOrdered cs (strchr b':' cs) (default_range d inside) (rw y at h)
    | inr n ↦
        read_range-IsOrdered (c ∷ cs) (strchr b':' (c ∷ cs)) (default_range d outside) (rw n at h)
  ]

  -- What any argument text, of those forms or not, is parsed into: the two arguments of
  -- `set_thresholds` are parsed one by one, and the thresholds are stored and 0 is returned
  -- exactly when both parse or are absent. Otherwise the caller's pointer keeps its value.
  pub set_thresholds_lem :
      (old : Option (Thresholds d)) (warn critical : Option Bytes)
      → ((w c : Option (Range d))
          → parse_argument d warn ≡ some w
          → parse_argument d critical ≡ some c
          → set_thresholds d true old warn critical
            ≡ returns (0, some (record { warning = w; critical = c })))
        × ((parse_argument d warn ≡ none) ⊎ (parse_argument d critical ≡ none)
            → set_thresholds d true old warn critical ≡ returns (unparseable, old))
  unfolding set_thresholds
  set_thresholds_lem old warn critical = (λ w c p q. rw (p, q), λ h. refused _ _ h)
    where
      refused :
          (w c : Option (Option (Range d)))
          → (w ≡ none) ⊎ (c ≡ none)
          → returns (set_parsed d old w c) ≡ returns (unparseable, old)
      refused none c h = refl
      refused (some w) none h = refl
      refused (some w) (some c) h = ground arith
