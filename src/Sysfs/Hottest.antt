-- ===== src/Sysfs/Hottest.antt =====
-- The temperature that lib/sysfsparser.c reports over the thermal zones.
use nagios_plugins_linux.Base.{
  ℕ, ◌<◌, ◌^◌, ◌≡◌, refl, sym, ◌∙◌, ap, ◌≢◌, ◌⊎◌, inl, inr, Bool, true, false, ◌&&◌, ◌||◌, [], ◌∷◌,
  List, Option, some, Bytes, codes, ltb, if◌then◌else◌, arith, Bool-cases,
}
use nagios_plugins_linux.Base.Int.{pos, to_int}
use nagios_plugins_linux.Base.Numeral.{Number}
use nagios_plugins_linux.Messages.{returns}
use nagios_plugins_linux.Sysfs.{
  File, zone_file, Thermal, zone_of, is_selected, start, getvalue, read_zone, read_zones,
  thermal_get_temperature,
}

-- Some text of a list has a property.
abbrev pub Any : (Bytes → Type 0) → List Bytes → Type 0
Any P [] = ⊥
Any P (x ∷ xs) = P x ⊎ Any P xs

or_assoc : (a b c : Bool) → ((a || b) || c) ≡ (a || (b || c))
or_assoc a b c = ground arith

or_rest : (a b : Bool) → a ≡ false → (a || b) ≡ true → b ≡ true
or_rest a b h c = ground arith

small_int : (n : ℕ) → n < 2 ^ 31 → to_int n ≡ pos n
unfolding to_int
small_int n h = ground arith

module _ (strtoull : Bytes → Number ℕ) (sysfs : File → Option Bytes) (selected_zone : Option ℕ)
    (temp_of : Bytes → ℕ) where
  -- Every zone of a list that is selected can be read, and `temp_of` is its temperature.
  abbrev pub AllRead : List Bytes → Type 0
  AllRead [] = Unit
  AllRead (n ∷ ns) =
      ((is_selected selected_zone n ≡ true)
        → (old : ℕ) → (getvalue strtoull sysfs old (zone_file n (codes "temp"))).value ≡ temp_of n)
      × AllRead ns

  -- The highest temperature of the selected zones, from a first one on.
  abbrev pub highest : ℕ → List Bytes → ℕ
  highest m [] = m
  highest m (n ∷ ns) =
      highest (if is_selected selected_zone n && ltb m (temp_of n) then temp_of n else m) ns

  abbrev pub some_selected : List Bytes → Bool
  some_selected [] = false
  some_selected (n ∷ ns) = is_selected selected_zone n || some_selected ns

  abbrev pub IsAt : ℕ → ℕ → Bytes → Type 0
  IsAt zone max n = (is_selected selected_zone n ≡ true) × (zone_of n ≡ zone) × (temp_of n ≡ max)

  abbrev after : List Bytes → Thermal → Thermal
  after ns s = read_zones strtoull sysfs selected_zone ns s

  abbrev round : Bytes → Thermal → Thermal
  round n s = if is_selected selected_zone n then read_zone strtoull sysfs n s else s

  round-max :
      (n : Bytes) (s : Thermal)
      → ((is_selected selected_zone n ≡ true)
          → (old : ℕ)
          → (getvalue strtoull sysfs old (zone_file n (codes "temp"))).value ≡ temp_of n)
      → (round n s).max_temp ≡ (
          if is_selected selected_zone n && ltb s.max_temp (temp_of n)
          then temp_of n
          else s.max_temp)
  unfolding read_zone
  round-max n s h = elim (Bool-cases (is_selected selected_zone n)) [
    | inl c ↦ rw (c, h c s.temp) (ground arith)
    | inr c ↦ rw c refl
  ]

  round-found :
      (n : Bytes) (s : Thermal)
      → (round n s).found_data ≡ (s.found_data || is_selected selected_zone n)
  unfolding read_zone
  round-found n s = ground arith

  after-highest :
      (ns : List Bytes) (s : Thermal) → AllRead ns → (after ns s).max_temp ≡ highest s.max_temp ns
  unfolding read_zones
  after-highest [] s h = refl
  after-highest (n ∷ ns) s h =
      after-highest ns (round n s) h.1 ∙ ap (λ m. highest m ns) (round-max n s h.0)

  after-found :
      (ns : List Bytes) (s : Thermal) → (after ns s).found_data ≡ (s.found_data || some_selected ns)
  unfolding read_zones
  after-found [] s = ground arith
  after-found (n ∷ ns) s =
      let r = round-found n s in
      let e = after-found ns (round n s) in
      e ∙ rw r (or_assoc s.found_data (is_selected selected_zone n) (some_selected ns))

  -- A round leaves the zone and its temperature alone, or sets both to those of the zone read; the
  -- latter if there was no temperature.
  round-IsAt :
      (n : Bytes) (s : Thermal)
      → is_selected selected_zone n ≡ true
      → (getvalue strtoull sysfs s.temp (zone_file n (codes "temp"))).value ≡ temp_of n
      → (((round n s).zone ≡ s.zone) × ((round n s).max_temp ≡ s.max_temp) × (s.max_temp ≢ 0))
        ⊎ (((round n s).zone ≡ zone_of n) × ((round n s).max_temp ≡ temp_of n))
  unfolding read_zone
  round-IsAt n s c h = rw (c, h) (ground arith)

  abbrev Kept : Thermal → Thermal → Type 0
  Kept r s = (r.zone ≡ s.zone) × (r.max_temp ≡ s.max_temp)

  abbrev Moved : Bytes → Thermal → Thermal → Type 0
  Moved n t s =
      ((t.zone ≡ s.zone) × (t.max_temp ≡ s.max_temp) × (s.max_temp ≢ 0))
      ⊎ ((t.zone ≡ zone_of n) × (t.max_temp ≡ temp_of n))

  follow :
      (n : Bytes) (t s r : Thermal) (X : Type 0)
      → is_selected selected_zone n ≡ true
      → Moved n t s
      → Kept r t ⊎ X
      → Kept r s ⊎ (IsAt r.zone r.max_temp n ⊎ X)
  follow n t s r X c (inl (z, m, p)) (inl k) = inl (k.0 ∙ z, k.1 ∙ m)
  follow n t s r X c (inr (z, m)) (inl k) = inr (inl (c, sym (k.0 ∙ z), sym (k.1 ∙ m)))
  follow n t s r X c q (inr x) = inr (inr x)

  begin :
      (n : Bytes) (t s r : Thermal) (X : Type 0)
      → is_selected selected_zone n ≡ true
      → s.max_temp ≡ 0
      → Moved n t s
      → Kept r t ⊎ X
      → IsAt r.zone r.max_temp n ⊎ X
  begin n t s r X c e (inl (z, m, p)) k = absurd (p e)
  begin n t s r X c e (inr (z, m)) (inl k) = inl (c, sym (k.0 ∙ z), sym (k.1 ∙ m))
  begin n t s r X c e (inr q) (inr x) = inr x

  round_skipped : (n : Bytes) (s : Thermal) → is_selected selected_zone n ≡ false → round n s ≡ s
  round_skipped n s c = rw c refl

  skip :
      (n : Bytes) (t s r : Thermal) (X : Type 0)
      → t ≡ s
      → Kept r t ⊎ X
      → Kept r s ⊎ (IsAt r.zone r.max_temp n ⊎ X)
  skip n t s r X e (inl k) =
      inl (k.0 ∙ ap (λ (u : Thermal). u.zone) e, k.1 ∙ ap (λ (u : Thermal). u.max_temp) e)
  skip n t s r X e (inr x) = inr (inr x)

  after-IsAt :
      (ns : List Bytes) (s : Thermal)
      → AllRead ns
      → (((after ns s).zone ≡ s.zone) × ((after ns s).max_temp ≡ s.max_temp))
        ⊎ Any (IsAt (after ns s).zone (after ns s).max_temp) ns
  unfolding read_zones
  after-IsAt [] s h = inl (refl, refl)
  after-IsAt (n ∷ ns) s h = elim (Bool-cases (is_selected selected_zone n)) [
    | inl c ↦
        let t = round-IsAt n s c (h.0 c s.temp) in
        let r = after-IsAt ns (round n s) h.1 in
        follow n (round n s) s (after ns (round n s)) _ c t r
    | inr c ↦
        let r = after-IsAt ns (round n s) h.1 in
        skip n (round n s) s (after ns (round n s)) _ (round_skipped n s c) r
  ]

  first-IsAt :
      (ns : List Bytes) (s : Thermal)
      → AllRead ns
      → s.max_temp ≡ 0
      → some_selected ns ≡ true
      → Any (IsAt (after ns s).zone (after ns s).max_temp) ns
  unfolding read_zones
  first-IsAt [] s h z c = cc
  first-IsAt (n ∷ ns) s h z c = elim (Bool-cases (is_selected selected_zone n)) [
    | inl d ↦
        let t = round-IsAt n s d (h.0 d s.temp) in
        let r = after-IsAt ns (round n s) h.1 in
        begin n (round n s) s (after ns (round n s)) _ d z t r
    | inr d ↦
        let still = ap (λ (u : Thermal). u.max_temp) (round_skipped n s d) in
        inr (first-IsAt ns (round n s) h.1 (still ∙ z) (or_rest _ _ d c))
  ]

  -- Where every selected zone can be read and there is one, the temperature returned is the highest
  -- of theirs, below 2 ^ 31, and `*zone` is a selected zone with that temperature.
  pub thermal_get_temperature-highest :
      (names : List Bytes) (zone : ℕ) (kind : Option Bytes)
      → AllRead names
      → some_selected names ≡ true
      → highest 0 names < 2 ^ 31
      → (hottest : ℕ) × (last : Option Bytes) × (thermal_get_temperature strtoull sysfs
            selected_zone
            (some names)
            zone
            kind
          ≡ returns (pos (highest 0 names), hottest, last))
        × Any (IsAt hottest (highest 0 names)) names
  unfolding thermal_get_temperature
  thermal_get_temperature-highest names zone kind h c b =
      let s = start zone kind in
      let m = after-highest names s h in
      let f = after-found names s in
      (
        (after names s).zone,
        (after names s).kind,
        rw (f, c, m, small_int (highest 0 names) b) refl,
        rw (← m) (first-IsAt names s h refl c),
      )
