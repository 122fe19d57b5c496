-- ===== src/Cputopology/Mask.antt =====
-- The masks of lib/cputopology.c: the processors of a mask are the ones in its hexadecimal digits.
use native.Mathlib.Nat.{zero-add}
use nagios_plugins_linux.Base.{
  ℕ, ◌+◌, ◌*◌, ◌/◌, ◌%◌, ◌≤◌, ◌<◌, ◌≡◌, refl, sym, ◌∙◌, ap, Bool, true, false, [], ◌∷◌, List,
  Option, none, some, Bytes, length, ◌==◌, if◌then◌else◌, arith, Bool-cases, inl, inr,
}
use nagios_plugins_linux.Base.Int.{pos}
use nagios_plugins_linux.Cputopology.{
  char_to_val, bits_of, set_if, is_set, Parsed, members, digit, parse_mask, backwards,
  without_prefix, count_below, count_of, cpumask_parse,
}

-- The ones among the four bits of a digit; a byte that is no digit has none.
abbrev pub ones : ℕ → ℕ
ones val = val % 2 + (val / 2) % 2 + (val / 4) % 2 + (val / 8) % 2

abbrev pub weight_of : Option ℕ → ℕ
weight_of none = 0
weight_of (some val) = ones val

abbrev pub weight : Bytes → ℕ
weight [] = 0
weight (c ∷ cs) = weight_of (char_to_val c) + weight cs

abbrev pub is_hex : ℕ → Bool
is_hex c = elim (char_to_val c) [ none ↦ false | some val ↦ true ]

-- A mask read backwards: hexadecimal digits, with a single comma in front of some of them.
abbrev pub IsMask : Bytes → Type 0
IsMask [] = Unit
IsMask (c ∷ []) = is_hex c ≡ true
IsMask (c ∷ e ∷ cs) =
    if c == b',' then (is_hex e ≡ true) × IsMask cs else (is_hex c ≡ true) × IsMask (e ∷ cs)

weight-backwards : (cs acc : Bytes) → weight (backwards cs acc) ≡ weight cs + weight acc
weight-backwards [] acc = sym (zero-add (weight acc))
weight-backwards (c ∷ cs) acc = weight-backwards cs (c ∷ acc) ∙ omega arith

-- No member is below a number.
abbrev AllFrom : ℕ → List ℕ → Type 0
AllFrom m [] = Unit
AllFrom m (x ∷ xs) = (m ≤ x) × AllFrom m xs

AllFrom-le : (m n : ℕ) (l : List ℕ) → m ≤ n → AllFrom n l → AllFrom m l
AllFrom-le m n [] h a = a
AllFrom-le m n (x ∷ xs) h a = (omega (arith, h, a.0), AllFrom-le m n xs h a.1)

is_set-AllFrom : (c : ℕ) (l : List ℕ) → AllFrom (c + 1) l → is_set c l ≡ false
is_set-AllFrom c [] a = refl
is_set-AllFrom c (x ∷ xs) a = ground (arith, a.0, is_set-AllFrom c xs a.1)

count_below-set_if :
    (room c : ℕ) (b : Bool) (l : List ℕ)
    → c < room
    → AllFrom (c + 1) l
    → count_below room (set_if b c l) ≡ (if b then 1 else 0) + count_below room l
count_below-set_if room c true l h a = rw (is_set-AllFrom c l a) (ground (arith, h))
count_below-set_if room c false l h a = omega arith

set_if-AllFrom : (c : ℕ) (b : Bool) (l : List ℕ) → AllFrom (c + 1) l → AllFrom c (set_if b c l)
set_if-AllFrom c true l a = (omega arith, AllFrom-le c (c + 1) l (omega arith) a)
set_if-AllFrom c false l a = AllFrom-le c (c + 1) l (omega arith) a

bit_value : (n : ℕ) → n < 2 → (if n == 1 then 1 else 0) ≡ n
bit_value n h = ground arith

-- What a mask comes to, with its members from `cpu` on.
abbrev Counts : ℕ → ℕ → Parsed → ℕ → Type 0
Counts room cpu p n = (l : List ℕ) × (p ≡ members l) × (count_below room l ≡ n) × AllFrom cpu l

added_up :
    (x0 x1 x2 x3 n0 n1 n2 n3 n4 : ℕ) {b0 b1 b2 b3 : ℕ}
    → n0 ≡ b0 + n1
    → n1 ≡ b1 + n2
    → n2 ≡ b2 + n3
    → n3 ≡ b3 + n4
    → b0 ≡ x0
    → b1 ≡ x1
    → b2 ≡ x2
    → b3 ≡ x3
    → n0 ≡ x0 + x1 + x2 + x3 + n4
added_up x0 x1 x2 x3 n0 n1 n2 n3 n4 a b c d e f g h = omega arith

bits_of-count_below :
    (room val cpu : ℕ) (l : List ℕ)
    → cpu + 4 ≤ room
    → AllFrom (cpu + 4) l
    → (count_below room (bits_of val cpu l) ≡ ones val + count_below room l)
      × AllFrom cpu (bits_of val cpu l)
bits_of-count_below room val cpu l h a =
    let b0 = val % 2 == 1 in
    let b1 = (val / 2) % 2 == 1 in
    let b2 = (val / 4) % 2 == 1 in
    let b3 = (val / 8) % 2 == 1 in
    let a3 = set_if-AllFrom (cpu + 3) b3 l (AllFrom-le (cpu + 3 + 1) (cpu + 4) l (omega arith) a) in
    let l3 = set_if b3 (cpu + 3) l in
    let a2 =
      set_if-AllFrom (cpu + 2) b2 l3 (AllFrom-le (cpu + 2 + 1) (cpu + 3) l3 (omega arith) a3) in
    let l2 = set_if b2 (cpu + 2) l3 in
    let a1 =
      set_if-AllFrom (cpu + 1) b1 l2 (AllFrom-le (cpu + 1 + 1) (cpu + 2) l2 (omega arith) a2) in
    let l1 = set_if b1 (cpu + 1) l2 in
    let a0 = set_if-AllFrom cpu b0 l1 a1 in
    let c3 =
      count_below-set_if room (cpu + 3) b3 l (omega arith)
        (AllFrom-le (cpu + 3 + 1) (cpu + 4) l (omega arith) a) in
    let c2 =
      count_below-set_if room (cpu + 2) b2 l3 (omega arith)
        (AllFrom-le (cpu + 2 + 1) (cpu + 3) l3 (omega arith) a3) in
    let c1 =
      count_below-set_if room (cpu + 1) b1 l2 (omega arith)
        (AllFrom-le (cpu + 1 + 1) (cpu + 2) l2 (omega arith) a2) in
    let c0 = count_below-set_if room cpu b0 l1 (omega arith) a1 in
    (
      added_up _ _ _ _ _ _ _ _ _ c0 c1 c2 c3 (bit_value (val % 2) (omega arith))
          (bit_value ((val / 2) % 2) (omega arith)) (bit_value ((val / 4) % 2) (omega arith))
          (bit_value ((val / 8) % 2) (omega arith)),
      a0,
    )

digit-Counts :
    (room cpu n : ℕ) (o : Option ℕ) (p : Parsed)
    → cpu + 4 ≤ room
    → elim o [ none ↦ false | some val ↦ true ] ≡ true
    → Counts room (cpu + 4) p n
    → Counts room cpu (digit o cpu p) (weight_of o + n)
unfolding digit
digit-Counts room cpu n none p h x k = cc
digit-Counts room cpu n (some val) p h x (l, e, k, a) =
    let (c, f) = bits_of-count_below room val cpu l h a in
    (bits_of val cpu l, rw e refl, c ∙ rw k refl, f)

comma_weight : (c : ℕ) → (c == b',') ≡ true → weight_of (char_to_val c) ≡ 0
unfolding char_to_val
comma_weight c h = ground arith

not_comma : (c : ℕ) → is_hex c ≡ true → (c == b',') ≡ false
unfolding char_to_val
not_comma c h = ground arith

if_true {ℓ} : (A B : Type ℓ) (b : Bool) → b ≡ true → (if b then A else B) → A
if_true A B true h x = x
if_true A B false h x = cc

if_false {ℓ} : (A B : Type ℓ) (b : Bool) → b ≡ false → (if b then A else B) → B
if_false A B true h x = cc
if_false A B false h x = x

parse_mask-Counts :
    (room : ℕ) (cs : Bytes) (cpu : ℕ)
    → cpu + 4 * length cs ≤ room
    → IsMask cs
    → Counts room cpu (parse_mask cs cpu) (weight cs)
unfolding parse_mask
parse_mask-Counts room [] cpu h m = ([], refl, refl, tt)
parse_mask-Counts room (c ∷ []) cpu h m =
    rw (not_comma c m)
      (digit-Counts room cpu 0 (char_to_val c) (members []) (omega arith) m ([], refl, refl, tt))
parse_mask-Counts room (c ∷ e ∷ cs) cpu h m = elim (Bool-cases (c == b',')) [
  | inl x ↦
      let q = if_true _ _ (c == b',') x m in
      let r = parse_mask-Counts room cs (cpu + 4) (omega arith) q.1 in
      rw (x, comma_weight c x, zero-add)
        (digit-Counts room cpu (weight cs) (char_to_val e) _ (omega arith) q.0 r)
  | inr x ↦
      let q = if_false _ _ (c == b',') x m in
      let r = parse_mask-Counts room (e ∷ cs) (cpu + 4) (omega arith) q.1 in
      rw x (digit-Counts room cpu (weight (e ∷ cs)) (char_to_val c) _ (omega arith) q.0 r)
]

-- For hexadecimal digits with a single comma behind some of them, with or without `0x`, and a set
-- with room for four processors a byte, `cpumask_parse` returns the number of ones that the
-- digits have in base 2.
pub cpumask_parse-weight :
    (room : ℕ) (str : Bytes)
    → IsMask (backwards (without_prefix str) [])
    → 4 * length (backwards (without_prefix str) []) ≤ room
    → cpumask_parse room (some str) ≡ some (pos (weight (without_prefix str)))
unfolding cpumask_parse count_of
cpumask_parse-weight room str m h =
    let (l, e, k, f) =
      parse_mask-Counts room (backwards (without_prefix str) []) 0 (omega arith) m in
    let w : weight (backwards (without_prefix str) []) ≡ weight (without_prefix str) + 0 =
      weight-backwards (without_prefix str) [] in
    rw e (ap (λ n. some (pos n)) (k ∙ (w ∙ omega arith)))
