-- ===== src/UrlEncode/RoundTrip.antt =====
-- A decoder of the `application/x-www-form-urlencoded` form reads back what lib/url_encode.c
-- writes, and the buffer that it allocates is large enough.
use nagios_plugins_linux.Base.{
  ℕ, zero, suc, ◌+◌, ◌*◌, ◌/◌, ◌%◌, ◌≤◌, ◌<◌, ◌≡◌, refl, ap, ◌∙◌, Bool, true, false, ◌&&◌, ◌||◌, [],
  ◌∷◌, ◌++◌, Option, none, some, arith, Bytes, ◌==◌, if◌then◌else◌, ==_iff, length, length-append,
  is_alnum, Bool-cases, inl, inr,
}
use nagios_plugins_linux.UrlEncode.{from_hex, to_hex, encode_byte, url_encode}

-- A byte in front of a text.
abbrev pub consed : ℕ → Option Bytes → Option Bytes
consed c none = none
consed c (some r) = some (c ∷ r)

abbrev pub unplus : ℕ → ℕ
unplus c = if c == b'+' then b' ' else c

-- `%` takes two hexadecimal digits, `+` is a space, and all other bytes stand for themselves;
-- `none` is a `%` with fewer than two bytes behind it.
abbrev pub decode : Bytes → Option Bytes
decode [] = some []
decode (c ∷ []) = if c == b'%' then none else consed (unplus c) (some [])
decode (c ∷ x ∷ []) =
    let plain = consed (unplus c) (decode (x ∷ [])) in if c == b'%' then none else plain
decode (c ∷ x ∷ y ∷ cs) =
    let escaped = consed (16 * from_hex x + from_hex y) (decode cs) in
    let plain = consed (unplus c) (decode (x ∷ y ∷ cs)) in if c == b'%' then escaped else plain

abbrev pub IsBytes : Bytes → Type 0
IsBytes [] = Unit
IsBytes (c ∷ cs) = (c < 256) × IsBytes cs

-- The sixteen digits, each tried.
digits_agree : ℕ → Bool
digits_agree zero = true
digits_agree (suc h) = digits_agree h && from_hex (to_hex h) == h

digit_of : (bound h : ℕ) → h < bound → digits_agree bound ≡ true → from_hex (to_hex h) ≡ h
unfolding digits_agree
digit_of zero h lt agree = absurd (omega arith)
digit_of (suc bound) h lt agree =
    let below = digit_of bound h in ground (arith, below, ==_iff (from_hex (to_hex bound)) bound)

sixteen_agree : digits_agree 16 ≡ true
unfolding digits_agree from_hex to_hex
sixteen_agree = refl

halves : (c : ℕ) → c < 256 → 16 * from_hex (to_hex (c / 16)) + from_hex (to_hex (c % 16)) ≡ c
halves c h =
    let high = digit_of 16 (c / 16) (omega arith) sixteen_agree in
    let low = digit_of 16 (c % 16) (omega arith) sixteen_agree in omega (arith, high, low)

decode_plain :
    (c : ℕ) (rest : Bytes)
    → (c == b'%') ≡ false
    → decode (c ∷ rest) ≡ consed (unplus c) (decode rest)
decode_plain c [] h = ground arith
decode_plain c (x ∷ []) h = ground arith
decode_plain c (x ∷ y ∷ cs) h = ground arith

decode-encode_byte :
    (c : ℕ) (rest : Bytes) → c < 256 → decode (encode_byte c ++ rest) ≡ consed c (decode rest)
unfolding encode_byte
decode-encode_byte c rest h =
    elim (Bool-cases (is_alnum c || c == b'-' || c == b'_' || c == b'.' || c == b'~')) [
      | inl safe ↦ rw safe (rw (decode_plain c rest (ground arith)) (ground arith))
      | inr odd ↦ elim (Bool-cases (c == b' ')) [
        | inl space ↦ rw (odd, space) (ground arith)
        | inr other ↦ rw (odd, other) (ap (λ x. consed x (decode rest)) (halves c h))
      ]
    ]

-- Decoding what `url_encode` wrote gives the text back, whatever its bytes.
pub decode-url_encode : (s : Bytes) → IsBytes s → decode (url_encode s) ≡ some s
unfolding url_encode
decode-url_encode [] h = refl
decode-url_encode (c ∷ cs) h =
    decode-encode_byte c (url_encode cs) h.0 ∙ rw (decode-url_encode cs h.1)

-- The encoded text with its NUL fits the `strlen (str) * 3 + 1` bytes that are allocated.
pub length-url_encode : (s : Bytes) → length (url_encode s) + 1 ≤ length s * 3 + 1
unfolding url_encode encode_byte
length-url_encode [] = omega arith
length-url_encode (c ∷ cs) =
    let joined = length-append (encode_byte c) (url_encode cs) in
    let one : length (encode_byte c) ≤ 3 = ground arith in
    omega (arith, joined, one, length-url_encode cs)
