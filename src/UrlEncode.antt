-- ===== src/UrlEncode.antt =====
-- lib/url_encode.c. A byte of the text is a number below 256; `*pstr >> 4` and `*pstr & 15` are its
-- two halves, also where `char` is negative.
pub mod RoundTrip
use nagios_plugins_linux.Base.{
  ℕ, ◌+◌, ◌-◌, ◌*◌, ◌/◌, ◌%◌, ◌||◌, ◌&&◌, [], ◌∷◌, ◌++◌, Bytes, codes, leb, ◌==◌, if◌then◌else◌,
  get_or, is_digit, is_alnum,
}

-- `tolower` in the C locale
abbrev tolower : ℕ → ℕ
tolower c = if leb b'A' c && leb c b'Z' then c + 32 else c

-- The result is a `char`: it is reduced to 8 bits.
unfoldable pub from_hex : ℕ → ℕ
from_hex ch = if is_digit ch then ch - b'0' else (tolower ch + 256 - b'a' + 10) % 256

unfoldable pub to_hex : ℕ → ℕ
to_hex c = get_or (codes "0123456789abcdef") (c % 16) 0

-- What the loop appends for one byte.
unfoldable pub encode_byte : ℕ → Bytes
encode_byte c =
    if is_alnum c || c == b'-' || c == b'_' || c == b'.' || c == b'~'
    then c ∷ []
    else if c == b' '
    then b'+' ∷ []
    else b'%' ∷ to_hex (c / 16) ∷ to_hex (c % 16) ∷ []

unfoldable pub url_encode : Bytes → Bytes
unfolding encode_byte
url_encode [] = []
url_encode (c ∷ cs) = encode_byte c ++ url_encode cs
