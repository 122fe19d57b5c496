-- ===== src/Tests/Numbers.antt =====
-- Numbers with a suffix, whole numbers, and encoded texts.
use nagios_plugins_linux.Base.{get_or, ◌==◌, if◌then◌else◌, ◌≡◌, refl, [], some, arith, codes}
use nagios_plugins_linux.Base.Int.{pos, ◌*ℤ◌}
use nagios_plugins_linux.Base.Numeral.{strtol}
use nagios_plugins_linux.Xstrton.{sizetollint}
use nagios_plugins_linux.Xstrton.Suffix.{Reads, hour, kilo, in_seconds, in_bytes}
use nagios_plugins_linux.Xstrton.Units.{success, refused, sizetollint-bare}
use nagios_plugins_linux.UrlEncode.{url_encode, to_hex}
use nagios_plugins_linux.UrlEncode.RoundTrip.{decode, decode-url_encode}
use nagios_plugins_linux.Tests.{whole}

hour-Reads : Reads whole (codes "12") (codes "H") (pos 12)
unfolding strtol
hour-Reads = record { ne_nil = omega arith; scan = refl }

kilo-Reads : Reads whole (codes "12") (codes "kx") (pos 12)
unfolding strtol
kilo-Reads = record { ne_nil = omega arith; scan = refl }

bare-Reads : Reads whole (codes "12") [] (pos 12)
unfolding strtol
bare-Reads = record { ne_nil = omega arith; scan = refl }

sizetollint-bare_example :
    sizetollint whole (some (codes "12")) (codes "x") (pos 0)
    ≡ (if get_or (codes "x") 0 0 == 0 then success whole (pos 12) else refused whole (pos 12))
sizetollint-bare_example = sizetollint-bare whole (codes "12") (codes "x") (pos 0) bare-Reads

units_run :
    (success whole (in_seconds whole hour (pos 12)) ≡ success whole (pos 43200))
    × (refused whole (in_bytes whole kilo (pos 12)) ≡ refused whole (pos 12000))
unfolding in_seconds in_bytes ◌*ℤ◌
units_run = (refl, refl)

decode-url_encode_example : decode (url_encode (codes "a b/c")) ≡ some (codes "a b/c")
decode-url_encode_example =
    decode-url_encode (codes "a b/c")
      (omega arith, (omega arith, (omega arith, (omega arith, (omega arith, tt)))))

url_encode_runs : url_encode (codes "a b/c") ≡ codes "a+b%2fc"
unfolding url_encode to_hex
url_encode_runs = refl
