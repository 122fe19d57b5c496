-- ===== src/Xstrton/Strict.antt =====
-- `strtol_or_err` of lib/xstrton.c takes whole numbers and nothing else.
use nagios_plugins_linux.Base.{
  ◌<◌, ◌^◌, ◌≡◌, ◌≢◌, refl, true, [], ◌∷◌, ◌++◌, some, arith, Bytes, length, length-append,
}
use mathlib.Core.List.{append-nil}
use nagios_plugins_linux.Base.Int.{pos}
use nagios_plugins_linux.Base.Numeral.{AllDigits, value_of, no_digit, strtol-digits}
use nagios_plugins_linux.Messages.{state_unknown, returns, exits, plugin_error}
use nagios_plugins_linux.Xstrton.{strtol_or_err}

-- A text of decimal digits whose number is below 2 ^ 63 is returned as that number.
pub strtol_or_err-digits :
    (ds : Bytes)
    → AllDigits ds
    → 0 < length ds
    → value_of ds < 2 ^ 63
    → strtol_or_err (some ds) ≡ returns (pos (value_of ds))
unfolding strtol_or_err
strtol_or_err-digits [] a l b = absurd (omega arith)
strtol_or_err-digits (c ∷ cs) a l b =
    let e = rw append-nil at (strtol-digits (c ∷ cs) [] a l refl b) in ground (arith, e)

-- A number with anything but a digit behind it ends the process with the status UNKNOWN.
pub strtol_or_err-trailing :
    (ds rest : Bytes)
    → AllDigits ds
    → 0 < length ds
    → value_of ds < 2 ^ 63
    → no_digit rest ≡ true
    → rest ≢ []
    → strtol_or_err (some (ds ++ rest)) ≡ exits state_unknown
unfolding strtol_or_err plugin_error
strtol_or_err-trailing [] rest a l b n ne = absurd (omega arith)
strtol_or_err-trailing (c ∷ cs) [] a l b n ne = absurd (ne refl)
strtol_or_err-trailing (c ∷ cs) (r ∷ rs) a l b n ne =
    let e = strtol-digits (c ∷ cs) (r ∷ rs) a l n b in
    let longer = length-append (c ∷ cs) (r ∷ rs) in ground (arith, e, longer)
