-- ===== src/Tests/Thresholds.antt =====
-- Ranges and limits.
use nagios_plugins_linux.Base.{
  ◌≡◌, ◌↔◌, refl, true, false, [], ◌∷◌, none, some, arith, Bytes, codes, ap,
}
use nagios_plugins_linux.Base.Int.{pos, ◌*ℤ◌, ◌/ℤ◌}
use nagios_plugins_linux.Base.Numeral.{strtol, strtol-digits, no_digit}
use nagios_plugins_linux.Messages.{state_ok, state_warning, state_critical}
use nagios_plugins_linux.Thresholds.{
  outside, inside, Range, Thresholds, check_range, get_status, parse_range_string,
  thresholds_expressed_as_percentages,
}
use nagios_plugins_linux.Thresholds.Status.{Alerts, get_status-Alerts}
use nagios_plugins_linux.Thresholds.Parse.{Denotes, pair, stops, parse_range_string-Writes}
use nagios_plugins_linux.Perfdata.{k_shift, get_perfdata_limit_converted}
use nagios_plugins_linux.Tests.{whole}

abbrev ten_to_twenty : Range whole
ten_to_twenty = record {
  start = pos 10;
  end = pos 20;
  start_infinity = false;
  end_infinity = false;
  alert_on = outside;
}

abbrev under_thirty : Range whole
under_thirty = record {
  start = pos 0;
  end = pos 30;
  start_infinity = true;
  end_infinity = false;
  alert_on = outside;
}

abbrev both : Thresholds whole
both = record { warning = some ten_to_twenty; critical = some under_thirty }

get_status_runs :
    (get_status whole (pos 15) both ≡ state_ok)
    × (get_status whole (pos 25) both ≡ state_warning)
    × (get_status whole (pos 31) both ≡ state_critical)
unfolding get_status check_range
get_status_runs = (refl, refl, refl)

get_status-Alerts_example :
    ((get_status whole (pos 25) both ≡ state_critical) ↔ Alerts whole (pos 25) (some under_thirty))
    × ((get_status whole (pos 25) both ≡ state_warning) ↔ (
        (¬ Alerts whole (pos 25) (some under_thirty)) × Alerts whole (pos 25) (some ten_to_twenty)))
    × ((get_status whole (pos 25) both ≡ state_ok) ↔ (
        (¬ Alerts whole (pos 25) (some under_thirty))
        × (¬ Alerts whole (pos 25) (some ten_to_twenty))))
get_status-Alerts_example = get_status-Alerts whole (pos 25) both

parse_range_string_runs :
    (parse_range_string whole (codes "10:20") ≡ some ten_to_twenty)
    × (parse_range_string whole (codes "~:30") ≡ some under_thirty)
    × (parse_range_string whole (codes "20:10") ≡ none)
unfolding parse_range_string strtol
parse_range_string_runs = (refl, refl, refl)

stops-no_digit : (rest : Bytes) → stops rest ≡ true → no_digit rest ≡ true
stops-no_digit [] h = refl
stops-no_digit (c ∷ cs) h = ground arith

ten-Denotes : Denotes whole (codes "10") (pos 10)
ten-Denotes = record {
  no_colon = refl;
  plain = refl;
  reads = λ rest h.
      ap (λ n. n.value)
        (strtol-digits (codes "10") rest (refl, (refl, tt)) (omega arith) (stops-no_digit rest h)
          (omega arith));
}

twenty-Denotes : Denotes whole (codes "20") (pos 20)
twenty-Denotes = record {
  no_colon = refl;
  plain = refl;
  reads = λ rest h.
      ap (λ n. n.value)
        (strtol-digits (codes "20") rest (refl, (refl, tt)) (omega arith) (stops-no_digit rest h)
          (omega arith));
}

parse_range_string-Writes_example :
    parse_range_string whole (codes "@10:20") ≡ some (record ten_to_twenty { alert_on = inside })
parse_range_string-Writes_example =
    parse_range_string-Writes whole inside (pair ten-Denotes twenty-Denotes)

percentages :
    (thresholds_expressed_as_percentages (some (codes "80%")) none ≡ true)
    × (thresholds_expressed_as_percentages (some (codes "80%")) (some (codes "9")) ≡ false)
unfolding thresholds_expressed_as_percentages
percentages = (refl, refl)

limit_runs :
    get_perfdata_limit_converted whole (some ten_to_twenty) 1000 k_shift 7 true
    ≡ record { error = pos 0; limit = 200 }
unfolding get_perfdata_limit_converted ◌*ℤ◌ ◌/ℤ◌
limit_runs = refl
