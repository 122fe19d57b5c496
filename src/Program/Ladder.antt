-- ===== src/Program/Ladder.antt =====
-- The thresholds that a program goes on with.
use nagios_plugins_linux.Base.{◌≡◌, ap, Option, some, none, Bytes}
use nagios_plugins_linux.Base.Double.{Double}
use nagios_plugins_linux.Messages.{returns, ◌>>=◌}
use nagios_plugins_linux.Thresholds.{Range, parse_argument}
use nagios_plugins_linux.Thresholds.Parse.{set_thresholds_lem}
use nagios_plugins_linux.Program.{thresholds_or_usage, known_thresholds}

-- Texts that can be parsed are the ranges of the program.
pub thresholds_or_usage-parsed :
    (d : Double) (warning critical : Option Bytes) (w c : Option (Range d))
    → parse_argument d warning ≡ some w
    → parse_argument d critical ≡ some c
    → thresholds_or_usage d warning critical ≡ returns (record { warning = w; critical = c })
unfolding thresholds_or_usage known_thresholds
thresholds_or_usage-parsed d warning critical w c hw hc =
    ap (λ o. o >>= known_thresholds d) ((set_thresholds_lem d none warning critical).0 w c hw hc)
