-- ===== src/Uptime/Spelled.antt =====
-- The text of plugins/check_uptime.c against the minutes of its performance data.
use nagios_plugins_linux.Base.{ℕ, ◌+◌, ◌*◌, ◌/◌, ◌%◌, ◌≡◌, [], ◌∷◌, ◌++◌, List, arith, ap, ◌∙◌}
use nagios_plugins_linux.Uptime.{Piece, days, hours, minutes, sprint_uptime, days_text, hours_text}

-- The minutes that a reader of the text counts.
abbrev spelled : List Piece → ℕ
spelled [] = 0
spelled (days n plural ∷ rest) = n * 1440 + spelled rest
spelled (hours n plural ∷ rest) = n * 60 + spelled rest
spelled (minutes n ∷ rest) = n + spelled rest

days_text-spelled :
    (n : ℕ) (rest : List Piece) → spelled (days_text n ++ rest) ≡ n * 1440 + spelled rest
unfolding days_text
days_text-spelled n rest = ground arith

hours_text-spelled :
    (n : ℕ) (rest : List Piece) → spelled (hours_text n ++ rest) ≡ n * 60 + spelled rest
unfolding hours_text
hours_text-spelled n rest = ground arith

split_minutes :
    (s : ℕ) → s / (60 * 60 * 24) * 1440 + (s / 60 / 60 % 24 * 60 + (s / 60 % 60 + 0)) ≡ s / 60
split_minutes s = omega arith

-- The days, hours and minutes of the text are together the minutes that the status is decided on.
pub sprint_uptime-spelled : (s : ℕ) → spelled (sprint_uptime s) ≡ s / 60
unfolding sprint_uptime
sprint_uptime-spelled s =
    days_text-spelled _ _
    ∙ ap (λ m. s / (60 * 60 * 24) * 1440 + m) (hours_text-spelled _ _)
    ∙ split_minutes s
