-- ===== src/Users.antt =====
-- plugins/check_users.c: the sessions of users against the thresholds.
use nagios_plugins_linux.Base.{
  ℕ, ◌+◌, Bool, not, ◌&&◌, [], ◌∷◌, List, Option, none, some, Bytes, streq, if◌then◌else◌, ◌≡◌,
  refl,
}
use nagios_plugins_linux.Base.Int.{ℤ, pos, negsuc}
use nagios_plugins_linux.Base.Double.{Double}
use nagios_plugins_linux.Messages.{NagStatus, state_unknown, Outcome, returns, plugin_error, ◌>>=◌}
use nagios_plugins_linux.Messages.Worst.{ladder}
use nagios_plugins_linux.Thresholds.{Range, Thresholds, parse_argument, alerts, get_status}
use nagios_plugins_linux.Program.{
  getopt_loop, thresholds_or_usage, Limits, no_limits, Opt, switch_option,
}
use nagios_plugins_linux.Program.Ladder.{thresholds_or_usage-parsed}

-- An entry of `getutxent`: whether its type is USER_PROCESS, and the user's name.
pub record Utmpx : Type 0 where
  pub is_user_process : Bool
  pub ut_user : Bytes

unfoldable pub count_entries : List Utmpx → ℕ
count_entries [] = 0
count_entries (ut ∷ rest) =
    (if ut.is_user_process && not (streq ut.ut_user []) then 1 else 0) + count_entries rest

-- `sessions` is what `sd_get_sessions` returns under WITH_SYSTEMD, if systemd is running.
unfoldable pub count_users : Option ℤ → List Utmpx → ℤ
unfolding count_entries
count_users (some sessions) entries = sessions
count_users none entries = pos (count_entries entries)

module _ (d : Double) where
  pub record Report : Type 0 where
    pub status : NagStatus
    pub numuser : ℕ

  report : Thresholds d → ℤ → Outcome Report
  unfolding get_status
  report my_threshold (negsuc n) = plugin_error state_unknown
  report my_threshold (pos numuser) =
      returns
        (record { status = get_status d (d.of_ℤ (pos numuser)) my_threshold; numuser = numuser })

  unfoldable pub main : List Opt → Option ℤ → List Utmpx → Outcome Report
  unfolding getopt_loop switch_option thresholds_or_usage count_users report
  main opts sessions entries = getopt_loop switch_option opts no_limits >>= λ s.
      thresholds_or_usage d s.warning s.critical >>= λ t. report t (count_users sessions entries)

  -- Without systemd, the program counts the entries of user processes with a name, and the state is
  -- CRITICAL if their number alerts the critical range, else WARNING if it alerts the warning range,
  -- else OK.
  pub main-count_entries :
      (opts : List Opt) (entries : List Utmpx) (s : Limits) (w c : Option (Range d))
      → getopt_loop switch_option opts no_limits ≡ returns s
      → parse_argument d s.warning ≡ some w
      → parse_argument d s.critical ≡ some c
      → let v = d.of_ℤ (pos (count_entries entries)) in
        main opts none entries
        ≡ returns (record {
          status = ladder (alerts d v c) (alerts d v w);
          numuser = count_entries entries;
        })
  unfolding main report count_users get_status
  main-count_entries opts entries s w c o hw hc =
      rw (o, thresholds_or_usage-parsed d s.warning s.critical w c hw hc) refl
