-- ===== src/Container/Usage.antt =====
-- plugins/check_container.c, over lib/container.c: the containers that run, or their memory, against
-- the thresholds. The service is what libcurl returns from it.
pub mod Total
use nagios_plugins_linux.Base.{
  ℕ, Bool, true, false, ◌&&◌, [], ◌∷◌, ◌++◌, List, Option, none, some, Bytes, codes, if◌then◌else◌,
}
use nagios_plugins_linux.Base.Int.{pos, negsuc, bits64}
use nagios_plugins_linux.Base.Double.{Double}
use nagios_plugins_linux.Messages.{
  NagStatus, state_ok, state_unknown, Outcome, returns, exits, plugin_error, ◌>>=◌,
}
use nagios_plugins_linux.Thresholds.{Thresholds, get_status}
use nagios_plugins_linux.Perfdata.{UnitShift, k_shift, m_shift, g_shift, unit_convert}
use nagios_plugins_linux.UrlEncode.{url_encode}
use nagios_plugins_linux.Xstrton.{Converted, strtol_or_err, sizetollint}
use nagios_plugins_linux.Program.{getopt_loop, thresholds_or_usage}
use nagios_plugins_linux.Program.Arguments.{checked_delay}
use nagios_plugins_linux.Container.{
  Token, Search, found, undefined, search_label, and_then, docker_running_containers,
  docker_running_containers_memory,
}

-- The environment, the replies to the URLs that are asked for through a socket (`none` where
-- libcurl fails), the tokenizer, and the bytes that stand in memory behind the value of a reply.
pub record Service : Type 0 where
  pub docker_host : Option Bytes
  pub docker_api_version : Option Bytes
  pub perform : Bytes → Bytes → Option Bytes
  pub tokenise : Bytes → Option (List Token)
  pub beyond : Bytes → Bytes

-- The socket that `docker_init` sets.
unfoldable pub docker_init : Service → Option Bytes → Outcome Bytes
docker_init service (some socket) = returns socket
docker_init service none = elim service.docker_host [
  | none ↦ plugin_error state_unknown
  | some host ↦ returns host
]

-- The two queries, the second one with the identifier of a container.
pub data Query : Type 0 where
  docker_containers_json : Query
  docker_stats_json : Bytes → Query

abbrev api_version : Option Bytes → Bytes
api_version none = codes "1.24"
api_version (some version) = version

unfoldable pub url_of : Option Bytes → Query → Bytes
unfolding url_encode
url_of version docker_containers_json =
    codes "http://v"
    ++ api_version version
    ++ codes "/containers/json?filters="
    ++ url_encode (codes "{\"status\":{\"running\":true}}")
url_of version (docker_stats_json id) =
    codes "http://v"
    ++ api_version version
    ++ codes "/containers/"
    ++ id
    ++ codes "/stats?stream=false"

reply_or_exit : Option Bytes → Outcome Bytes
reply_or_exit none = plugin_error state_unknown
reply_or_exit (some json) = returns json

-- `docker_init` and `docker_get`, with the test of their callers.
unfoldable pub docker_query : Service → Option Bytes → Query → Outcome Bytes
unfolding docker_init url_of reply_or_exit
docker_query service socket query = docker_init service socket >>= λ path.
    reply_or_exit (service.perform path (url_of service.docker_api_version query))

-- `ntoken` stays 0 for a text that cannot be tokenized.
tokens_or_none : Option (List Token) → List Token
tokens_or_none none = []
tokens_or_none (some toks) = toks

-- `ret < 0`; what the variable held before is only left there on a failure.
usage_or_exit : Converted → Outcome ℕ
usage_or_exit c = elim c.code [
  | pos n ↦ returns (bits64 c.result)
  | negsuc n ↦ plugin_error state_unknown
]

module _ (d : Double) (service : Service) where
  value_to_usage : Bytes → Search (Option Bytes) → Search (Outcome ℕ)
  unfolding usage_or_exit sizetollint
  value_to_usage json undefined = undefined
  value_to_usage json (found value) =
      found (usage_or_exit (sizetollint d value (service.beyond json) (pos 0)))

  unfoldable pub docker_container_memory : Option Bytes → Bytes → Search (Outcome ℕ)
  unfolding docker_query and_then search_label tokens_or_none value_to_usage
  docker_container_memory socket id =
      and_then (found (docker_query service socket (docker_stats_json id))) λ json.
        value_to_usage json (
          search_label json (codes "memory_stats") (codes "usage")
            (tokens_or_none (service.tokenise json)) false)

-- The variables of `main` that the options set.
pub record Settings : Type 0 where
  pub check_memory : Bool
  pub image : Option Bytes
  pub socket : Option Bytes
  pub shift : UnitShift
  pub units : Option Bytes
  pub critical : Option Bytes
  pub warning : Option Bytes

abbrev pub defaults : Settings
defaults = record {
  check_memory = false;
  image = none;
  socket = none;
  shift = k_shift;
  units = none;
  critical = none;
  warning = none;
}

pub data Opt : Type 0 where
  opt_memory opt_kilobyte opt_megabyte opt_gigabyte : Opt
  opt_verbose opt_help opt_version opt_unrecognized : Opt
  opt_image opt_socket opt_critical opt_warning : Bytes → Opt

unfoldable pub switch_option : Opt → Settings → Outcome Settings
switch_option (opt_image optarg) s = returns (record s { image = some optarg })
switch_option (opt_socket optarg) s = returns (record s { socket = some optarg })
switch_option opt_memory s = returns (record s { check_memory = true })
switch_option opt_kilobyte s = returns (record s { shift = k_shift; units = some (codes "kB") })
switch_option opt_megabyte s = returns (record s { shift = m_shift; units = some (codes "MB") })
switch_option opt_gigabyte s = returns (record s { shift = g_shift; units = some (codes "GB") })
switch_option (opt_critical optarg) s = returns (record s { critical = some optarg })
switch_option (opt_warning optarg) s = returns (record s { warning = some optarg })
switch_option opt_verbose s = returns s
switch_option opt_help s = exits state_ok
switch_option opt_version s = exits state_ok
switch_option opt_unrecognized s = exits state_unknown

-- The argument behind the options; the delay is not used.
unfoldable pub read_delay : List Bytes → Outcome ℕ
unfolding strtol_or_err checked_delay
read_delay [] = returns 1
read_delay (arg ∷ args) = strtol_or_err (some arg) >>= λ n. checked_delay (bits64 n)

is_given : Option Bytes → Bool
is_given none = false
is_given (some text) = true

-- `if (units == NULL) units = xstrdup ("kB")`
abbrev pub units_or_kb : Option Bytes → Bytes
units_or_kb none = codes "kB"
units_or_kb (some units) = units

-- What is printed and returned: the memory in a unit, or the number of containers.
pub data Message : Type 0 where
  memory_used : ℕ → Bytes → Message
  running_containers : ℕ → Option Bytes → Message

pub record Report : Type 0 where
  pub status : NagStatus
  pub message : Message

module _ (d : Double) (service : Service) where
  memory_report : Settings → Thresholds d → ℕ → Report
  unfolding get_status unit_convert
  memory_report s t kb_memory_used_total =
      let used = unit_convert kb_memory_used_total s.shift in
      record {
        status = get_status d (d.of_ℤ (pos used)) t;
        message = memory_used used (units_or_kb s.units);
      }

  count_report : Settings → Thresholds d → Search ℕ → Search (Outcome Report)
  unfolding get_status
  count_report s t undefined = undefined
  count_report s t (found containers) = found (
      returns (record {
        status = get_status d (d.of_ℤ (pos containers)) t;
        message = running_containers containers s.image;
      }))

  -- The two branches, with the reply that both begin with.
  check : Settings → Thresholds d → Bytes → Search (Outcome Report)
  unfolding docker_running_containers_memory docker_container_memory docker_running_containers
      memory_report count_report and_then
  check s t json =
      if s.check_memory
      then and_then
          (docker_running_containers_memory (docker_container_memory d service s.socket) json
            (service.tokenise json))
          (λ kb. found (returns (memory_report s t kb)))
      else count_report s t (docker_running_containers json (service.tokenise json) s.image)

  -- From the options to the thresholds.
  read_command_line : List Opt → List Bytes → Outcome (Settings × Thresholds d)
  unfolding getopt_loop switch_option read_delay is_given thresholds_or_usage
  read_command_line opts args = getopt_loop switch_option opts defaults >>= λ s.
      read_delay args >>= λ delay.
      if s.check_memory && is_given s.image
      then exits state_unknown
      else thresholds_or_usage d s.warning s.critical >>= λ t. returns (s, t)

  unfoldable pub main : List Opt → List Bytes → Search (Outcome Report)
  unfolding read_command_line docker_query check and_then
  main opts args = and_then (found (read_command_line opts args)) λ (s, t).
      and_then (found (docker_query service s.socket docker_containers_json)) λ json. check s t json
