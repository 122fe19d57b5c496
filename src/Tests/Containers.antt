-- ===== src/Tests/Containers.antt =====
-- A reply with two containers of one image.
use nagios_plugins_linux.Base.{
  ℕ, ◌≡◌, refl, true, [], ◌∷◌, List, none, some, Bytes, codes, contains, if◌then◌else◌, arith,
}
use nagios_plugins_linux.Container.Usage.{Service, Settings, defaults}
use nagios_plugins_linux.Container.{
  Token, jsmn_object, jsmn_string, found, docker_running_containers, json_token_streq,
  json_token_tostr, image_shortname,
}
use nagios_plugins_linux.Container.Running.{
  images_with, values_of, docker_running_containers-images_with, docker_running_containers-slash,
}

abbrev json : Bytes
json = codes "Image docker.io/nginx Image nginx x"

abbrev token_at : ℕ → ℕ → Token
token_at start end = record { kind = jsmn_string; start = start; end = end }

abbrev whole_reply : Token
whole_reply = record { kind = jsmn_object; start = 0; end = 35 }

abbrev tokens : List Token
tokens = token_at 0 5 ∷ token_at 6 21 ∷ token_at 22 27 ∷ token_at 28 33 ∷ []

nginx_counted : images_with (codes "nginx") (values_of json (codes "Image") tokens) ≡ 2
unfolding json_token_streq json_token_tostr image_shortname
nginx_counted = refl

docker_running_containers-images_with_example :
    docker_running_containers json (some (whole_reply ∷ tokens)) (some (codes "nginx"))
    ≡ found (images_with (codes "nginx") (values_of json (codes "Image") tokens))
unfolding json_token_streq
docker_running_containers-images_with_example =
    docker_running_containers-images_with json whole_reply tokens (codes "nginx") refl
      (omega (arith, nginx_counted))

docker_running_containers-slash_example :
    docker_running_containers json (some (whole_reply ∷ tokens)) (some (codes "docker.io/nginx"))
    ≡ found 0
unfolding json_token_streq
docker_running_containers-slash_example =
    docker_running_containers-slash json whole_reply tokens (codes "docker.io/nginx") refl refl

-- Two containers, one of which is listed twice.
abbrev listed : Bytes
listed = codes "Id a1 Id b2 Id a1 x"

abbrev listed_tokens : List Token
listed_tokens =
    token_at 0 2
    ∷ token_at 3 5
    ∷ token_at 6 8
    ∷ token_at 9 11
    ∷ token_at 12 14
    ∷ token_at 15 17
    ∷ token_at 18 19
    ∷ []

abbrev usage_tokens : List Token
usage_tokens = token_at 0 12 ∷ token_at 13 18 ∷ token_at 19 26 ∷ []

-- The list is asked for with a filter, in which bytes are escaped.
abbrev service : Service
service = record {
  docker_host = none;
  docker_api_version = none;
  perform =
      λ path url. some (if contains b'%' url then listed else codes "memory_stats usage 4097000");
  tokenise =
      λ text. some (if contains b'I' text then whole_reply ∷ listed_tokens else usage_tokens);
  beyond = λ text. [];
}

abbrev asked : Settings
asked = record defaults {
  check_memory = true;
  socket = some (codes "s");
  critical = some (codes "5");
}
