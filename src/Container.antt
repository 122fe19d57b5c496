-- ===== src/Container.antt =====
-- lib/container.c and lib/json_helpers.c: the running containers, counted by image, and their
-- memory. The tokens are those that the JSON tokenizer, a copy of another project, returns, and the
-- texts are what the service replies.
pub mod Running
pub mod Usage
use nagios_plugins_linux.Base.{
  ℕ, zero, suc, ◌+◌, ◌-◌, ◌/◌, ◌^◌, Bool, true, false, ◌&&◌, [], ◌∷◌, List, Option, none, some,
  Bytes, codes, starts_with, contains, drop, take, length, ◌==◌, if◌then◌else◌, u32, add64,
}
use nagios_plugins_linux.Messages.{Outcome, returns, exits}
use nagios_plugins_linux.Collection.{
  Entry, Hashtable, counter_create, counter_put, counter_lookup, counter_get_elements,
}

-- `jsmntype_t` and `jsmntok_t`
pub data TokenType : Type 0 where
  jsmn_undefined jsmn_object jsmn_array jsmn_string jsmn_primitive : TokenType

pub record Token : Type 0 where
  pub kind : TokenType
  pub start : ℕ
  pub end : ℕ

-- The text behind the last slash, if there is one.
unfoldable pub image_shortname : Bytes → Bytes
image_shortname [] = []
image_shortname (c ∷ cs) =
    let later = image_shortname cs in
    if c == b'/' then later else if contains b'/' cs then later else c ∷ cs

is_string : TokenType → Bool
is_string jsmn_string = true
is_string _ = false

-- `0 == json_token_streq (json, tok, s)`; `strncmp` over the length of `s`.
unfoldable pub json_token_streq : Bytes → Token → Bytes → Bool
unfolding is_string
json_token_streq json tok s =
    is_string tok.kind && length s == tok.end - tok.start && starts_with s (drop tok.start json)

-- The text of a token.
unfoldable pub json_token_tostr : Bytes → Token → Bytes
json_token_tostr json tok = take (tok.end - tok.start) (drop tok.start json)

-- What a search comes to: the table, or a read behind the tokens or of a null pointer.
pub data Search (A : Type 0) : Type 0 where
  found : A → Search A
  undefined : Search A

-- `convert ? convert (value) : value`
unfoldable pub converted : Bool → Bytes → Bytes
unfolding image_shortname
converted shorten value = if shorten then image_shortname value else value

-- The loop from a token on: a key takes the token behind it, which is looked at again in its turn.
unfoldable pub search_tokens : Bytes → Bytes → Bool → ℕ → List Token → Hashtable → Search Hashtable
unfolding json_token_streq json_token_tostr converted
search_tokens json token shorten increment [] h = found h
search_tokens json token shorten increment (tok ∷ []) h =
    if json_token_streq json tok token then undefined else found h
search_tokens json token shorten increment (tok ∷ next ∷ toks) h =
    search_tokens json token shorten increment (next ∷ toks) (
      if json_token_streq json tok token
      then counter_put h (converted shorten (json_token_tostr json next)) increment
      else h)

-- The loop begins at the second token.
behind_first : List Token → List Token
behind_first [] = []
behind_first (tok ∷ toks) = toks

-- `none` is a text that cannot be tokenized: its number of tokens is not initialised.
unfoldable pub docker_json_parser_search :
    Bytes → Option (List Token) → Bytes → Bool → ℕ → Search Hashtable
unfolding search_tokens behind_first
docker_json_parser_search json none token shorten increment = undefined
docker_json_parser_search json (some toks) token shorten increment =
    search_tokens json token shorten increment (behind_first toks) counter_create

-- `np ? np->count : 0`, as an `unsigned int`
count_found : Option Entry → ℕ
count_found none = 0
count_found (some np) = u32 np.count

-- `*count`, for the image given or for all.
running : Option Bytes → Search Hashtable → Search ℕ
unfolding count_found counter_lookup counter_get_elements
running image undefined = undefined
running none (found h) = found (counter_get_elements h)
running (some image) (found h) = found (count_found (counter_lookup h image))

-- `*count` of `docker_running_containers`, from the reply and its tokens.
unfoldable pub docker_running_containers : Bytes → Option (List Token) → Option Bytes → Search ℕ
unfolding running docker_json_parser_search
docker_running_containers json toks image =
    running image (docker_json_parser_search json toks (codes "Image") true 1)

-- The loop of `json_search`, with `found_object`; the result is `*value`, or `none` where it is not
-- set.
unfoldable pub search_label : Bytes → Bytes → Bytes → List Token → Bool → Search (Option Bytes)
unfolding json_token_streq json_token_tostr
search_label json object label [] found_object = found none
search_label json object label (tok ∷ []) found_object =
    if json_token_streq json tok object
    then found none
    else if found_object && json_token_streq json tok label
    then undefined
    else found none
search_label json object label (tok ∷ next ∷ toks) found_object =
    let inside = search_label json object label (next ∷ toks) true in
    let same = search_label json object label (next ∷ toks) found_object in
    if json_token_streq json tok object
    then inside
    else if found_object && json_token_streq json tok label
    then found (some (json_token_tostr json next))
    else same

-- What a step returns goes to the next one, unless memory is misread or the process ends.
unfoldable pub and_then :
    {A B : Type 0} → Search (Outcome A) → (A → Search (Outcome B)) → Search (Outcome B)
and_then undefined f = undefined
and_then (found (exits status)) f = found (exits status)
and_then (found (returns a)) f = f a

-- `memory_of` is `docker_container_memory`: the usage of a container in bytes. The loop over the
-- identifiers adds them up in units of 1024.
unfoldable pub add_memory : (Bytes → Search (Outcome ℕ)) → List Bytes → ℕ → Search (Outcome ℕ)
unfolding and_then
add_memory memory_of [] memory = found (returns memory)
add_memory memory_of (id ∷ ids) memory =
    and_then (memory_of id) λ usage. add_memory memory_of ids (add64 memory (usage / 2 ^ 10))

-- The loop over `hashtable->keys[j]`, `j < hashtable->uniq`.
add_keys : (Bytes → Search (Outcome ℕ)) → Search Hashtable → Search (Outcome ℕ)
unfolding add_memory
add_keys memory_of undefined = undefined
add_keys memory_of (found h) = add_memory memory_of (take h.uniq h.keys) 0

unfoldable pub docker_running_containers_memory :
    (Bytes → Search (Outcome ℕ)) → Bytes → Option (List Token) → Search (Outcome ℕ)
unfolding docker_json_parser_search add_keys
docker_running_containers_memory memory_of json toks =
    add_keys memory_of (docker_json_parser_search json toks (codes "Id") false 1)
