-- ===== src/Container/Running.antt =====
-- The counts of lib/container.c, against the images in the reply.
use native.Mathlib.Nat.{zero-add}
use nagios_plugins_linux.Base.{
  ℕ, ◌+◌, ◌^◌, ◌<◌, ◌≡◌, refl, ap, ◌∙◌, Bool, true, false, [], ◌∷◌, List, Option, none, some, Bytes,
  codes, contains, if◌then◌else◌, arith, Bool-cases, inl, inr, u32, streq, streq_iff,
}
use nagios_plugins_linux.Collection.{Entry, Hashtable, counter_create, counter_lookup}
use nagios_plugins_linux.Collection.Lookup.{count_in, count_of}
use nagios_plugins_linux.Collection.Totals.{put_all, tally, number, count_of-put_all}
use nagios_plugins_linux.Container.{
  Token, image_shortname, json_token_streq, json_token_tostr, found, converted, search_tokens,
  docker_json_parser_search, count_found, running, docker_running_containers,
}

-- The values of a key: the texts of the tokens behind each of its occurrences.
abbrev pub values_of : Bytes → Bytes → List Token → List Bytes
values_of json key [] = []
values_of json key (tok ∷ []) = []
values_of json key (tok ∷ next ∷ toks) =
    if json_token_streq json tok key
    then json_token_tostr json next ∷ values_of json key (next ∷ toks)
    else values_of json key (next ∷ toks)

-- The last token is not the key.
abbrev pub ends_otherwise : Bytes → Bytes → List Token → Bool
ends_otherwise json key [] = true
ends_otherwise json key (tok ∷ []) = if json_token_streq json tok key then false else true
ends_otherwise json key (tok ∷ next ∷ toks) = ends_otherwise json key (next ∷ toks)

abbrev pub ones_of : Bool → List Bytes → List (Bytes × ℕ)
ones_of shorten [] = []
ones_of shorten (v ∷ vs) = (converted shorten v, 1) ∷ ones_of shorten vs

pub search_tokens-put_all :
    (json key : Bytes) (shorten : Bool) (toks : List Token) (h : Hashtable)
    → ends_otherwise json key toks ≡ true
    → search_tokens json key shorten 1 toks h
      ≡ found (put_all h (ones_of shorten (values_of json key toks)))
unfolding search_tokens
search_tokens-put_all json key shorten [] h e = refl
search_tokens-put_all json key shorten (tok ∷ []) h e =
    elim (Bool-cases (json_token_streq json tok key)) [ inl k ↦ cc (k, e) | inr k ↦ rw k refl ]
search_tokens-put_all json key shorten (tok ∷ next ∷ toks) h e =
    elim (Bool-cases (json_token_streq json tok key)) [
      | inl k ↦ rw k (search_tokens-put_all json key shorten (next ∷ toks) _ e)
      | inr k ↦ rw k (search_tokens-put_all json key shorten (next ∷ toks) h e)
    ]

-- How many of the images have a short name.
abbrev pub images_with : Bytes → List Bytes → ℕ
images_with name [] = 0
images_with name (v ∷ vs) = (if streq (image_shortname v) name then 1 else 0) + images_with name vs

number-tally :
    (name : Bytes) (vs : List Bytes) → number (tally name (ones_of true vs)) ≡ images_with name vs
unfolding converted
number-tally name [] = refl
number-tally name (v ∷ vs) = ground (arith, number-tally name vs)

count_found-number : (o : Option Entry) → count_found o ≡ u32 (number (count_in o))
unfolding count_found count_in
count_found-number none = refl
count_found-number (some np) = refl

-- For a reply in which the key `Image` is not the last token, and fewer than 2 ^ 32 containers, the
-- number for an image is that of the values of that key whose last part is the text given, whatever
-- the hash table makes of the names.
pub docker_running_containers-images_with :
    (json : Bytes) (first : Token) (toks : List Token) (image : Bytes)
    → ends_otherwise json (codes "Image") toks ≡ true
    → images_with image (values_of json (codes "Image") toks) < 2 ^ 32
    → docker_running_containers json (some (first ∷ toks)) (some image)
      ≡ found (images_with image (values_of json (codes "Image") toks))
unfolding docker_running_containers docker_json_parser_search running count_of
docker_running_containers-images_with json first toks image e b =
    let vs = values_of json (codes "Image") toks in
    let t = number-tally image vs in
    let s = search_tokens-put_all json (codes "Image") true toks counter_create e in
    let c = count_of-put_all (ones_of true vs) image (rw t (omega (arith, b))) in
    ap (running (some image)) s
    ∙ ap found (
        count_found-number (counter_lookup (put_all counter_create (ones_of true vs)) image)
        ∙ (ap (λ o. u32 (number o)) c ∙ rw t (ground (arith, b))))

no_slash : (v : Bytes) → contains b'/' (image_shortname v) ≡ false
unfolding image_shortname
no_slash [] = refl
no_slash (c ∷ cs) = ground (arith, no_slash cs)

images_with-slash :
    (image : Bytes) (vs : List Bytes) → contains b'/' image ≡ true → images_with image vs ≡ 0
images_with-slash image [] h = refl
images_with-slash image (v ∷ vs) h = elim (Bool-cases (streq (image_shortname v) image)) [
  | inl e ↦
      let same : contains b'/' (image_shortname v) ≡ true =
        rw ((streq_iff (image_shortname v) image).0 e) h in
      cc (no_slash v, same)
  | inr e ↦ rw (e, zero-add) (images_with-slash image vs h)
]

-- An image given with a slash is counted 0 times, whatever runs: only the last parts of the names
-- are in the table.
pub docker_running_containers-slash :
    (json : Bytes) (first : Token) (toks : List Token) (image : Bytes)
    → ends_otherwise json (codes "Image") toks ≡ true
    → contains b'/' image ≡ true
    → docker_running_containers json (some (first ∷ toks)) (some image) ≡ found 0
docker_running_containers-slash json first toks image e h =
    let z = images_with-slash image (values_of json (codes "Image") toks) h in
    docker_running_containers-images_with json first toks image e (rw z (omega arith)) ∙ ap found z
