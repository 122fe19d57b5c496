-- ===== src/Cpudesc/Words.antt =====
-- The flags that lib/cpudesc.c finds are the words of the text but the last one.
use nagios_plugins_linux.Base.{
  ◌≡◌, refl, ap, ◌∙◌, Bool, true, false, ◌||◌, [], ◌∷◌, ◌++◌, List, Option, none, some, Bytes,
  codes, streq, starts_with, contains, if◌then◌else◌, arith,
}
use nagios_plugins_linux.Cpudesc.{
  CpuDesc, strstr, has_flag, read_flags, cpu_desc_get_virtualization_flag, virtualization,
}

-- Words with one space between two.
abbrev pub spaced : List Bytes → Bytes
spaced [] = []
spaced (w ∷ []) = w
spaced (w ∷ v ∷ ws) = w ++ b' ' ∷ spaced (v ∷ ws)

abbrev pub is_word : Bytes → List Bytes → Bool
is_word name [] = false
is_word name (w ∷ ws) = streq name w || is_word name ws

-- No word has a space in it.
abbrev pub AreWords : List Bytes → Type 0
AreWords [] = Unit
AreWords (w ∷ ws) = (contains b' ' w ≡ false) × AreWords ws

-- Inside a word no flag begins.
strstr-word :
    (pattern w rest : Bytes)
    → contains b' ' w ≡ false
    → strstr (b' ' ∷ pattern) (w ++ rest) ≡ strstr (b' ' ∷ pattern) rest
strstr-word pattern [] rest h = refl
strstr-word pattern (c ∷ cs) rest h = ground (arith, strstr-word pattern cs rest)

-- A word is the flag exactly if its text and the space behind it are.
starts_with-word :
    (name w rest : Bytes)
    → contains b' ' name ≡ false
    → contains b' ' w ≡ false
    → starts_with (name ++ b' ' ∷ []) (w ++ b' ' ∷ rest) ≡ streq name w
starts_with-word [] [] rest hn hw = ground arith
starts_with-word [] (c ∷ cs) rest hn hw = ground arith
starts_with-word (n ∷ ns) [] rest hn hw = ground arith
starts_with-word (n ∷ ns) (c ∷ cs) rest hn hw = ground (arith, starts_with-word ns cs rest)

-- All words but the last one.
abbrev pub but_last : List Bytes → List Bytes
but_last [] = []
but_last (w ∷ []) = []
but_last (w ∷ v ∷ ws) = w ∷ but_last (v ∷ ws)

-- With no space behind it, the last word is not found.
starts_with-end :
    (name w : Bytes) → contains b' ' w ≡ false → starts_with (name ++ b' ' ∷ []) w ≡ false
starts_with-end [] [] h = refl
starts_with-end [] (c ∷ cs) h = ground arith
starts_with-end (n ∷ ns) [] h = refl
starts_with-end (n ∷ ns) (c ∷ cs) h = ground (arith, starts_with-end ns cs)

strstr-end : (pattern w : Bytes) → contains b' ' w ≡ false → strstr (b' ' ∷ pattern) w ≡ false
strstr-end pattern [] h = refl
strstr-end pattern (c ∷ cs) h = ground (arith, strstr-end pattern cs)

-- A word and a space in front of a text.
strstr-cons :
    (name w rest : Bytes)
    → contains b' ' name ≡ false
    → contains b' ' w ≡ false
    → strstr (b' ' ∷ name ++ b' ' ∷ []) (b' ' ∷ (w ++ b' ' ∷ rest))
      ≡ (streq name w || strstr (b' ' ∷ name ++ b' ' ∷ []) (b' ' ∷ rest))
strstr-cons name w rest hn hw =
    rw (starts_with-word name w rest hn hw, strstr-word (name ++ b' ' ∷ []) w (b' ' ∷ rest) hw) refl

strstr-spaced :
    (name w : Bytes) (ws : List Bytes)
    → contains b' ' name ≡ false
    → AreWords (w ∷ ws)
    → strstr (b' ' ∷ name ++ b' ' ∷ []) (b' ' ∷ spaced (w ∷ ws)) ≡ is_word name (but_last (w ∷ ws))
strstr-spaced name w [] hn a =
    rw (starts_with-end name w a.0, strstr-end (name ++ b' ' ∷ []) w a.0) refl
strstr-spaced name w (v ∷ ws) hn a =
    strstr-cons name w (spaced (v ∷ ws)) hn a.0
    ∙ ap (λ b. streq name w || b) (strstr-spaced name v ws hn a.1)

-- A flag without a space is found in flags with one space between two exactly if it is one of them
-- and not only the last one.
has_flag-is_word :
    (name w : Bytes) (ws : List Bytes)
    → contains b' ' name ≡ false
    → AreWords (w ∷ ws)
    → has_flag (spaced (w ∷ ws)) name ≡ is_word name (but_last (w ∷ ws))
unfolding has_flag
has_flag-is_word name w ws hn a = strstr-spaced name w ws hn a

shown :
    (p q : Bool)
    → virtualization (if p then some (codes "svm") else if q then some (codes "vmx") else none)
      ≡ (if p then some (codes "AMD-V") else if q then some (codes "VT-x") else none)
unfolding virtualization
shown true q = refl
shown false true = refl
shown false false = refl

chosen :
    (s v p q : Bool) (o : Option Bytes)
    → s ≡ p
    → v ≡ q
    → o ≡ none
    → virtualization (if s then some (codes "svm") else if v then some (codes "vmx") else o)
      ≡ (if p then some (codes "AMD-V") else if q then some (codes "VT-x") else none)
chosen s v p q o es ev eo = rw (es, ev, eo) (shown p q)

-- For flags with one space between two, the virtualization is AMD-V if `svm` is one of them but the
-- last, VT-x if `vmx` is one of these and `svm` is not, and none otherwise, if there was none before:
-- the last flag is never found.
pub read_flags-is_word :
    (d : CpuDesc) (w : Bytes) (ws : List Bytes)
    → AreWords (w ∷ ws)
    → d.virtflag ≡ none
    → cpu_desc_get_virtualization_flag (read_flags (some (spaced (w ∷ ws))) d) ≡ (
        if is_word (codes "svm") (but_last (w ∷ ws))
        then some (codes "AMD-V")
        else if is_word (codes "vmx") (but_last (w ∷ ws))
        then some (codes "VT-x")
        else none)
unfolding read_flags cpu_desc_get_virtualization_flag
read_flags-is_word d w ws a e =
    let s = has_flag-is_word (codes "svm") w ws refl a in
    let v = has_flag-is_word (codes "vmx") w ws refl a in
    chosen _ _ (is_word (codes "svm") (but_last (w ∷ ws)))
      (is_word (codes "vmx") (but_last (w ∷ ws))) d.virtflag s v e
