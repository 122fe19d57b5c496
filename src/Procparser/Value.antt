-- ===== src/Procparser/Value.antt =====
-- What `linelookup` of lib/procparser.c finds in a line `pattern : value`.
use nagios_plugins_linux.Base.{
  ℕ, suc, ◌+◌, ◌-◌, ◌≡◌, refl, ap, ap₂, ◌∙◌, sym, Bool, true, false, not, ◌&&◌, [], ◌∷◌, ◌++◌, some,
  Bytes, arith, is_space, ◌==◌, length, length-append, get_or, get_or-append_here, set, drop,
  starts_with,
}
use mathlib.Core.List.{append_assoc}
use nagios_plugins_linux.Procparser.{
  skip_space, end_of_value, before_nul, store_value, after_pattern, linelookup,
}

-- Nothing but white space.
abbrev pub blank : Bytes → Bool
blank [] = true
blank (c ∷ cs) = is_space c && blank cs

abbrev pub no_nul : Bytes → Bool
no_nul [] = true
no_nul (c ∷ cs) = not (c == 0) && no_nul cs

skip_space-append :
    (sp : Bytes) (c : ℕ) (cs : Bytes)
    → blank sp ≡ true
    → is_space c ≡ false
    → skip_space (sp ++ c ∷ cs) ≡ c ∷ cs
unfolding skip_space
skip_space-append [] c cs b n = rw n
skip_space-append (x ∷ sp) c cs b n = let rest = skip_space-append sp c cs in ground (arith, rest)

before_nul-append : (v cs : Bytes) → no_nul v ≡ true → before_nul (v ++ 0 ∷ cs) ≡ v
unfolding before_nul
before_nul-append [] cs h = refl
before_nul-append (c ∷ v) cs h = let rest = before_nul-append v cs in ground (arith, rest)

starts_with-append : (p cs : Bytes) → starts_with p (p ++ cs) ≡ true
starts_with-append [] cs = refl
starts_with-append (c ∷ p) cs = let rest = starts_with-append p cs in ground (arith, rest)

drop-append : (p cs : Bytes) → drop (length p) (p ++ cs) ≡ cs
drop-append [] cs = refl
drop-append (c ∷ p) cs = drop-append p cs

-- The first byte replaced by a NUL.
abbrev cut : Bytes → Bytes
cut [] = []
cut (c ∷ cs) = 0 ∷ cs

set-append : (p cs : Bytes) → set (p ++ cs) (length p) 0 ≡ p ++ cut cs
set-append [] [] = refl
set-append [] (c ∷ cs) = refl
set-append (x ∷ p) cs = ap (λ r. x ∷ r) (set-append p cs)

before_nul-cut :
    (v sp : Bytes) (last : ℕ) → no_nul v ≡ true → before_nul (v ++ cut (sp ++ last ∷ [])) ≡ v
before_nul-cut v [] last h = before_nul-append v [] h
before_nul-cut v (c ∷ sp) last h = before_nul-append v (sp ++ last ∷ []) h

-- The end stays behind a byte that is no white space, and moves back over one that is.
end_of_value-stays :
    (line : Bytes) (n : ℕ) → is_space (get_or line n 0) ≡ false → end_of_value line (suc n) ≡ suc n
unfolding end_of_value
end_of_value-stays line n h = rw h

end_of_value-moves :
    (line : Bytes) (n : ℕ)
    → is_space (get_or line n 0) ≡ true
    → end_of_value line (suc n) ≡ end_of_value line n
unfolding end_of_value
end_of_value-moves line n h = rw h

end_of_value-blank :
    (line q sp cs : Bytes)
    → line ≡ q ++ (sp ++ cs)
    → blank sp ≡ true
    → end_of_value line (length q + length sp) ≡ end_of_value line (length q)
end_of_value-blank line q [] cs e b = ap (end_of_value line) (omega arith)
end_of_value-blank line q (c ∷ sp) cs e b =
    let longer = length-append q (c ∷ []) in
    let there : get_or line (length q) 0 ≡ c = rw (e, get_or-append_here q (c ∷ (sp ++ cs)) 0) in
    let rest =
      end_of_value-blank line (q ++ c ∷ []) sp cs (e ∙ sym (append_assoc q (c ∷ []) (sp ++ cs)))
        (ground arith) in
    ap (end_of_value line) (omega (arith, longer))
    ∙ rest
    ∙ ap (end_of_value line) (omega (arith, longer))
    ∙ end_of_value-moves line (length q) (rw there (ground arith))

-- The end of a value that is followed by white space and one more byte.
end_of_value-line :
    (line q sp : Bytes) (x last : ℕ)
    → line ≡ (q ++ x ∷ []) ++ (sp ++ last ∷ [])
    → is_space x ≡ false
    → blank sp ≡ true
    → end_of_value line (length line - 1) ≡ length (q ++ x ∷ [])
end_of_value-line line q sp x last e n b =
    let whole = length-append (q ++ x ∷ []) (sp ++ last ∷ []) in
    let tail = length-append sp (last ∷ []) in
    let body = length-append q (x ∷ []) in
    let total = ap length e in
    let there : get_or line (length q) 0 ≡ x = rw (
      e ∙ append_assoc q (x ∷ []) (sp ++ last ∷ []),
      get_or-append_here q (x ∷ (sp ++ last ∷ [])) 0,
    ) in
    ap (end_of_value line) (omega (arith, whole, tail, total))
    ∙ end_of_value-blank line (q ++ x ∷ []) sp (last ∷ []) e b
    ∙ ap (end_of_value line) (omega (arith, body))
    ∙ end_of_value-stays line (length q) (rw there n)
    ∙ omega (arith, body)

store_value-line :
    (line front w sp : Bytes) (c x last : ℕ) (cs : Bytes)
    → line ≡ front ++ (c ∷ cs)
    → c ∷ cs ≡ (w ++ x ∷ []) ++ (sp ++ last ∷ [])
    → is_space x ≡ false
    → blank sp ≡ true
    → no_nul (w ++ x ∷ []) ≡ true
    → (line' : Bytes) × (store_value line (c ∷ cs) ≡ some (line', w ++ x ∷ []))
unfolding store_value
store_value-line line front w sp c x last cs e t n b z =
    let value = w ++ x ∷ [] in
    let behind = sp ++ last ∷ [] in
    let split : line ≡ ((front ++ w) ++ x ∷ []) ++ behind =
      e
      ∙ ap (λ r. front ++ r) t
      ∙ sym (append_assoc front value behind)
      ∙ ap (λ r. r ++ behind) (sym (append_assoc front w (x ∷ []))) in
    let stop = end_of_value-line line (front ++ w) sp x last split n b in
    let line' = set line (end_of_value line (length line - 1)) 0 in
    let changed : line' ≡ front ++ (value ++ cut behind) =
      ap (λ i. set line i 0) stop
      ∙ ap (λ l. set l (length ((front ++ w) ++ x ∷ [])) 0) split
      ∙ set-append ((front ++ w) ++ x ∷ []) behind
      ∙ ap (λ r. r ++ cut behind) (append_assoc front w (x ∷ []))
      ∙ append_assoc front value (cut behind) in
    let all = ap length e in
    let parts = length-append front (c ∷ cs) in
    let offset : length line - length (c ∷ cs) ≡ length front = omega (arith, all, parts) in
    let valued : before_nul (drop (length line - length (c ∷ cs)) line') ≡ value =
      ap₂ (λ k l. before_nul (drop k l)) offset changed
      ∙ ap before_nul (drop-append front (value ++ cut behind))
      ∙ before_nul-cut value sp last z in
    (line', ap (λ v. some (line', v)) valued)

-- A line that holds the pattern, a colon with or without white space on either side, a value, white
-- space and one more byte (the newline) gives the value: without the white space around it, and
-- whole, if it holds no NUL and neither begins nor ends with white space.
pub linelookup-value :
    (p : ℕ) (ps before after w sp : Bytes) (c x last : ℕ) (cs : Bytes)
    → blank before ≡ true
    → blank after ≡ true
    → blank sp ≡ true
    → is_space c ≡ false
    → is_space x ≡ false
    → c ∷ cs ≡ (w ++ x ∷ []) ++ (sp ++ last ∷ [])
    → no_nul (w ++ x ∷ []) ≡ true
    → (line' : Bytes) × (linelookup ((p ∷ ps) ++ (before ++ b':' ∷ (after ++ c ∷ cs))) (p ∷ ps)
        ≡ some (line', w ++ x ∷ []))
unfolding linelookup after_pattern
linelookup-value p ps before after w sp c x last cs b a b' n n' t z =
    let line = (p ∷ ps) ++ (before ++ b':' ∷ (after ++ c ∷ cs)) in
    let front = (p ∷ ps) ++ (before ++ b':' ∷ after) in
    let starts = starts_with-append (p ∷ ps) (before ++ b':' ∷ (after ++ c ∷ cs)) in
    let rest = drop-append (p ∷ ps) (before ++ b':' ∷ (after ++ c ∷ cs)) in
    let colon = skip_space-append before b':' (after ++ c ∷ cs) b refl in
    let value = skip_space-append after c cs a n in
    let whole : line ≡ front ++ (c ∷ cs) = sym (
      append_assoc (p ∷ ps) (before ++ b':' ∷ after) (c ∷ cs)
      ∙ ap (λ r. (p ∷ ps) ++ r) (append_assoc before (b':' ∷ after) (c ∷ cs))) in
    let stored = store_value-line line front w sp c x last cs whole t n' b' z in
    rw (starts, rest, colon, value) stored
