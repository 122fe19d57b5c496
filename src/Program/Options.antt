-- ===== src/Program/Options.antt =====
-- The loop of getopt_long keeps what each case of the `switch` keeps.
use nagios_plugins_linux.Base.{[], ◌∷◌, List}
use nagios_plugins_linux.Messages.{Outcome, returns, exits, ◌>>=◌}
use nagios_plugins_linux.Program.{getopt_loop}

-- What a call returns has a property.
abbrev pub Ensures : {S : Type 0} → (S → Type 0) → Outcome S → Type 0
Ensures P (returns s) = P s
Ensures P (exits status) = Unit

pub bind_Ensures :
    {A S : Type 0} (P : A → Type 0) (Q : S → Type 0) (m : Outcome A) (f : A → Outcome S)
    → Ensures P m
    → ((a : A) → P a → Ensures Q (f a))
    → Ensures Q (m >>= f)
bind_Ensures P Q (returns a) f h k = k a h
bind_Ensures P Q (exits status) f h k = tt

pub getopt_loop-Ensures :
    {O S : Type 0} (P : S → Type 0) (switch : O → S → Outcome S) (opts : List O) (s : S)
    → ((opt : O) (t : S) → P t → Ensures P (switch opt t))
    → P s
    → Ensures P (getopt_loop switch opts s)
unfolding getopt_loop
getopt_loop-Ensures P switch [] s h p = p
getopt_loop-Ensures P switch (opt ∷ opts) s h p =
    bind_Ensures P P (switch opt s) (getopt_loop switch opts) (h opt s p)
      (λ t q. getopt_loop-Ensures P switch opts t h q)
