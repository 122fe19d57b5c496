-- ===== src/Container/Usage/Total.antt =====
-- The memory that plugins/check_container.c decides on.
use nagios_plugins_linux.Base.{
  ℕ, ◌+◌, ◌/◌, ◌^◌, ◌≡◌, [], ◌∷◌, ◌++◌, List, Bytes, codes, if◌then◌else◌,
}
use nagios_plugins_linux.Base.Double.{Double}
use nagios_plugins_linux.Messages.{Outcome, returns}
use nagios_plugins_linux.Collection.Counts.{mem}
use nagios_plugins_linux.Container.{Token, Search, found}
use nagios_plugins_linux.Container.Running.{values_of}

-- The texts of a list without repetitions, in the order in which they come first.
abbrev once : List Bytes → List Bytes → List Bytes
once seen [] = seen
once seen (v ∷ vs) = once (if mem v seen then seen else seen ++ v ∷ []) vs

-- The identifiers in a reply, each of them once.
abbrev pub ids_of : Bytes → List Token → List Bytes
ids_of json toks = once [] (values_of json (codes "Id") toks)

abbrev pub kilobytes : (Bytes → ℕ) → List Bytes → ℕ
kilobytes usage [] = 0
kilobytes usage (id ∷ ids) = usage id / 2 ^ 10 + kilobytes usage ids

-- The memory of every container can be read.
abbrev pub IsMetered : (Bytes → Search (Outcome ℕ)) → (Bytes → ℕ) → List Bytes → Type 0
IsMetered memory_of usage [] = Unit
IsMetered memory_of usage (id ∷ ids) =
    (memory_of id ≡ found (returns (usage id))) × IsMetered memory_of usage ids
