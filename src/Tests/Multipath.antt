-- ===== src/Tests/Multipath.antt =====
-- A listing of two paths, one of them faulty, over a socket that is interrupted once and then moves
-- two bytes a time.
use nagios_plugins_linux.Base.{
  ℕ, zero, suc, ◌≡◌, refl, true, [], ◌∷◌, ◌++◌, List, Bytes, codes, starts_with, arith, replicate,
}
use nagios_plugins_linux.Messages.{state_critical}
use nagios_plugins_linux.Multipath.{Answer, again, moves, ends, main, multipathd_query}
use nagios_plugins_linux.Multipath.Dialogue.{later, IsFair}
use nagios_plugins_linux.Multipath.Bounds.{Fits, multipathd_query-Fits}
use nagios_plugins_linux.Multipath.Served.{Ends, sent, listing, main-served}

abbrev answers : ℕ → Answer
answers zero = again
answers (suc n) = moves 2

answers_later : (k : ℕ) → later k (λ i. moves 2) 0 ≡ moves 2
answers_later zero = refl
answers_later (suc k) = answers_later k

answers-IsFair : IsFair answers
answers-IsFair zero = (1, (refl, (1, refl)))
answers-IsFair (suc k) = (0, (1, answers_later k))

abbrev lines : List Bytes
lines = codes "hcil dev" ∷ codes "active sdb" ∷ [] ∷ codes "failed sdc" ∷ []

main-served_example :
    Ends answers
      (λ a.
        main
          (starts_with (codes "active"))
          true
          true
          true
          a
          (sent (listing lines ++ 0 ∷ []) ++ 7 ∷ []))
      (ends state_critical 1)
main-served_example =
    main-served (starts_with (codes "active")) answers lines (7 ∷ []) answers-IsFair (omega arith)
      (omega arith)

multipathd_query-Fits_example :
    Fits 4 (
      multipathd_query true
        (replicate 20 (moves 2))
        (2 ∷ replicate 7 0 ++ 7 ∷ 7 ∷ [])
        (codes "q")
        4)
multipathd_query-Fits_example =
    multipathd_query-Fits true (replicate 20 (moves 2)) (2 ∷ replicate 7 0 ++ 7 ∷ 7 ∷ [])
      (codes "q") 4
