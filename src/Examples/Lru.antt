-- ===== src/Examples/Lru.antt =====
-- A cache of two numbers.
use metal_runtime.Common.{ℕ, ◌≡◌, refl, List, [], ◌∷◌, Option, none, some, ℕ_discrete}
use metal_runtime.Lru.{Cache, init}
use metal_runtime.Lru.Assoc.{lookup, remove}
use metal_runtime.Lru.Refinement.Runs.{Call, run, ideal_run, Tracks, run-init-Tracks}

-- The third insertion evicts 2, which was used before 1.
abbrev calls : List (Call ℕ ℕ)
calls =
    Call.insert 1 10
    ∷ Call.insert 2 20
    ∷ Call.find 1
    ∷ Call.insert 3 30
    ∷ Call.find 2
    ∷ Call.insert 1 11
    ∷ []

abbrev answers : List (Option ℕ)
answers = some 10 ∷ some 20 ∷ some 10 ∷ some 30 ∷ none ∷ some 10 ∷ []

calls-answers : (ideal_run ℕ_discrete calls (2, [])).1 ≡ answers
unfolding lookup remove ℕ_discrete
calls-answers = refl

run-init-Tracks_example :
    (c : Cache ℕ ℕ) × (run ℕ_discrete calls (init 2) ≡ some (c, answers))
    × Tracks ℕ_discrete c (2, (1, 10) ∷ (3, 30) ∷ [])
unfolding lookup remove ℕ_discrete
run-init-Tracks_example = run-init-Tracks ℕ_discrete calls 2
