-- ===== src/Tests/Pool.antt =====
-- The pool of readers at a small number of connections.
use seekwel.Prelude.{ℕ, ◌≡◌, [], ◌∷◌, ◌++◌}
use seekwel.Connection.Pool.{
  ReaderPool, Step, attempt, give_back, checkout, Reachable, here, step, full,
}
use seekwel.Connection.Pool.Laws.{IsFair, Reachable-IsFair, handed_over, sleeper_served}

-- One connection, one thread that has it and one that waits.
abbrev contended : ReaderPool ℕ
contended = record { conns = []; held = [] ++ 7 ∷ []; sleeping = 1; awake = 0 }

contended-Reachable : Reachable (full (7 ∷ [])) contended
unfolding attempt
contended-Reachable = step (step here checkout) checkout

Reachable-IsFair_example : IsFair (7 ∷ []) contended
Reachable-IsFair_example = Reachable-IsFair (7 ∷ []) contended-Reachable

sleeper_served_example :
    let none_idle : ReaderPool ℕ = contended in
    let back = give_back 7 ([] ++ []) none_idle in
    (none_idle.conns ≡ [])
    × (back ≡ record { conns = 7 ∷ []; held = [] ++ []; sleeping = 0; awake = 1 })
    × (attempt (record back { awake = 0 }) ≡ handed_over 7 ([] ++ []) 0 none_idle)
    × Step back (handed_over 7 ([] ++ []) 0 none_idle)
sleeper_served_example = sleeper_served (7 ∷ []) [] [] [] 7 0 contended-Reachable
