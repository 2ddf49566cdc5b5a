-- ===== src/Gateway/Loops.antt =====
-- The forwarding loops of gateway/server.rs and gateway/client.rs, of which any number runs at
-- once: each is named by the place of its link, and `ended` has those that have ended.
use iog.Prelude.{ℕ, Bool, true, false, List, ◌∷◌, if◌then◌else◌, contains}

-- After a round: the loop goes on, or it breaks and does what stands behind it.
unfoldable pub after_round : {T : Type 0} → (T → T) → List ℕ → ℕ → Bool × T → List ℕ × T
after_round finish ended ref (true, t) = (ended, t)
after_round finish ended ref (false, t) = (ref ∷ ended, finish t)

-- A round of a loop, if it still runs.
unfoldable pub loop_round : {T : Type 0} → (T → Bool × T) → (T → T) → ℕ → List ℕ × T → List ℕ × T
unfolding after_round
loop_round round finish ref (ended, t) =
    if contains ended ref then (ended, t) else after_round finish ended ref (round t)
