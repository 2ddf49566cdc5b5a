-- ===== src/Tests/Locks.antt =====
-- The theorems on the tasks of the server's clients, on two clients whose tasks take turns.
use iog.Prelude.{ℕ, ◌≡◌, refl, none, some, List, [], ◌∷◌, nat_eq, Option-cases, inl, inr}
use iog.Map
use iog.Transport.{WriteHalf}
use iog.Statistics.{pos}
use iog.Server
use iog.Server.{v4, addr_eq}
use iog.Server.Life.{Lives, Reach, begins, moves, here, next, marking, move, advance, set_point}
use iog.Server.Life.Invariant.{IsKept}
use iog.Server.Life.Settled.{start, Reach-IsKept, Reach-settled}
use iog.Server.Life.{collect}
use iog.Server.Routing
use iog.Server.Routing.{Tables, routing, dropping, enlist, route, unroute}
use iog.Server.Routing.Routed
use iog.Tests.{writing, gateway}
use iog.Tests.Sides.{server, home}

-- A schedule: the tasks that move, in this order.
module _ {W : Type 0} ⦃io : WriteHalf W⦄ where
  play : Lives W → List ℕ → Lives W
  play x [] = x
  play x (id ∷ ids) = elim (Map.get x.tasks id) [
    | none ↦ play x ids
    | some t ↦ play (move x id t (pos 5)) ids
  ]

  play-Reach : (x y : Lives W) (ids : List ℕ) → Reach x y → Reach x (play y ids)
  unfolding play
  play-Reach x y [] reach = reach
  play-Reach x y (id ∷ ids) reach = elim (Option-cases (Map.get y.tasks id)) [
    | inl e ↦ rw (e, play) (play-Reach x y ids reach)
    | inr (t, e) ↦
        rw (e, play) (play-Reach x (move y id t (pos 5)) ids (next reach (moves y id t (pos 5) e)))
  ]

-- Two clients from one address begin.
abbrev first : Lives (List ℕ)
first = start gateway.config (pos 0) gateway.metrics gateway.pool

abbrev one : Lives (List ℕ)
one = record first {
  tasks = Map.insert first.tasks 7 (record { addr = home; writer = 0; point = marking });
}

abbrev two : Lives (List ℕ)
two = record one {
  tasks = Map.insert one.tasks 8 (record { addr = home; writer = 1; point = marking });
}

two-Reach : Reach first two
unfolding Map.insert Map.remove Map.get
two-Reach = next (next here (begins first 7 0 home refl)) (begins one 8 1 home refl)

-- The second registers while the first cleans up.
abbrev turns : List ℕ
turns = 7 ∷ 7 ∷ 7 ∷ 7 ∷ 8 ∷ 8 ∷ 7 ∷ 7 ∷ 8 ∷ 7 ∷ []

Reach-IsKept_example : IsKept (play two turns)
Reach-IsKept_example =
    Reach-IsKept gateway.config (pos 0) gateway.metrics gateway.pool (play two turns)
      (play-Reach first two turns two-Reach)

-- All turns that both need.
abbrev all_turns : List ℕ
all_turns = 7 ∷ 7 ∷ 7 ∷ 7 ∷ 8 ∷ 8 ∷ 7 ∷ 7 ∷ 8 ∷ 7 ∷ 7 ∷ 7 ∷ 8 ∷ 8 ∷ 8 ∷ 8 ∷ 8 ∷ 8 ∷ 8 ∷ []

Reach-settled_example :
    let x = play two all_turns in
    (x.server.client_sessions ≡ []) × (x.server.session_store.sessions ≡ [])
unfolding play move advance set_point Map.insert Map.remove Map.get Server.new addr_eq
Reach-settled_example =
    Reach-settled gateway.config (pos 0) gateway.metrics gateway.pool (play two all_turns)
      (play-Reach first two all_turns two-Reach) refl

-- A link is registered, and a client's end finds no route; then the link is routed, and a packet of
-- the client takes the route away again.
abbrev bare : Tables (List ℕ)
bare = Routed.start gateway.config (pos 0) gateway.metrics gateway.pool

abbrev listed : Tables (List ℕ)
listed = record {
  server = enlist bare.server (9 ∷ []) 0;
  duties = Map.insert bare.duties 0 (routing 0 home);
}

abbrev missed : Tables (List ℕ)
missed = record {
  server = (collect listed.server home).1;
  duties = Map.insert listed.duties 1 (dropping (collect listed.server home).0);
}

abbrev routed : Tables (List ℕ)
routed = record { server = route missed.server 0 home; duties = Map.remove missed.duties 0 }

abbrev taken : Tables (List ℕ)
taken = record {
  server = unroute routed.server 0;
  duties = Map.insert routed.duties 2 (dropping (0 ∷ []));
}
