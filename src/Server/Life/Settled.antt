-- ===== src/Server/Life/Settled.antt =====
-- The invariant of the tasks of gateway/server.rs in every state, and what is left once they end.
use iog.Prelude.{
  ℕ, ◌≡◌, ◌≢◌, refl, sym, ap, ◌∙◌, false, none, some, List, [], ◌∷◌, ◌==◌, arith, nat_eq,
  Bool-cases, Option-cases, inl, inr,
}
use iog.Map
use iog.Transport.{WriteHalf}
use iog.Statistics.{Timestamp}
use iog.Configuration.{Configuration}
use iog.Metrics.{Metrics}
use iog.BufferPool.{BufferPool}
use iog.SessionStore
use iog.SessionStore.{has_session}
use iog.Server
use iog.Server.{SocketAddr, addr_key, addr_eq_iff, ClientSession, GatewayServer}
use iog.Server.Sessions.{close_previous}
use iog.Server.Life.{Task, Lives, Step, Reach, connects, begins, moves, others, here, next, marking}
use iog.Server.Life.Invariant.{saved, IsKept}
use iog.Server.Life.Moves.{IsKeptAt}
use iog.Server.Life.Points.{move-IsKept}

-- No task has begun.
abbrev pub start : {W : Type 0} → Configuration → Timestamp → Metrics → BufferPool → Lives W
start config now metrics pool = record { server = Server.new config now metrics pool; tasks = [] }

-- A map with a first binding has something under its key.
bound : {V : Type 0} (k : ℕ) (v : V) (m : List (ℕ × V)) → Map.get ((k, v) ∷ m) k ≡ some v
unfolding Map.get
bound k v m = ground arith

bound_addr :
    (k : SocketAddr) (v : ClientSession) (m : List (SocketAddr × ClientSession))
    → Map.get ((k, v) ∷ m) k ≡ some v
unfolding Map.get
bound_addr k v m = ground (arith, addr_eq_iff k k)

no_sessions :
    (m : List (SocketAddr × ClientSession))
    → ((addr : SocketAddr) (c : ClientSession) → Map.get m addr ≢ some c)
    → m ≡ []
no_sessions [] h = refl
no_sessions ((addr, c) ∷ m) h = absurd (h addr c (bound_addr addr c m))

no_entries : (m : List (ℕ × List (ℕ × ℕ))) → ((id : ℕ) → Map.contains_key m id ≡ false) → m ≡ []
unfolding Map.contains_key
no_entries [] h = refl
no_entries ((id, links) ∷ m) h =
    let there = bound id links m in let none' = h id in ground (arith, there, none')

module _ {W : Type 0} ⦃io : WriteHalf W⦄ where
  close_previous_leaves :
      (s : GatewayServer W) (home addr : SocketAddr) (c : ClientSession)
      → Map.get (close_previous s home).client_sessions addr ≡ some c
      → Map.get s.client_sessions addr ≡ some c
  unfolding close_previous
  close_previous_leaves s home addr c e = elim (Option-cases (Map.get s.client_sessions home)) [
    | inl h ↦ ground (arith, h, Map.get-remove s.client_sessions home addr)
    | inr (old, h) ↦ ground (arith, h, Map.get-remove s.client_sessions home addr)
  ]

  close_previous-store :
      (s : GatewayServer W) (home : SocketAddr)
      → (close_previous s home).session_store ≡ s.session_store
  unfolding close_previous
  close_previous-store s home = elim (Option-cases (Map.get s.client_sessions home)) [
    | inl h ↦ rw (h, close_previous) refl
    | inr (old, h) ↦ rw (h, close_previous) refl
  ]

  -- A task that begins is no other's.
  begins-IsKept :
      (s : GatewayServer W) (tasks : List (ℕ × Task)) (id writer : ℕ) (addr : SocketAddr)
      → Map.get tasks id ≡ none
      → IsKeptAt s tasks
      → IsKeptAt s (Map.insert tasks id (record { addr = addr; writer = writer; point = marking }))
  begins-IsKept s tasks id writer addr fresh kept =
      let t : Task = record { addr = addr; writer = writer; point = marking } in
      record {
        served = λ a c e.
            let (home, serves) = kept.served a c e in
            let other : (id == c.session_id) ≡ false = elim (Bool-cases (id == c.session_id)) [
              | inl same ↦
                  let same' : id ≡ c.session_id = ground arith in
                  let gone = sym (ap (Map.get tasks) same') ∙ fresh in
                  let there = serves.there in cc
              | inr e' ↦ e'
            ] in
            (home, rw (Map.get-insert tasks id t c.session_id, other) serves);
        stored = λ j. rw (Map.get-insert tasks id t j) (elim (Bool-cases (id == j)) [
          | inl e ↦
              let same : id ≡ j = ground arith in
              rw e (kept.stored j ∙ ap saved (sym (ap (Map.get tasks) same) ∙ fresh))
          | inr e ↦ rw e (kept.stored j)
        ]);
      }

  Step-IsKept : (x y : Lives W) → Step x y → IsKept x → IsKept y
  Step-IsKept x y (connects x' addr) kept = record {
    served = λ a c e. kept.served a c (close_previous_leaves x.server addr a c e);
    stored =
        λ j. ap (λ store. has_session store j) (close_previous-store x.server addr) ∙ kept.stored j;
  }
  Step-IsKept x y (begins x' id writer addr fresh) kept =
      begins-IsKept x.server x.tasks id writer addr fresh kept
  Step-IsKept x y (moves x' id t now at) kept =
      move-IsKept x.server x.tasks id t.writer t.addr now t.point kept at
  Step-IsKept x y (others x' s sessions store) kept = record {
    served = λ a c e. kept.served a c (sym (ap (λ m. Map.get m a) sessions) ∙ e);
    stored = λ j. ap (λ st. has_session st j) store ∙ kept.stored j;
  }

  start-IsKept :
      (config : Configuration) (now : Timestamp) (metrics : Metrics) (pool : BufferPool)
      → IsKept (start {W = W} config now metrics pool)
  unfolding Server.new SessionStore.new has_session Map.contains_key Map.get
  start-IsKept config now metrics pool = record { served = λ addr c e. cc; stored = λ id. refl }

  -- Whatever the tasks of a new server do, in any order and with any other task between two
  -- locks: every registered session stands under its address and belongs to a task of that
  -- address that has yet to forget it, and the store has an entry for exactly those tasks that
  -- have saved their session and not restored it.
  pub Reach-IsKept :
      (config : Configuration) (now : Timestamp) (metrics : Metrics) (pool : BufferPool)
      (x : Lives W)
      → Reach (start config now metrics pool) x
      → IsKept x
  Reach-IsKept config now metrics pool x here = start-IsKept config now metrics pool
  Reach-IsKept config now metrics pool x (next {y} before step) =
      Step-IsKept y x step (Reach-IsKept config now metrics pool y before)

  -- Once every task has ended, nothing is left of the sessions: neither a registration nor an
  -- entry in the store, however the tasks came in between each other.
  pub Reach-settled :
      (config : Configuration) (now : Timestamp) (metrics : Metrics) (pool : BufferPool)
      (x : Lives W)
      → Reach (start config now metrics pool) x
      → x.tasks ≡ []
      → (x.server.client_sessions ≡ []) × (x.server.session_store.sessions ≡ [])
  unfolding has_session Map.get
  Reach-settled config now metrics pool x reach ended =
      let kept = Reach-IsKept config now metrics pool x reach in
      let nobody : (id : ℕ) → Map.get x.tasks id ≡ none = λ id. ap (λ m. Map.get m id) ended in
      (
        no_sessions x.server.client_sessions (λ addr c e.
            let (_, serves) = kept.served addr c e in
            let there = sym (nobody c.session_id) ∙ serves.there in cc),
        no_entries x.server.session_store.sessions (λ id. kept.stored id ∙ ap saved (nobody id)),
      )
