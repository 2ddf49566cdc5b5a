-- ===== src/Server/Life/Moves.antt =====
-- Every step of the tasks keeps the invariant, whatever runs in between.
use iog.Prelude.{
  ℕ, ◌≡◌, ◌⊎◌, refl, sym, ap, subst, ◌∙◌, Bool, true, false, Option, none, some, List, ◌==◌, arith,
  if◌then◌else◌, nat_eq, Bool-cases, inl, inr,
}
use iog.Map
use iog.SessionStore.{has_session}
use iog.Server.{SocketAddr, addr_key, ClientSession, GatewayServer}
use iog.Server.Life.{Point, Task, set_point}
use iog.Server.Life.Invariant.{is_registered, is_saved, saved, Serves, IsKept}

-- The task of a session after a move.
abbrev pub moved : Task → Option Point → Option Task
moved t none = none
moved t (some point) = some (record t { point = point })

pub get-set_point :
    (tasks : List (ℕ × Task)) (id j : ℕ) (t : Task) (o : Option Point)
    → Map.get (set_point tasks id t o) j ≡ (if id == j then moved t o else Map.get tasks j)
unfolding set_point
get-set_point tasks id j t none = Map.get-remove tasks id j
get-set_point tasks id j t (some point) = Map.get-insert tasks id (record t { point = point }) j

-- A task that a session still has.
abbrev pub stays : Option Point → Bool
stays none = false
stays (some point) = is_registered point

-- A session's task, after another task has moved or after it has and stays.
Serves-moved :
    (tasks : List (ℕ × Task)) (id j : ℕ) (t : Task) (o : Option Point) (addr : SocketAddr)
    → Map.get tasks id ≡ some t
    → (id ≡ j → stays o ≡ true)
    → Serves addr (Map.get tasks j)
    → Serves addr (Map.get (set_point tasks id t o) j)
Serves-moved tasks id j t none addr at stay serves = elim (Bool-cases (id == j)) [
  | inl e ↦ let stay' : false ≡ true = stay (ground arith) in cc
  | inr e ↦ rw (get-set_point tasks id j t none, e) serves
]
Serves-moved tasks id j t (some point) addr at stay serves = elim (Bool-cases (id == j)) [
  | inl e ↦
      let same : id ≡ j = ground arith in
      let this : some t ≡ some serves.task = sym at ∙ ap (Map.get tasks) same ∙ serves.there in
      let same_task : t ≡ serves.task = cc in
      rw (get-set_point tasks id j t (some point), e)
        (record {
          task = record t { point = point };
          there = refl;
          same = ap (λ (x : Task). x.addr) same_task ∙ serves.same;
          registered = stay same;
        })
  | inr e ↦ rw (get-set_point tasks id j t (some point), e) serves
]

-- The session that a move has inserted.
new-Serves :
    (tasks : List (ℕ × Task)) (id j : ℕ) (t : Task) (o : Option Point) (addr : SocketAddr)
    → j ≡ id
    → t.addr ≡ addr
    → stays o ≡ true
    → Serves addr (Map.get (set_point tasks id t o) j)
new-Serves tasks id j t none addr named same stay = cc
new-Serves tasks id j t (some point) addr named same stay =
    let e : (id == j) ≡ true = ground arith in
    rw (get-set_point tasks id j t (some point), e)
      (record { task = record t { point = point }; there = refl; same = same; registered = stay })

module _ {W : Type 0} where
  abbrev pub IsKeptAt : GatewayServer W → List (ℕ × Task) → Type 0
  IsKeptAt s tasks = IsKept (record { server = s; tasks = tasks })

  -- The task that a session names is registered, under the session's address.
  pub registered_now :
      (s : GatewayServer W) (tasks : List (ℕ × Task)) (id : ℕ) (t : Task) (addr : SocketAddr)
      (c : ClientSession)
      → IsKeptAt s tasks
      → Map.get tasks id ≡ some t
      → Map.get s.client_sessions addr ≡ some c
      → id ≡ c.session_id
      → (is_registered t.point ≡ true) × (t.addr ≡ addr)
  registered_now s tasks id t addr c kept at e same =
      let (_, serves) = kept.served addr c e in
      let this : some t ≡ some serves.task = sym at ∙ ap (Map.get tasks) same ∙ serves.there in
      let same_task : serves.task ≡ t = cc in
      (
        subst (λ (x : Task). is_registered x.point ≡ true) same_task serves.registered,
        subst (λ (x : Task). x.addr ≡ addr) same_task serves.same,
      )

  -- What a move must see to: where the sessions after it come from, and the entry of its own.
  pub kept_by :
      (s s' : GatewayServer W) (tasks : List (ℕ × Task)) (id : ℕ) (t : Task) (o : Option Point)
      → IsKeptAt s tasks
      → Map.get tasks id ≡ some t
      → ((addr : SocketAddr) (c : ClientSession)
          → Map.get s'.client_sessions addr ≡ some c
          → ((Map.get s.client_sessions addr ≡ some c) × (id ≡ c.session_id → stays o ≡ true))
            ⊎ ((c.addr ≡ addr) × (c.session_id ≡ id) × (t.addr ≡ addr) × (stays o ≡ true)))
      → ((j : ℕ)
          → has_session s'.session_store j
            ≡ (if id == j then saved (moved t o) else has_session s.session_store j))
      → IsKeptAt s' (set_point tasks id t o)
  kept_by s s' tasks id t o kept at sessions store = record {
    served = λ addr c e. elim (sessions addr c e) [
      | inl (old, stay) ↦
          let (home, serves) = kept.served addr c old in
          (home, Serves-moved tasks id c.session_id t o addr at stay serves)
      | inr (home, named, same, stay) ↦
          (home, new-Serves tasks id c.session_id t o addr named same stay)
    ];
    stored = λ j.
        store j
        ∙ rw (get-set_point tasks id j t o)
            (elim (Bool-cases (id == j)) [ inl e ↦ rw e refl | inr e ↦ rw e (kept.stored j) ]);
  }

  -- A move that leaves sessions and store alone.
  pub kept_plain :
      (s s' : GatewayServer W) (tasks : List (ℕ × Task)) (id : ℕ) (t : Task) (o : Option Point)
      → IsKeptAt s tasks
      → Map.get tasks id ≡ some t
      → s'.client_sessions ≡ s.client_sessions
      → s'.session_store ≡ s.session_store
      → (is_registered t.point ≡ true → stays o ≡ true)
      → saved (moved t o) ≡ is_saved t.point
      → IsKeptAt s' (set_point tasks id t o)
  kept_plain s s' tasks id t o kept at sessions store stay entry =
      kept_by s s' tasks id t o kept at
        (λ addr c e.
          let old = sym (ap (λ m. Map.get m addr) sessions) ∙ e in
          inl (old, λ same. stay (registered_now s tasks id t addr c kept at old same).0))
        (λ j. ap (λ x. has_session x j) store ∙ elim (Bool-cases (id == j)) [
          | inl e ↦
              let same : id ≡ j = ground arith in
              rw e (kept.stored j ∙ ap saved (sym (ap (Map.get tasks) same) ∙ at) ∙ sym entry)
          | inr e ↦ rw e refl
        ])
