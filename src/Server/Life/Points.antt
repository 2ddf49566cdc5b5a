-- ===== src/Server/Life/Points.antt =====
-- What each task does at each of its points keeps the invariant.
use iog.Prelude.{
  ℕ, ◌≡◌, refl, sym, ap, ◌∙◌, true, none, some, List, [], ◌∷◌, ◌==◌, arith, nat_eq, Bool-cases, inl,
  inr,
}
use iog.Map
use iog.Transport.{WriteHalf}
use iog.Statistics.{Timestamp, waiting}
use iog.Gateway
use iog.Gateway.Drop.{drop_link}
use iog.SessionStore.{has_session, save_session, restore_session}
use iog.Server.{SocketAddr, addr_key, addr_eq, addr_eq_iff, ClientSession, GatewayServer}
use iog.Server.Links.{is_current, is_empty}
use iog.Server.Sessions.{mark_connected}
use iog.Server.Life.{
  Point, Task, marking, saving, inserting, serving, collecting, dropping, forgetting, restoring,
  checking, idling, save, insert, collect, forget, restore, advance, set_point, move,
}
use iog.Server.Life.Invariant.{is_registered, is_saved, saved, IsKept}
use iog.Server.Life.Moves.{IsKeptAt, kept_by, kept_plain, registered_now}

module _ {W : Type 0} where
  save-IsKept :
      (s : GatewayServer W) (tasks : List (ℕ × Task)) (id : ℕ) (t : Task)
      → t.point ≡ saving
      → IsKeptAt s tasks
      → Map.get tasks id ≡ some t
      → IsKeptAt (save s id) (set_point tasks id t (some inserting))
  unfolding save save_session has_session Map.contains_key
  save-IsKept s tasks id t point kept at =
      kept_by s (save s id) tasks id t (some inserting) kept at
        (λ addr c e. inl (
          e,
          λ same.
              let (on, _) = registered_now s tasks id t addr c kept at e same in
              sym (ap is_registered point) ∙ on,
        ))
        (λ j. ground (arith, Map.get-insert s.session_store.sessions id [] j))

  insert-IsKept :
      (s : GatewayServer W) (tasks : List (ℕ × Task)) (id : ℕ) (t : Task) (now : Timestamp)
      → t.point ≡ inserting
      → IsKeptAt s tasks
      → Map.get tasks id ≡ some t
      → IsKeptAt (insert s t.addr t.writer id now) (set_point tasks id t (some serving))
  unfolding insert
  insert-IsKept s tasks id t now point kept at =
      let session : ClientSession = record {
        writer = t.writer;
        addr = t.addr;
        connected_at = now;
        session_id = id;
      } in
      kept_by s (insert s t.addr t.writer id now) tasks id t (some serving) kept at
        (λ addr c e.
          let e' = sym (Map.get-insert s.client_sessions t.addr session addr) ∙ e in
          elim (Bool-cases (addr_eq t.addr addr)) [
            | inl same ↦
                let home : t.addr ≡ addr = (addr_eq_iff t.addr addr).0 same in
                let new : session ≡ c = ground arith in
                inr (
                  sym (ap (λ (x : ClientSession). x.addr) new) ∙ home,
                  sym (ap (λ (x : ClientSession). x.session_id) new),
                  home,
                  refl,
                )
            | inr other ↦ inl (ground arith, λ same. refl)
          ])
        (λ j. elim (Bool-cases (id == j)) [
          | inl e ↦
              let same : id ≡ j = ground arith in
              rw e
                (kept.stored j ∙ ap saved (sym (ap (Map.get tasks) same) ∙ at) ∙ ap is_saved point)
          | inr e ↦ rw e refl
        ])

  -- Forgetting adds no session, and a session that is current is gone.
  forget_leaves :
      (s : GatewayServer W) (home : SocketAddr) (id : ℕ) (addr : SocketAddr) (c : ClientSession)
      → Map.get (forget s home id).client_sessions addr ≡ some c
      → Map.get s.client_sessions addr ≡ some c
  unfolding forget
  forget_leaves s home id addr c e =
      elim (Bool-cases (is_current (Map.get s.client_sessions home) id)) [
        | inl current ↦ ground (arith, current, Map.get-remove s.client_sessions home addr)
        | inr replaced ↦ ground (arith, replaced)
      ]

  forgotten :
      (s : GatewayServer W) (home : SocketAddr) (id : ℕ) (c : ClientSession)
      → Map.get s.client_sessions home ≡ some c
      → c.session_id ≡ id
      → Map.get (forget s home id).client_sessions home ≡ none
  unfolding forget is_current
  forgotten s home id c e same =
      let current : is_current (Map.get s.client_sessions home) id ≡ true = rw e (ground arith) in
      ground (arith, current, Map.get-remove s.client_sessions home home, addr_eq_iff home home)

  forget-IsKept :
      (s : GatewayServer W) (tasks : List (ℕ × Task)) (id : ℕ) (t : Task)
      → t.point ≡ forgetting
      → IsKeptAt s tasks
      → Map.get tasks id ≡ some t
      → IsKeptAt (forget s t.addr id) (set_point tasks id t (some restoring))
  unfolding forget is_current
  forget-IsKept s tasks id t point kept at =
      kept_by s (forget s t.addr id) tasks id t (some restoring) kept at
        (λ addr c e.
          let old = forget_leaves s t.addr id addr c e in
          inl (
            old,
            λ same.
                let (_, home) = registered_now s tasks id t addr c kept at old same in
                let gone =
                  forgotten s t.addr id c (ap (Map.get s.client_sessions) home ∙ old) (sym same) in
                let still = sym (ap (Map.get (forget s t.addr id).client_sessions) home) ∙ gone in
                cc,
          ))
        (λ j. elim (Bool-cases (id == j)) [
          | inl e ↦
              let same : id ≡ j = ground arith in
              rw e
                (kept.stored j ∙ ap saved (sym (ap (Map.get tasks) same) ∙ at) ∙ ap is_saved point)
          | inr e ↦ rw e refl
        ])

  restore-IsKept :
      (s : GatewayServer W) (tasks : List (ℕ × Task)) (id : ℕ) (t : Task)
      → t.point ≡ restoring
      → IsKeptAt s tasks
      → Map.get tasks id ≡ some t
      → IsKeptAt (restore s id) (set_point tasks id t (some checking))
  unfolding restore restore_session has_session Map.contains_key
  restore-IsKept s tasks id t point kept at =
      kept_by s (restore s id) tasks id t (some checking) kept at
        (λ addr c e. inl (
          e,
          λ same.
              let (on, _) = registered_now s tasks id t addr c kept at e same in
              sym (ap is_registered point) ∙ on,
        ))
        (λ j. ground (arith, Map.get-remove s.session_store.sessions id j))

module _ {W : Type 0} ⦃io : WriteHalf W⦄ where
  -- Each point in turn.
  pub move-IsKept :
      (s : GatewayServer W) (tasks : List (ℕ × Task)) (id writer : ℕ) (addr : SocketAddr)
      (now : Timestamp) (point : Point)
      → let t : Task = record { addr = addr; writer = writer; point = point } in
        IsKeptAt s tasks
        → Map.get tasks id ≡ some t
        → IsKept (move (record { server = s; tasks = tasks }) id t now)
  unfolding move advance mark_connected collect
  move-IsKept s tasks id writer addr now marking kept at =
      kept_plain s (mark_connected s) tasks id _ (some saving) kept at refl refl (λ h. cc) refl
  move-IsKept s tasks id writer addr now saving kept at =
      save-IsKept s tasks id (record { addr = addr; writer = writer; point = saving }) refl kept at
  move-IsKept s tasks id writer addr now inserting kept at =
      insert-IsKept s tasks id (record { addr = addr; writer = writer; point = inserting }) now refl
        kept at
  move-IsKept s tasks id writer addr now serving kept at =
      kept_plain s s tasks id _ (some collecting) kept at refl refl (λ h. refl) refl
  move-IsKept s tasks id writer addr now collecting kept at =
      kept_plain s (collect s addr).1 tasks id _ (some (dropping (collect s addr).0)) kept at refl
        refl (λ h. refl) refl
  move-IsKept s tasks id writer addr now (dropping []) kept at =
      kept_plain s s tasks id _ (some forgetting) kept at refl refl (λ h. refl) refl
  move-IsKept s tasks id writer addr now (dropping (link_id ∷ ids)) kept at =
      kept_plain s (record s { base = drop_link s.base link_id }) tasks id _ (some (dropping ids))
        kept at refl refl (λ h. refl) refl
  move-IsKept s tasks id writer addr now forgetting kept at =
      forget-IsKept s tasks id (record { addr = addr; writer = writer; point = forgetting }) refl
        kept at
  move-IsKept s tasks id writer addr now restoring kept at =
      restore-IsKept s tasks id (record { addr = addr; writer = writer; point = restoring }) refl
        kept at
  move-IsKept s tasks id writer addr now checking kept at =
      elim (Bool-cases (is_empty s.client_sessions)) [
        | inl e ↦ rw e (kept_plain s s tasks id _ (some idling) kept at refl refl (λ h. cc) refl)
        | inr e ↦ rw e (kept_plain s s tasks id _ none kept at refl refl (λ h. cc) refl)
      ]
  move-IsKept s tasks id writer addr now idling kept at =
      kept_plain s (record s { base = Gateway.set_state s.base waiting }) tasks id _ none kept at
        refl refl (λ h. cc) refl
