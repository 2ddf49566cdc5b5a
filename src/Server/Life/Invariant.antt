-- ===== src/Server/Life/Invariant.antt =====
-- What holds between any two steps of the tasks of gateway/server.rs.
use iog.Prelude.{ℕ, ◌≡◌, Bool, true, false, Option, none, some, nat_eq}
use iog.Map
use iog.SessionStore.{has_session}
use iog.Server.{SocketAddr, addr_key, ClientSession}
use iog.Server.Life.{
  Point, Task, Lives, marking, saving, inserting, serving, collecting, dropping, forgetting,
  restoring, checking, idling,
}

-- Between inserting its session and forgetting it.
abbrev pub is_registered : Point → Bool
is_registered marking = false
is_registered saving = false
is_registered inserting = false
is_registered serving = true
is_registered collecting = true
is_registered (dropping ids) = true
is_registered forgetting = true
is_registered restoring = false
is_registered checking = false
is_registered idling = false

-- Between saving its session and restoring it.
abbrev pub is_saved : Point → Bool
is_saved marking = false
is_saved saving = false
is_saved inserting = true
is_saved serving = true
is_saved collecting = true
is_saved (dropping ids) = true
is_saved forgetting = true
is_saved restoring = true
is_saved checking = false
is_saved idling = false

abbrev pub saved : Option Task → Bool
saved none = false
saved (some t) = is_saved t.point

-- The task of a session of an address, up to where it forgets the session.
pub record Serves (addr : SocketAddr) (o : Option Task) : Type 0 where
  pub task : Task
  pub there : o ≡ some task
  pub same : task.addr ≡ addr
  pub registered : is_registered task.point ≡ true

-- Every registered session stands under its address and has a task that will forget it, and the
-- store has an entry for exactly the tasks that are between saving and restoring.
pub record IsKept {W : Type 0} (x : Lives W) : Type 0 where
  pub served :
      (addr : SocketAddr) (c : ClientSession)
      → Map.get x.server.client_sessions addr ≡ some c
      → (c.addr ≡ addr) × Serves addr (Map.get x.tasks c.session_id)
  pub stored : (id : ℕ) → has_session x.server.session_store id ≡ saved (Map.get x.tasks id)
