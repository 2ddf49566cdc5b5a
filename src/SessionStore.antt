-- ===== src/SessionStore.antt =====
-- gateway/session_store.rs: the links kept for each session. A `Uuid` is its 128-bit number, a
-- `LinkRef` the place of the link in the gateway's store of links.
pub mod Laws
pub mod File
use iog.Prelude.{ℕ, Bool, true, false, Option, none, some, List, [], ◌∷◌, length, nat_eq}
use iog.Map

pub record SessionStore : Type 0 where
  pub sessions : List (ℕ × List (ℕ × ℕ))

unfoldable pub new : SessionStore
new = record { sessions = [] }

unfoldable pub save_session : SessionStore → ℕ → List (ℕ × ℕ) → SessionStore
save_session s session_id links = record { sessions = Map.insert s.sessions session_id links }

unfoldable pub restore_session : SessionStore → ℕ → Option (List (ℕ × ℕ)) × SessionStore
restore_session s session_id =
    (Map.get s.sessions session_id, record { sessions = Map.remove s.sessions session_id })

unfoldable pub has_session : SessionStore → ℕ → Bool
has_session s session_id = Map.contains_key s.sessions session_id

unfoldable pub remove_session : SessionStore → ℕ → SessionStore
remove_session s session_id = record { sessions = Map.remove s.sessions session_id }

unfoldable pub session_count : SessionStore → ℕ
session_count s = length s.sessions
