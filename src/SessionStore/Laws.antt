-- ===== src/SessionStore/Laws.antt =====
-- A session is restored once.
use iog.Prelude.{ℕ, ◌≡◌, ◌≢◌, true, false, none, some, List, arith, nat_eq}
use iog.Map
use iog.SessionStore.{SessionStore, save_session, restore_session, has_session}

-- A saved session is restored with its links and is gone after that: a second restore fails. What
-- a restore of another session gives is the same before, between and after.
pub restore_session-save_session :
    (s : SessionStore) (session_id other : ℕ) (links : List (ℕ × ℕ))
    → other ≢ session_id
    → let saved = save_session s session_id links in
      let restored = (restore_session saved session_id).1 in
      (has_session saved session_id ≡ true)
      × ((restore_session saved session_id).0 ≡ some links)
      × ((restore_session restored session_id).0 ≡ none)
      × (has_session restored session_id ≡ false)
      × ((restore_session saved other).0 ≡ (restore_session s other).0)
      × ((restore_session restored other).0 ≡ (restore_session s other).0)
unfolding save_session restore_session has_session Map.contains_key
restore_session-save_session s session_id other links h =
    let m = Map.insert s.sessions session_id links in
    ground (
      arith,
      Map.get-insert s.sessions session_id links session_id,
      Map.get-insert s.sessions session_id links other,
      Map.get-remove m session_id session_id,
      Map.get-remove m session_id other,
    )
