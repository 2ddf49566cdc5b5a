-- ===== src/Configuration/Validate.antt =====
-- Which configurations `validate` accepts.
use iog.Prelude.{ℕ, ◌<◌, ◌≡◌, ◌≢◌, ◌↔◌, true, List, [], ◌∷◌, map, arith}
use iog.Configuration.{
  AppMode, undefined, client, server, Configuration, NetworkSettings, codes, to_ascii_lowercase,
  bytes_eq, app_mode_from, app_mode, ok, validate, validate_mode,
}

bytes_eq_iff : (xs ys : List ℕ) → (bytes_eq xs ys ≡ true) ↔ (xs ≡ ys)
unfolding bytes_eq
bytes_eq_iff [] [] = ground arith
bytes_eq_iff [] (y ∷ ys) = ground arith
bytes_eq_iff (x ∷ xs) [] = ground arith
bytes_eq_iff (x ∷ xs) (y ∷ ys) = ground (arith, bytes_eq_iff xs ys)

abbrev pub Spells : List ℕ → List ℕ → Type 0
Spells s word = map to_ascii_lowercase s ≡ word

-- The mode is chosen by the text with its ASCII capitals lowered: `client`, `server`, and
-- undefined for every other text.
pub app_mode_from_iff :
    (s : List ℕ)
    → ((app_mode_from s ≡ client) ↔ Spells s (codes "client"))
      × ((app_mode_from s ≡ server) ↔ Spells s (codes "server"))
unfolding app_mode_from
app_mode_from_iff s =
    let lower = map to_ascii_lowercase s in
    let is_client = bytes_eq_iff lower (codes "client") in
    let is_server = bytes_eq_iff lower (codes "server") in
    (ground (arith, is_client, is_server), ground (arith, is_client, is_server))

-- What each mode requires.
abbrev pub Complete : NetworkSettings → AppMode → Type 0
Complete n client = (0 < n.port_gw) × (0 < n.port_app) × (n.host_app ≢ []) × (n.host_gw ≢ [])
Complete n server = 0 < n.port_app
Complete n undefined = ⊥

validate_mode_iff : (n : NetworkSettings) (m : AppMode) → (validate_mode n m ≡ ok) ↔ Complete n m
validate_mode_iff n client = ground arith
validate_mode_iff n server = ground arith
validate_mode_iff n undefined = ground arith

-- `validate` accepts exactly the configurations whose mode is `client` with both ports and both
-- hosts set, or `server` with the application's port set.
pub validate_iff : (c : Configuration) → (validate c ≡ ok) ↔ Complete c.network (app_mode c)
unfolding validate
validate_iff c = validate_mode_iff c.network (app_mode c)
