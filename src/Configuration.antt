-- ===== src/Configuration.antt =====
-- configuration.rs and consts.rs: the settings, the operating mode and their validation. A string
-- is the list of its UTF-8 bytes.
pub mod Validate
use Prim.Native.String.{String}
use Prim.Native.Char.{code}
use iog.Prelude.{
  ℕ, ◌+◌, Bool, true, false, ◌&&◌, Option, none, some, List, [], ◌∷◌, map, if◌then◌else◌, ◌==◌, ltb,
  leb,
}

pub data AppMode : Type 0 where
  undefined client server : AppMode

pub record GeneralSettings : Type 0 where
  pub mode : List ℕ
  pub key : List ℕ

pub record NetworkSettings : Type 0 where
  pub port_gw : ℕ
  pub port_app : ℕ
  pub host_app : List ℕ
  pub host_gw : List ℕ
  pub port_metrics : ℕ

pub record Configuration : Type 0 where
  pub general : GeneralSettings
  pub network : NetworkSettings

-- The bytes of an ASCII text.
abbrev pub codes : String → List ℕ
codes String.[] = []
codes (String.◌∷◌ c s) = code c ∷ codes s

unfoldable pub to_ascii_lowercase : ℕ → ℕ
to_ascii_lowercase b = if leb b'A' b && leb b b'Z' then b + 32 else b

unfoldable pub bytes_eq : List ℕ → List ℕ → Bool
bytes_eq [] [] = true
bytes_eq [] (y ∷ ys) = false
bytes_eq (x ∷ xs) [] = false
bytes_eq (x ∷ xs) (y ∷ ys) = x == y && bytes_eq xs ys

-- `AppMode::from(&str)`
unfoldable pub app_mode_from : List ℕ → AppMode
app_mode_from s =
    let lower = map to_ascii_lowercase s in
    if bytes_eq lower (codes "client")
    then client
    else if bytes_eq lower (codes "server")
    then server
    else undefined

unfoldable pub app_mode : Configuration → AppMode
unfolding app_mode_from
app_mode c = app_mode_from c.general.mode

unfoldable pub metrics_port : Configuration → Option ℕ
metrics_port c = if ltb 0 c.network.port_metrics then some c.network.port_metrics else none

-- The messages of `validate`, by what they complain of.
pub data Problem : Type 0 where
  client_port_gw client_port_app client_host_app client_host_gw : Problem
  server_port_app bad_mode : Problem

-- `Result<(), String>`
pub data Verdict : Type 0 where
  ok : Verdict
  err : Problem → Verdict

abbrev is_empty : List ℕ → Bool
is_empty [] = true
is_empty (x ∷ xs) = false

abbrev validate_mode : NetworkSettings → AppMode → Verdict
validate_mode n client =
    if n.port_gw == 0
    then err client_port_gw
    else if n.port_app == 0
    then err client_port_app
    else if is_empty n.host_app
    then err client_host_app
    else if is_empty n.host_gw
    then err client_host_gw
    else ok
validate_mode n server = if n.port_app == 0 then err server_port_app else ok
validate_mode n undefined = err bad_mode

unfoldable pub validate : Configuration → Verdict
validate c = validate_mode c.network (app_mode c)
