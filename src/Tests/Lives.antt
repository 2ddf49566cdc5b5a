-- ===== src/Tests/Lives.antt =====
-- The theorems on the client's life and its identifier, on a file system of one file and on
-- servers that are down, refuse, and accept.
use iog.Prelude.{
  ℕ, zero, suc, ◌*◌, ◌/◌, ◌<◌, ◌^◌, ◌≡◌, ◌≢◌, refl, Bool, true, false, ◌&&◌, Option, none, some,
  List, [], ◌∷◌, arith, if◌then◌else◌, ◌==◌, ltb, length, replicate, length-replicate, All,
}
use iog.Statistics.{pos, processing, connected}
use iog.Packet.{packet_header_size}
use iog.SessionStore.File.{
  Files, FilesLaws, Uuid, UuidLaws, is_hyphenated, persist_session_id, load_session_id,
  restore_or_create, restore_or_create_again,
}
use iog.Configuration.{Problem, client, server, codes, app_mode, metrics_port}
use iog.Configuration.Validate.{Complete, Spells}
use iog.Program.{Outcome, invalid, undefined_mode, runs_client, runs_server, main, port_or_default}
use iog.Program.Start.{main_starts}
use iog.Server
use iog.Gateway
use iog.Client
use iog.Client.{GatewayClient}
use iog.Client.Handshake.{gw_authenticate}
use iog.Client.Connection.{on_connection}
use iog.Client.Lifecycle.{Reached, run}
use iog.Client.Lifecycle.Idle.{IsIdle, run-on_connection}
use iog.Tests.Wire.{from_server}
use iog.Tests.{summing, writing, reading, reading_laws, counting, gateway}

-- A file system with one file, which every path names.
instance abbrev disk : Files (Option (List ℕ))
disk = record { write = λ f path text. (true, some text); read_to_string = λ f path. f }

abbrev disk_laws : FilesLaws (Option (List ℕ)) disk
disk_laws = record { read-write = λ f path text ok. refl }

abbrev empty : Option (List ℕ)
empty = none

-- Identifiers written as so many zeros.
abbrev is_tally : List ℕ → Bool
is_tally [] = true
is_tally (c ∷ s) = c == b'0' && is_tally s

abbrev parse_tally : List ℕ → Option ℕ
parse_tally s = if is_tally s && ltb (length s) (2 ^ 128) then some (length s) else none

instance abbrev tally : Uuid
tally = record { to_string = λ id. replicate id b'0'; parse_str = parse_tally }

replicate-is_tally : (n : ℕ) → is_tally (replicate n b'0') ≡ true
replicate-is_tally zero = refl
replicate-is_tally (suc n) = replicate-is_tally n

replicate_hyphenated : (n : ℕ) → All (λ c. is_hyphenated c ≡ true) (replicate n b'0')
replicate_hyphenated zero = tt
replicate_hyphenated (suc n) = (refl, replicate_hyphenated n)

parse_tally-replicate : (id : ℕ) → id < 2 ^ 128 → parse_tally (replicate id b'0') ≡ some id
parse_tally-replicate id h = ground (arith, replicate-is_tally id, length-replicate {A = ℕ} id b'0')

parse_tally_lt : (s : List ℕ) (id : ℕ) → parse_tally s ≡ some id → id < 2 ^ 128
parse_tally_lt s id e = ground arith

abbrev tally_laws : UuidLaws tally
tally_laws = record {
  parse_str-to_string = parse_tally-replicate;
  parse_str_lt = parse_tally_lt;
  to_string_hyphenated = replicate_hyphenated;
}

restore_or_create_again_example : (restore_or_create (restore_or_create empty 5).2 9).0 ≡ 5
unfolding restore_or_create persist_session_id load_session_id
restore_or_create_again_example =
    restore_or_create_again disk_laws tally_laws empty 5 9 (omega arith) refl

-- A server that sends nothing.
abbrev silent : Reached (List ℕ) (List ℕ)
silent = record { reader = []; writer = []; now = pos 1; times = λ n. pos n; streams = λ n. none }

-- Fuel for a stream: a round for each 16 bytes, and one more.
abbrev budget : List ℕ → ℕ
budget r = suc (length r / 16)

budget_enough : (r : List ℕ) → length r < packet_header_size * budget r
budget_enough r = omega arith

-- After a failed attempt, a server that hangs up, one that accepts and one more failed attempt, a
-- server that accepts.
abbrev accepting : Reached (List ℕ) (List ℕ)
accepting = record silent { reader = from_server }

abbrev attempts : List (Option (Reached (List ℕ) (List ℕ)))
attempts = none ∷ some silent ∷ some accepting ∷ none ∷ []

run-on_connection_example :
    (t : GatewayClient (List ℕ)) × (run budget
        (Client.new gateway.config (pos 0) gateway.metrics gateway.pool)
        attempts
      ≡ some t)
    × IsIdle t
    × (let accepted = (gw_authenticate (Gateway.set_state t.base processing) from_server []).0 in
        let (confirmed, r, u) = on_connection t from_server [] (pos 9) in
        (u.base.links ≡ [])
        × (accepted ≡ true
            → (confirmed ≡ some (length t.writers))
              × (u.gw_writer ≡ some (length t.writers))
              × (u.gw_reader ≡ some (length t.writers))
              × (u.base.state ≡ connected))
        × (accepted ≡ false → (confirmed ≡ none) × (u.gw_writer ≡ none) × (u.gw_reader ≡ none)))
run-on_connection_example =
    run-on_connection reading_laws budget budget_enough gateway.config (pos 0) gateway.metrics
      gateway.pool attempts from_server [] (pos 9)

abbrev started : Outcome (List ℕ)
started = main (pos 0) gateway.metrics gateway.pool (some gateway.config)

main_starts_example :
    let port = port_or_default (metrics_port gateway.config) in
    (Spells gateway.config.general.mode (codes "client")
      → Complete gateway.config.network client
      → started ≡ runs_client port (Client.new gateway.config (pos 0) gateway.metrics gateway.pool))
    × (Spells gateway.config.general.mode (codes "server")
        → Complete gateway.config.network server
        → started
          ≡ runs_server port (Server.new gateway.config (pos 0) gateway.metrics gateway.pool))
    × ((¬ Complete gateway.config.network (app_mode gateway.config))
        → (p : Problem) × (started ≡ invalid p))
    × (started ≢ undefined_mode)
    × (0 < port)
main_starts_example = main_starts (pos 0) gateway.metrics gateway.pool gateway.config
