-- ===== src/Tests/History.antt =====
-- The theorems on histories: a server from its start, and a connection from its first read to
-- its end.
use iog.Prelude.{ℕ, ◌≡◌, refl, true, false, none, some, List, Option, [], ◌∷◌, ◌++◌, arith, nat_eq}
use iog.Bytes.{to_le_bytes}
use iog.Map
use iog.Statistics.{pos}
use iog.Packet
use iog.Packet.{to_bytes, regular}
use iog.Gateway
use iog.Gateway.Send.{send_gw_packet}
use iog.Client.Exchange.{gateway_exchange}
use iog.Client.{GatewayClient}
use iog.Server.{GatewayServer}
use iog.Server.App
use iog.Server.App.{app_exchange}
use iog.Relay.Pipe.{feed_all}
use iog.Client.App as ClientApp
use iog.Server.Exchange.{client_exchange}
use iog.Server.Links.{cleanup_client}
use iog.Relay.Stream.{app_exchange-gateway_exchange, app_exchange-client_exchange}
use iog.Relay.Stream.Reception.{Shows}
use iog.Tests.{summing, writing, writing_laws, reading, reading_laws, counting, counting_laws}
use iog.Tests.Sides.{server, client, link, pending, home, delivered}

-- The server's application sends one chunk and ends; `sent` is what the client gets.
abbrev reads : List (Option (List ℕ))
reads = some (65 ∷ 66 ∷ []) ∷ some [] ∷ []

abbrev sent : List ℕ
sent = delivered ++ to_bytes (Packet.new Packet.close 2 1 0)

app_exchange-gateway_exchange_example :
    let t = app_exchange server pending reads in
    let pipe = feed_all (record { bytes = []; is_open = true }) reads in
    (t.0 ≡ pipe.is_open)
    × (t.0 ≡ false → Map.get t.1.base.links 1 ≡ none)
    × (c : GatewayClient (List ℕ)) × (gateway_exchange (λ n. pos n) (λ n. none) 4 client sent 0
        ≡ some c)
    × Shows writing_laws pipe c.base 1 0
unfolding app_exchange App.app_round App.app_end Gateway.new to_bytes Map.get send_gw_packet
    to_le_bytes
app_exchange-gateway_exchange_example =
    app_exchange-gateway_exchange writing_laws reading_laws counting_laws (λ w d. refl) (λ n. pos n)
      (λ n. none) 0 0 server pending reads [] sent client sent link sent 4 (omega arith)
      (omega arith, (omega arith, tt)) refl refl refl refl refl refl refl (omega arith)

app_exchange-client_exchange_example :
    let t = ClientApp.app_exchange client 0 1 0 reads in
    let pipe = feed_all (record { bytes = []; is_open = true }) reads in
    (t.0 ≡ pipe.is_open)
    × (t.0 ≡ false → Map.get t.1.base.links 1 ≡ none)
    × (s : GatewayServer (List ℕ)) × (client_exchange 4 server sent 0 home 77
        ≡ some (cleanup_client s home 77))
    × Shows writing_laws pipe s.base 1 0
unfolding ClientApp.app_exchange ClientApp.app_round ClientApp.app_end Gateway.new to_bytes Map.get
    send_gw_packet to_le_bytes
app_exchange-client_exchange_example =
    app_exchange-client_exchange writing_laws reading_laws counting_laws (λ w d. refl) 0 0 0 0 home
      77 client 1 reads [] sent server sent link sent 4 (omega arith)
      (omega arith, (omega arith, tt)) refl refl refl refl refl refl refl (omega arith)
