-- ===== src/Tests/Shared.antt =====
-- The theorems on connections that share a stream: two of them, with a ping in between.
use iog.Prelude.{
  ℕ, ◌≡◌, refl, not, true, none, some, List, [], ◌∷◌, ◌++◌, arith, contains, inl, inr, nat_eq,
}
use iog.Bytes.{to_le_bytes}
use iog.Map
use iog.Statistics.{pos}
use iog.Packet
use iog.Packet.{to_bytes, regular}
use iog.Gateway
use iog.Gateway.{Gateway}
use iog.Gateway.Apart.{IsApart}
use iog.Gateway.Loops.{loop_round, after_round}
use iog.Gateway.Send.{send_gw_packet, send_pong}
use iog.Relay.Pipe.{feed_all}
use iog.Relay.Stream.Reception.{Shows}
use iog.Relay.Mux.{traffic-gateway_exchange, traffic-client_exchange}
use iog.Relay.Mux.Writer.{all_reads, acts}
use iog.Relay.Mux.FromServer
use iog.Relay.Mux.FromClient
use iog.Server.{GatewayServer}
use iog.Server.App
use iog.Server.App.{Pending}
use iog.Server.Exchange
use iog.Server.Exchange.{client_exchange}
use iog.Server.Links.{cleanup_client}
use iog.Server.Traffic
use iog.Client.{GatewayClient}
use iog.Client.App as ClientApp
use iog.Client.Connection.{ping_tick}
use iog.Client.Exchange.{gateway_exchange}
use iog.Client.Traffic as ClientTraffic
use iog.Tests.{
  summing, writing, writing_laws, reading, reading_laws, counting, counting_laws, gateway,
}
use iog.Tests.Sides.{server, client, link, pending, home}

-- Links 1 and 2, at places 0 and 1, on both sides.
abbrev both : Gateway (List ℕ)
both = record gateway {
  links = (2, 1) ∷ (1, 0) ∷ [];
  heap = link ∷ record link { connection_id = 2 } ∷ [];
}

abbrev one_side : GatewayServer (List ℕ)
one_side = record server { base = both }

abbrev other_side : GatewayClient (List ℕ)
other_side = record client { base = both }

both-Shows : Shows writing_laws (record { bytes = []; is_open = true }) both 1 0
unfolding Map.get
both-Shows = record {
  link = link;
  there = refl;
  bytes = refl;
  if_open = λ h. (refl, refl);
  if_closed = λ h. cc;
}

both-IsApart : IsApart both 1 0
unfolding Map.get
both-IsApart = record { used = omega arith; alone = λ other h e. ground arith }

-- A chunk of each, a ping between, and the ends of both.
abbrev neighbour : Pending
neighbour = record { ref = 1; link_id = 2; client_writer = 0 }

abbrev steps : List Traffic.Act
steps =
    Traffic.reads pending (some (65 ∷ 66 ∷ []))
    ∷ Traffic.reads neighbour (some (9 ∷ []))
    ∷ Traffic.answers 0
    ∷ Traffic.reads pending (some [])
    ∷ Traffic.reads neighbour none
    ∷ []

abbrev carried : List ℕ
carried =
    to_bytes (Packet.new regular 1 1 2)
    ++ (65 ∷ 66 ∷ [])
    ++ to_bytes (Packet.new regular 2 2 1)
    ++ (9 ∷ [])
    ++ to_bytes (Packet.new Packet.pong 3 0 0)
    ++ to_bytes (Packet.new Packet.close 4 1 0)
    ++ to_bytes (Packet.new Packet.close 5 2 0)

traffic-gateway_exchange_example :
    let t = acts Traffic.act ([], one_side) steps in
    let pipe =
      feed_all
        (record { bytes = []; is_open = true })
        (all_reads (FromServer.reads_of pending) steps) in
    (not (contains t.0 0) ≡ pipe.is_open)
    × (c : GatewayClient (List ℕ)) × (gateway_exchange
          (λ n. pos n)
          (λ n. none)
          6
          other_side
          carried
          0
        ≡ some c)
    × Shows writing_laws pipe c.base 1 0
unfolding Traffic.act loop_round after_round App.app_round App.app_end Exchange.pong_to send_pong
    Map.get Gateway.new to_bytes send_gw_packet to_le_bytes
traffic-gateway_exchange_example =
    traffic-gateway_exchange writing_laws reading_laws counting_laws (λ w d. refl) (λ n. pos n)
      (λ n. none) 0 0 one_side pending steps [] carried other_side carried [] carried 6
      (
        (inl refl, omega arith, omega arith),
        (
          (inr (omega arith, omega arith), omega arith, omega arith),
          (
            tt,
            (
              (inl refl, omega arith, omega arith),
              ((inr (omega arith, omega arith), omega arith, tt), tt),
            ),
          ),
        ),
      )
      refl refl refl refl both-Shows both-IsApart (omega arith)

-- The same on the other side, with a ping of the ping loop.
abbrev own_loop : ClientTraffic.Loop
own_loop = record { ref = 0; link_id = 1; writer = 0 }

abbrev other_loop : ClientTraffic.Loop
other_loop = record { ref = 1; link_id = 2; writer = 0 }

abbrev client_steps : List (ClientTraffic.Act (List ℕ))
client_steps =
    ClientTraffic.reads own_loop (some (65 ∷ 66 ∷ []))
    ∷ ClientTraffic.reads other_loop (some (9 ∷ []))
    ∷ ClientTraffic.pings 0 (pos 3)
    ∷ ClientTraffic.reads own_loop (some [])
    ∷ ClientTraffic.reads other_loop none
    ∷ []

abbrev brought : List ℕ
brought =
    to_bytes (Packet.new regular 1 1 2)
    ++ (65 ∷ 66 ∷ [])
    ++ to_bytes (Packet.new regular 2 2 1)
    ++ (9 ∷ [])
    ++ to_bytes (Packet.new Packet.ping 3 0 0)
    ++ to_bytes (Packet.new Packet.close 4 1 0)
    ++ to_bytes (Packet.new Packet.close 5 2 0)

traffic-client_exchange_example :
    let t = acts ClientTraffic.act ([], other_side) client_steps in
    let pipe =
      feed_all
        (record { bytes = []; is_open = true })
        (all_reads (FromClient.reads_of own_loop) client_steps) in
    (not (contains t.0 0) ≡ pipe.is_open)
    × (s : GatewayServer (List ℕ)) × (client_exchange 6 one_side brought 0 home 77
        ≡ some (cleanup_client s home 77))
    × Shows writing_laws pipe s.base 1 0
unfolding ClientTraffic.act loop_round after_round ClientApp.app_round ClientApp.app_end ping_tick
    Gateway.new to_bytes send_gw_packet to_le_bytes
traffic-client_exchange_example =
    traffic-client_exchange writing_laws reading_laws counting_laws (λ w d. refl) 0 0 home 77
      other_side own_loop client_steps [] brought one_side brought [] brought 6
      (
        (inl refl, omega arith, omega arith),
        (
          (inr (omega arith, omega arith), omega arith, omega arith),
          (
            tt,
            (
              (inl refl, omega arith, omega arith),
              ((inr (omega arith, omega arith), omega arith, tt), tt),
            ),
          ),
        ),
      )
      refl refl refl refl both-Shows both-IsApart (omega arith)
