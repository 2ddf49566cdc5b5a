-- ===== src/Relay/Stream/Server.antt =====
-- The loops of gateway/server.rs as the ends of a connection.
use mathlib.Core.Option
use iog.Prelude.{
  ℕ, zero, suc, ◌≡◌, refl, ap, ◌∙◌, true, Option, Option-cases, inl, inr, none, some, List, [], ◌∷◌,
  arith, get_elem?, modify_at, nat_eq,
}
use iog.Map
use iog.Transport.{WriteHalf, ReadHalf, ReadLaws}
use iog.Packet
use iog.Packet.{PacketGw, regular, close}
use iog.Compression.{Zstd}
use iog.Link
use iog.Link.{Link}
use iog.Gateway.{Gateway, with_link, next_packet_id}
use iog.Gateway.Drop.{drop_link-links}
use iog.Gateway.Send.{send_gw_packet}
use iog.Gateway.Receive.{read_gw_packet}
use iog.Gateway.Frame.{read_gw_packet-SameLinks}
use iog.Relay.Arrival.{Arrives}
use iog.Relay.Data.{data_packet, close_packet}
use iog.Relay.Downstream.{send_to-send, app_round-send}
use iog.Relay.Stream.Receiver.{
  LinkAt, LinkGone, drop_link-LinkGone, read_gw_packet-LinkAt, read_gw_packet_end, Receiver, loop,
}
use iog.Relay.Stream.Sender.{Sender}
use iog.Server.{SocketAddr, GatewayServer}
use iog.Server.Exchange.{on_link, dispatch, round, client_exchange}
use iog.Server.Links.{remove_link, cleanup_client}
use iog.Server.App.{Pending, send_control, app_round, app_end, app_exchange}

module _ {W : Type 0} ⦃io : WriteHalf W⦄ ⦃z : Zstd⦄ where
  on_link-LinkAt :
      (s : GatewayServer W) (id ref : ℕ) (l : Link W) (f : Link W → Link W)
      → LinkAt s.base id ref l
      → LinkAt (on_link s id f).base id ref (f l)
  unfolding on_link with_link
  on_link-LinkAt s id ref l f at = record {
    known = rw (at.known, on_link) at.known;
    there = rw (at.known, on_link) (modify_at s.base.heap ref f l at.there);
  }

module _ {W R : Type 0} ⦃io : WriteHalf W⦄ ⦃ir : ReadHalf R⦄ ⦃z : Zstd⦄ (reads : ReadLaws R ir)
    (writer : ℕ) where
  -- The server once a packet has been read.
  abbrev pub after_read : GatewayServer W → R → GatewayServer W
  after_read s r = record s { base = (read_gw_packet s.base r).2 }

  pub round_data :
      (n : ℕ) (s : GatewayServer W) (r : R) (ref : ℕ) (l : Link W) (p : PacketGw) (b : ℕ)
      (bs rest : List ℕ)
      → LinkAt s.base p.link_id ref l
      → p.packet_type ≡ regular
      → Arrives reads s.base r p (some (b ∷ bs)) rest
      → (r' : R) × (t : GatewayServer W) × (round s r writer ≡ (some r', t))
        × (reads.pending r' ≡ rest)
        × LinkAt t.base p.link_id ref (Link.send_packet l (some (b ∷ bs)))
  unfolding dispatch round
  round_data n s r ref l p b bs rest at t (q, got, same_type, same_link, left) = (
    (read_gw_packet s.base r).1,
    on_link (after_read s r) p.link_id (λ x. Link.send_packet x (some (b ∷ bs))),
    rw (got, round, same_type, t, same_link) refl,
    left,
    on_link-LinkAt (after_read s r) p.link_id ref l (λ x. Link.send_packet x (some (b ∷ bs)))
        (read_gw_packet-LinkAt s.base r p.link_id ref l at),
  )

  pub round_close :
      (n : ℕ) (s : GatewayServer W) (r : R) (ref : ℕ) (l : Link W) (p : PacketGw) (rest : List ℕ)
      → LinkAt s.base p.link_id ref l
      → p.packet_type ≡ close
      → Arrives reads s.base r p none rest
      → (r' : R) × (t : GatewayServer W) × (round s r writer ≡ (some r', t))
        × (reads.pending r' ≡ rest)
        × LinkGone t.base p.link_id ref (Link.close_connection l)
  unfolding dispatch round remove_link
  round_close n s r ref l p rest at t (q, got, same_type, same_link, left) = (
    (read_gw_packet s.base r).1,
    remove_link (after_read s r) p.link_id,
    rw (got, round, same_type, t, same_link) refl,
    left,
    drop_link-LinkGone (after_read s r).base p.link_id ref l
        (read_gw_packet-LinkAt s.base r p.link_id ref l at),
  )

  pub round_end :
      (n : ℕ) (s : GatewayServer W) (r : R)
      → reads.pending r ≡ []
      → (t : GatewayServer W) × (round s r writer ≡ (none, t))
        × (t.base.links ≡ s.base.links)
        × (t.base.heap ≡ s.base.heap)
  unfolding round
  round_end n s r e =
      let (links, heap) = read_gw_packet-SameLinks s.base r in
      (after_read s r, rw (read_gw_packet_end reads s.base r e, round) refl, links, heap)

  unfoldable pub receiver : Receiver W reads (GatewayServer W)
  receiver = record {
    base = λ s. s.base;
    turn = λ n s r. round s r writer;
    on_data = round_data;
    on_close = round_close;
    on_end = round_end;
  }

  -- The exchange loop is the receiver's, and the clean-up of the session.
  pub client_exchange-loop :
      (fuel : ℕ) (s : GatewayServer W) (r : R) (addr : SocketAddr) (session_id : ℕ)
      → client_exchange fuel s r writer addr session_id
        ≡ Option.map (λ t. cleanup_client t addr session_id) (loop receiver.turn fuel s r)
  unfolding client_exchange receiver
  client_exchange-loop zero s r addr session_id = refl
  client_exchange-loop (suc fuel) s r addr session_id = elim (Option-cases (round s r writer).0) [
    | inl e ↦ rw (e, client_exchange, loop) refl
    | inr (r', e) ↦
        rw (e, client_exchange, loop)
          (client_exchange-loop fuel (round s r writer).1 r' addr session_id)
  ]

module _ {W : Type 0} ⦃io : WriteHalf W⦄ ⦃z : Zstd⦄ (p : Pending) where
  pub app_exchange_read :
      (s : GatewayServer W) (w : W) (b : ℕ) (bs : List ℕ) (xs : List (Option (List ℕ)))
      → get_elem? s.writers p.client_writer ≡ some w
      → (g : Gateway W) × (let sent =
            send_gw_packet
              (next_packet_id g).1
              w
              (data_packet g p.link_id (b ∷ bs))
              (some (b ∷ bs)) in
          sent.0 ≡ true
          → (t : GatewayServer W) × (app_exchange s p (some (b ∷ bs) ∷ xs) ≡ app_exchange t p xs)
            × (get_elem? t.writers p.client_writer ≡ some sent.1))
  unfolding app_exchange
  app_exchange_read s w b bs xs at =
      let (g, went) = app_round-send s p w b bs at in
      (g, λ ok. ((app_round s p (some (b ∷ bs))).1, rw (went.0 ∙ ok, app_exchange) refl, went.1))

  pub app_end_sends :
      (s : GatewayServer W) (w : W)
      → get_elem? s.writers p.client_writer ≡ some w
      → (g : Gateway W) × (get_elem? (app_end s p).writers p.client_writer
          ≡ some
              (send_gw_packet
                (next_packet_id g).1
                w
                (close_packet (next_packet_id g).0 p.link_id)
                none).1)
  unfolding app_end send_control remove_link close_packet
  app_end_sends s w at = (
    s.base,
    (send_to-send (record s { base = (next_packet_id s.base).1 }) p.client_writer w
        (close_packet (next_packet_id s.base).0 p.link_id) none at).1,
  )

  pub app_end_gone : (s : GatewayServer W) → Map.get (app_end s p).base.links p.link_id ≡ none
  unfolding app_end remove_link
  app_end_gone s =
      let t = send_control s p.client_writer (λ id. Packet.new Packet.close id p.link_id 0) in
      ap (λ m. Map.get m p.link_id) (drop_link-links t.base p.link_id)
      ∙ ground (arith, Map.get-remove t.base.links p.link_id p.link_id)

  unfoldable pub sender : Sender W (GatewayServer W) p.link_id
  unfolding app_exchange app_round
  sender = record {
    exchange = λ s xs. app_exchange s p xs;
    writer = λ s. get_elem? s.writers p.client_writer;
    links = λ s. s.base.links;
    finish = λ s. app_end s p;
    on_nothing = λ s. refl;
    on_error = λ s xs. refl;
    on_end = λ s xs. refl;
    on_read = app_exchange_read;
    on_finish = app_end_sends;
    finish_gone = app_end_gone;
  }
