-- ===== src/Relay/Stream/Client.antt =====
-- The loops of gateway/client.rs as the ends of a connection.
use iog.Prelude.{
  ℕ, zero, suc, ◌≡◌, refl, ◌∙◌, true, Option, Option-cases, inl, inr, none, some, List, [], ◌∷◌,
  arith, get_elem?, modify_at, nat_eq,
}
use iog.Map
use iog.Transport.{WriteHalf, ReadHalf, ReadLaws}
use iog.Statistics.{Timestamp}
use iog.Packet
use iog.Packet.{PacketGw, regular, close}
use iog.Compression.{Zstd}
use iog.Link
use iog.Link.{Link}
use iog.Gateway
use iog.Gateway.{Gateway, with_link, next_packet_id}
use iog.Gateway.Drop.{drop_link}
use iog.Gateway.Send.{send_gw_packet}
use iog.Gateway.Receive.{read_gw_packet}
use iog.Gateway.Frame.{read_gw_packet-SameLinks}
use iog.Relay.Arrival.{Arrives}
use iog.Relay.Data.{data_packet, close_packet}
use iog.Relay.Upstream.{send_to-send, app_round-send}
use iog.Relay.Stream.Receiver.{
  LinkAt, LinkGone, drop_link-LinkGone, read_gw_packet-LinkAt, read_gw_packet_end, Receiver, loop,
}
use iog.Relay.Stream.Sender.{Sender}
use iog.Client.{GatewayClient, send_control}
use iog.Client.Exchange.{dispatch, forward_to_app, round, gateway_exchange}
use iog.Client.App.{app_round, app_end, app_exchange}

module _ {W : Type 0} ⦃io : WriteHalf W⦄ ⦃z : Zstd⦄ where
  forward_to_app-LinkAt :
      (c : GatewayClient W) (id ref : ℕ) (l : Link W) (d : List ℕ)
      → LinkAt c.base id ref l
      → LinkAt (forward_to_app c id d).base id ref (Link.send_packet l (some d))
  unfolding forward_to_app with_link
  forward_to_app-LinkAt c id ref l d at = record {
    known = rw (at.known, forward_to_app) at.known;
    there =
        rw (at.known, forward_to_app)
          (modify_at c.base.heap ref (λ x. Link.send_packet x (some d)) l at.there);
  }

module _ {W R : Type 0} ⦃io : WriteHalf W⦄ ⦃ir : ReadHalf R⦄ ⦃z : Zstd⦄ (reads : ReadLaws R ir)
    (now : ℕ → Timestamp) (streams : ℕ → Option W) (writer : ℕ) where
  unfoldable pub turn : ℕ → GatewayClient W → R → Option R × GatewayClient W
  turn n c r = round c r writer (now n) (streams n)

  -- The client once a packet has been read.
  abbrev pub after_read : GatewayClient W → R → GatewayClient W
  after_read c r = record c { base = (read_gw_packet c.base r).2 }

  pub turn_data :
      (n : ℕ) (c : GatewayClient W) (r : R) (ref : ℕ) (l : Link W) (p : PacketGw) (b : ℕ)
      (bs rest : List ℕ)
      → LinkAt c.base p.link_id ref l
      → p.packet_type ≡ regular
      → Arrives reads c.base r p (some (b ∷ bs)) rest
      → (r' : R) × (c' : GatewayClient W) × (turn n c r ≡ (some r', c'))
        × (reads.pending r' ≡ rest)
        × LinkAt c'.base p.link_id ref (Link.send_packet l (some (b ∷ bs)))
  unfolding turn dispatch round
  turn_data n c r ref l p b bs rest at t (q, got, same_type, same_link, left) = (
    (read_gw_packet c.base r).1,
    forward_to_app (after_read c r) p.link_id (b ∷ bs),
    rw (got, round, same_type, t, same_link) refl,
    left,
    forward_to_app-LinkAt (after_read c r) p.link_id ref l (b ∷ bs)
        (read_gw_packet-LinkAt c.base r p.link_id ref l at),
  )

  pub turn_close :
      (n : ℕ) (c : GatewayClient W) (r : R) (ref : ℕ) (l : Link W) (p : PacketGw) (rest : List ℕ)
      → LinkAt c.base p.link_id ref l
      → p.packet_type ≡ close
      → Arrives reads c.base r p none rest
      → (r' : R) × (c' : GatewayClient W) × (turn n c r ≡ (some r', c'))
        × (reads.pending r' ≡ rest)
        × LinkGone c'.base p.link_id ref (Link.close_connection l)
  unfolding turn dispatch round
  turn_close n c r ref l p rest at t (q, got, same_type, same_link, left) = (
    (read_gw_packet c.base r).1,
    record (after_read c r) { base = drop_link (after_read c r).base p.link_id },
    rw (got, round, same_type, t, same_link) refl,
    left,
    drop_link-LinkGone (after_read c r).base p.link_id ref l
        (read_gw_packet-LinkAt c.base r p.link_id ref l at),
  )

  pub turn_end :
      (n : ℕ) (c : GatewayClient W) (r : R)
      → reads.pending r ≡ []
      → (c' : GatewayClient W) × (turn n c r ≡ (none, c'))
        × (c'.base.links ≡ c.base.links)
        × (c'.base.heap ≡ c.base.heap)
  unfolding turn round
  turn_end n c r e =
      let (links, heap) = read_gw_packet-SameLinks c.base r in
      (after_read c r, rw (read_gw_packet_end reads c.base r e, round) refl, links, heap)

  unfoldable pub receiver : Receiver W reads (GatewayClient W)
  receiver = record {
    base = λ c. c.base;
    turn = turn;
    on_data = turn_data;
    on_close = turn_close;
    on_end = turn_end;
  }

  -- The exchange loop is the receiver's.
  pub gateway_exchange-loop :
      (fuel : ℕ) (c : GatewayClient W) (r : R)
      → gateway_exchange now streams fuel c r writer ≡ loop receiver.turn fuel c r
  unfolding gateway_exchange receiver turn
  gateway_exchange-loop zero c r = refl
  gateway_exchange-loop (suc fuel) c r =
      elim (Option-cases (round c r writer (now fuel) (streams fuel)).0) [
        | inl e ↦ rw (e, gateway_exchange, loop) refl
        | inr (r', e) ↦
            rw (e, gateway_exchange, loop)
              (gateway_exchange-loop fuel (round c r writer (now fuel) (streams fuel)).1 r')
      ]

module _ {W : Type 0} ⦃io : WriteHalf W⦄ ⦃z : Zstd⦄ (ref link_id writer : ℕ) where
  pub app_exchange_read :
      (c : GatewayClient W) (w : W) (b : ℕ) (bs : List ℕ) (xs : List (Option (List ℕ)))
      → get_elem? c.writers writer ≡ some w
      → (g : Gateway W) × (let sent =
            send_gw_packet
              (next_packet_id g).1
              w
              (data_packet g link_id (b ∷ bs))
              (some (b ∷ bs)) in
          sent.0 ≡ true
          → (c' : GatewayClient W) × (app_exchange c ref link_id writer (some (b ∷ bs) ∷ xs)
              ≡ app_exchange c' ref link_id writer xs)
            × (get_elem? c'.writers writer ≡ some sent.1))
  unfolding app_exchange
  app_exchange_read c w b bs xs at =
      let (same, moved) = app_round-send c ref link_id writer w b bs at in
      (
        c.base,
        λ ok. (
          (app_round c ref link_id writer (some (b ∷ bs))).1,
          rw (same ∙ ok, app_exchange) refl,
          moved,
        ),
      )

  pub app_end_sends :
      (c : GatewayClient W) (w : W)
      → get_elem? c.writers writer ≡ some w
      → (g : Gateway W) × (get_elem? (app_end c link_id writer).writers writer
          ≡ some
              (send_gw_packet
                (next_packet_id g).1
                w
                (close_packet (next_packet_id g).0 link_id)
                none).1)
  unfolding app_end send_control close_packet
  app_end_sends c w at = (
    c.base,
    (send_to-send (record c { base = (next_packet_id c.base).1 }) writer w
        (close_packet (next_packet_id c.base).0 link_id) none at).1,
  )

  pub app_end_gone :
      (c : GatewayClient W) → Map.get (app_end c link_id writer).base.links link_id ≡ none
  unfolding app_end Gateway.remove_link
  app_end_gone c =
      let sent = (send_control c writer (λ id. Packet.new Packet.close id link_id 0)).1 in
      ground (arith, Map.get-remove sent.base.links link_id link_id)

  unfoldable pub sender : Sender W (GatewayClient W) link_id
  unfolding app_exchange app_round
  sender = record {
    exchange = λ c xs. app_exchange c ref link_id writer xs;
    writer = λ c. get_elem? c.writers writer;
    links = λ c. c.base.links;
    finish = λ c. app_end c link_id writer;
    on_nothing = λ c. refl;
    on_error = λ c xs. refl;
    on_end = λ c xs. refl;
    on_read = app_exchange_read;
    on_finish = app_end_sends;
    finish_gone = app_end_gone;
  }
