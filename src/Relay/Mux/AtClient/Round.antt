-- ===== src/Relay/Mux/AtClient/Round.antt =====
-- The exchange loop of gateway/client.rs as the reader of a shared stream.
use iog.Prelude.{ℕ, ◌≡◌, refl, ◌∙◌, Option, Option-cases, inl, inr, none, some, List, nat_eq}
use iog.Transport.{WriteHalf, ReadHalf, ReadLaws}
use iog.Statistics.{Timestamp}
use iog.Packet.{
  PacketGw, PacketType, regular, ping, pong, open_link, opened, open_fail, close, closed, gw_auth,
  gw_connected, gw_deny, protocol_version, gw_auth_challenge, gw_auth_response, session_restore,
}
use iog.Compression.{Zstd}
use iog.Gateway
use iog.Gateway.{Gateway, with_link, add_link, alloc, next_packet_id}
use iog.Gateway.Receive.{read_gw_packet}
use iog.Gateway.RoundTrip.{received}
use iog.Gateway.Frame.{read_gw_packet-SameLinks}
use iog.Gateway.Apart.{
  IsApart, Kept, Kept-refl, SameLinks-Kept, SameLinks-IsApart, drop_link-IsApart, drop_link-Kept,
}
use iog.Relay.Arrival.{Arrives}
use iog.Relay.Mux.Put.{PassesBy}
use iog.Relay.Mux.Reader.{Reader}
use iog.Relay.Stream.Client
use iog.Client.{GatewayClient}
use iog.Client.Exchange.{continues, dispatch, round}
use iog.Relay.Mux.AtClient.{
  pong_to-SameLinks, forward_to_app-IsApart, forward_to_app-Kept, connect_client-IsApart,
  connect_client-Kept,
}

module _ {W : Type 0} ⦃io : WriteHalf W⦄ ⦃z : Zstd⦄ (c : GatewayClient W) (id ref : ℕ)
    (a : IsApart c.base id ref) where
  dispatch-IsApart :
      (t : PacketType) (writer link_id : ℕ) (d : Option (List ℕ)) (now : Timestamp)
      (stream : Option W)
      → IsApart (dispatch t c writer link_id d now stream).1.base id ref
  unfolding dispatch Gateway.update_keepalive
  dispatch-IsApart ping writer link_id d now stream =
      SameLinks-IsApart c.base _ id ref (pong_to-SameLinks c writer) a
  dispatch-IsApart pong writer link_id d now stream = record { used = a.used; alone = a.alone }
  dispatch-IsApart regular writer link_id none now stream = a
  dispatch-IsApart regular writer link_id (some d) now stream =
      forward_to_app-IsApart c id ref a link_id d
  dispatch-IsApart open_link writer link_id d now stream =
      connect_client-IsApart c id ref a writer link_id stream
  dispatch-IsApart close writer link_id d now stream = drop_link-IsApart c.base id ref a link_id
  dispatch-IsApart opened writer link_id d now stream = a
  dispatch-IsApart open_fail writer link_id d now stream = a
  dispatch-IsApart closed writer link_id d now stream = a
  dispatch-IsApart gw_auth writer link_id d now stream = a
  dispatch-IsApart gw_connected writer link_id d now stream = a
  dispatch-IsApart gw_deny writer link_id d now stream = a
  dispatch-IsApart protocol_version writer link_id d now stream = a
  dispatch-IsApart gw_auth_challenge writer link_id d now stream = a
  dispatch-IsApart gw_auth_response writer link_id d now stream = a
  dispatch-IsApart session_restore writer link_id d now stream = a

  -- A packet that passes the link by leaves it, and the loop goes on.
  abbrev Passed : PacketType → ℕ → ℕ → Option (List ℕ) → Timestamp → Option W → Type 0
  Passed t writer link_id d now stream =
      let result = dispatch t c writer link_id d now stream in
      (result.0 ≡ continues) × Kept c.base result.1.base id ref

  dispatch-Passed :
      (t : PacketType) (writer link_id : ℕ) (d : Option (List ℕ)) (now : Timestamp)
      (stream : Option W)
      → PassesBy t link_id id
      → Passed t writer link_id d now stream
  unfolding dispatch Gateway.update_keepalive
  dispatch-Passed ping writer link_id d now stream h =
      (refl, SameLinks-Kept c.base _ id ref (pong_to-SameLinks c writer))
  dispatch-Passed pong writer link_id d now stream h = (refl, record { known = refl; there = refl })
  dispatch-Passed regular writer link_id none now stream h = (refl, Kept-refl c.base id ref)
  dispatch-Passed regular writer link_id (some d) now stream h =
      (refl, forward_to_app-Kept c id ref a link_id d h)
  dispatch-Passed open_link writer link_id d now stream h =
      (refl, connect_client-Kept c id ref a writer link_id stream h)
  dispatch-Passed close writer link_id d now stream h =
      (refl, drop_link-Kept c.base id ref a link_id h)
  dispatch-Passed gw_deny writer link_id d now stream h = absurd h
  dispatch-Passed opened writer link_id d now stream h = (refl, Kept-refl c.base id ref)
  dispatch-Passed open_fail writer link_id d now stream h = (refl, Kept-refl c.base id ref)
  dispatch-Passed closed writer link_id d now stream h = (refl, Kept-refl c.base id ref)
  dispatch-Passed gw_auth writer link_id d now stream h = (refl, Kept-refl c.base id ref)
  dispatch-Passed gw_connected writer link_id d now stream h = (refl, Kept-refl c.base id ref)
  dispatch-Passed protocol_version writer link_id d now stream h = (refl, Kept-refl c.base id ref)
  dispatch-Passed gw_auth_challenge writer link_id d now stream h = (refl, Kept-refl c.base id ref)
  dispatch-Passed gw_auth_response writer link_id d now stream h = (refl, Kept-refl c.base id ref)
  dispatch-Passed session_restore writer link_id d now stream h = (refl, Kept-refl c.base id ref)

module _ {W R : Type 0} ⦃io : WriteHalf W⦄ ⦃ir : ReadHalf R⦄ ⦃z : Zstd⦄ (reads : ReadLaws R ir)
    (now : ℕ → Timestamp) (streams : ℕ → Option W) (writer : ℕ) where
  pub on_passing :
      (n : ℕ) (c : GatewayClient W) (r : R) (id ref : ℕ) (p : PacketGw) (d : Option (List ℕ))
      (rest : List ℕ)
      → IsApart c.base id ref
      → PassesBy p.packet_type p.link_id id
      → Arrives reads c.base r p d rest
      → (r' : R) × (c' : GatewayClient W) × (Client.turn reads now streams writer n c r
          ≡ (some r', c'))
        × (reads.pending r' ≡ rest)
        × Kept c.base c'.base id ref
  unfolding Client.turn round
  on_passing n c r id ref p d rest a passes (q, got, same_type, same_link, left) =
      let same = read_gw_packet-SameLinks c.base r in
      let c1 = Client.after_read reads now streams writer c r in
      let kept = SameLinks-Kept c.base c1.base id ref same in
      let (goes_on, passed) =
        dispatch-Passed c1 id ref (SameLinks-IsApart c.base c1.base id ref same a) p.packet_type
          writer p.link_id (received d) (now n) (streams n) passes in
      (
        (read_gw_packet c.base r).1,
        (dispatch p.packet_type c1 writer p.link_id (received d) (now n) (streams n)).1,
        rw (got, round, same_type, same_link, goes_on) refl,
        left,
        record { known = passed.known ∙ kept.known; there = passed.there ∙ kept.there },
      )

  pub on_round :
      (n : ℕ) (c : GatewayClient W) (r : R) (id ref : ℕ)
      → IsApart c.base id ref
      → IsApart (Client.turn reads now streams writer n c r).1.base id ref
  unfolding Client.turn round
  on_round n c r id ref a =
      let c1 = Client.after_read reads now streams writer c r in
      let a1 = SameLinks-IsApart c.base c1.base id ref (read_gw_packet-SameLinks c.base r) a in
      elim (Option-cases (read_gw_packet c.base r).0) [
        | inl e ↦ rw (e, round) a1
        | inr ((p, d), e) ↦
            rw (e, round)
              (dispatch-IsApart c1 id ref a1 p.packet_type writer p.link_id d (now n) (streams n))
      ]

  unfoldable pub reader : Reader W reads (GatewayClient W)
  unfolding Client.receiver
  reader = record {
    side = Client.receiver reads now streams writer;
    on_passing = on_passing;
    on_round = on_round;
  }
