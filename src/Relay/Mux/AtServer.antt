-- ===== src/Relay/Mux/AtServer.antt =====
-- The exchange loop of gateway/server.rs as the reader of a shared stream.
use iog.Prelude.{
  ℕ, ◌≡◌, ◌≢◌, refl, ◌∙◌, Option, Option-cases, inl, inr, none, some, List, get_elem?, nat_eq,
}
use iog.Map
use iog.Transport.{WriteHalf, ReadHalf, ReadLaws}
use iog.Packet
use iog.Packet.{
  PacketGw, PacketType, regular, ping, pong, open_link, opened, open_fail, close, closed, gw_auth,
  gw_connected, gw_deny, protocol_version, gw_auth_challenge, gw_auth_response, session_restore,
}
use iog.Compression.{Zstd}
use iog.Link
use iog.Link.{Link}
use iog.Gateway.{next_packet_id}
use iog.Gateway.Send.{send_pong}
use iog.Gateway.Receive.{read_gw_packet}
use iog.Gateway.RoundTrip.{received}
use iog.Gateway.Frame.{SameLinks, read_gw_packet-SameLinks, send_gw_packet-SameLinks}
use iog.Gateway.Apart.{
  IsApart, Kept, Kept-refl, SameLinks-Kept, SameLinks-IsApart, with_link-IsApart, with_link-Kept,
  other_place, drop_link-IsApart, drop_link-Kept,
}
use iog.Relay.Arrival.{Arrives}
use iog.Relay.Mux.Put.{PassesBy}
use iog.Relay.Mux.Reader.{Reader}
use iog.Relay.Stream.Server
use iog.Server.{GatewayServer}
use iog.Server.Exchange.{continues, on_link, dispatch, pong_to, round}
use iog.Server.Links.{remove_link}

module _ {W : Type 0} ⦃io : WriteHalf W⦄ ⦃z : Zstd⦄ where
  pong_to-SameLinks : (s : GatewayServer W) (writer : ℕ) → SameLinks s.base (pong_to s writer).base
  unfolding pong_to send_pong next_packet_id
  pong_to-SameLinks s writer = elim (Option-cases (get_elem? s.writers writer)) [
    | inl e ↦ rw (e, pong_to) (refl, refl)
    | inr (w, e) ↦
        let g = (next_packet_id s.base).1 in
        let (links, heap) =
          send_gw_packet-SameLinks g w (Packet.new pong (next_packet_id s.base).0 0 0) none in
        rw (e, pong_to) (links, heap)
  ]

module _ {W : Type 0} ⦃io : WriteHalf W⦄ ⦃z : Zstd⦄ (s : GatewayServer W) (id ref : ℕ)
    (a : IsApart s.base id ref) where
  on_link-IsApart : (link_id : ℕ) (f : Link W → Link W) → IsApart (on_link s link_id f).base id ref
  unfolding on_link
  on_link-IsApart link_id f = elim (Option-cases (Map.get s.base.links link_id)) [
    | inl e ↦ rw (e, on_link) a
    | inr (r, e) ↦ rw (e, on_link) (with_link-IsApart s.base id ref a r f)
  ]

  on_link-Kept :
      (link_id : ℕ) (f : Link W → Link W)
      → link_id ≢ id
      → Kept s.base (on_link s link_id f).base id ref
  unfolding on_link
  on_link-Kept link_id f h = elim (Option-cases (Map.get s.base.links link_id)) [
    | inl e ↦ rw (e, on_link) (Kept-refl s.base id ref)
    | inr (r, e) ↦
        rw (e, on_link)
          (with_link-Kept s.base id ref a r f (other_place s.base id ref a link_id r h e))
  ]

  dispatch-IsApart :
      (t : PacketType) (writer link_id : ℕ) (d : Option (List ℕ))
      → IsApart (dispatch t s writer link_id d).1.base id ref
  unfolding dispatch remove_link
  dispatch-IsApart ping writer link_id d =
      SameLinks-IsApart s.base (pong_to s writer).base id ref (pong_to-SameLinks s writer) a
  dispatch-IsApart pong writer link_id d = a
  dispatch-IsApart regular writer link_id none = a
  dispatch-IsApart regular writer link_id (some d) =
      on_link-IsApart link_id (λ l. Link.send_packet l (some d))
  dispatch-IsApart opened writer link_id d =
      on_link-IsApart link_id (λ l. Link.set_state l Link.connected)
  dispatch-IsApart open_fail writer link_id d = drop_link-IsApart s.base id ref a link_id
  dispatch-IsApart close writer link_id d = drop_link-IsApart s.base id ref a link_id
  dispatch-IsApart open_link writer link_id d = a
  dispatch-IsApart closed writer link_id d = a
  dispatch-IsApart gw_auth writer link_id d = a
  dispatch-IsApart gw_connected writer link_id d = a
  dispatch-IsApart gw_deny writer link_id d = a
  dispatch-IsApart protocol_version writer link_id d = a
  dispatch-IsApart gw_auth_challenge writer link_id d = a
  dispatch-IsApart gw_auth_response writer link_id d = a
  dispatch-IsApart session_restore writer link_id d = a

  -- A packet that passes the link by leaves it, and the loop goes on.
  abbrev Passed : PacketType → ℕ → ℕ → Option (List ℕ) → Type 0
  Passed t writer link_id d =
      let result = dispatch t s writer link_id d in
      (result.0 ≡ continues) × Kept s.base result.1.base id ref

  dispatch-Passed :
      (t : PacketType) (writer link_id : ℕ) (d : Option (List ℕ))
      → PassesBy t link_id id
      → Passed t writer link_id d
  unfolding dispatch remove_link
  dispatch-Passed ping writer link_id d h =
      (refl, SameLinks-Kept s.base (pong_to s writer).base id ref (pong_to-SameLinks s writer))
  dispatch-Passed regular writer link_id (some d) h =
      (refl, on_link-Kept link_id (λ l. Link.send_packet l (some d)) h)
  dispatch-Passed opened writer link_id d h =
      (refl, on_link-Kept link_id (λ l. Link.set_state l Link.connected) h)
  dispatch-Passed open_fail writer link_id d h = (refl, drop_link-Kept s.base id ref a link_id h)
  dispatch-Passed close writer link_id d h = (refl, drop_link-Kept s.base id ref a link_id h)
  dispatch-Passed gw_deny writer link_id d h = absurd h
  dispatch-Passed pong writer link_id d h = (refl, Kept-refl s.base id ref)
  dispatch-Passed regular writer link_id none h = (refl, Kept-refl s.base id ref)
  dispatch-Passed open_link writer link_id d h = (refl, Kept-refl s.base id ref)
  dispatch-Passed closed writer link_id d h = (refl, Kept-refl s.base id ref)
  dispatch-Passed gw_auth writer link_id d h = (refl, Kept-refl s.base id ref)
  dispatch-Passed gw_connected writer link_id d h = (refl, Kept-refl s.base id ref)
  dispatch-Passed protocol_version writer link_id d h = (refl, Kept-refl s.base id ref)
  dispatch-Passed gw_auth_challenge writer link_id d h = (refl, Kept-refl s.base id ref)
  dispatch-Passed gw_auth_response writer link_id d h = (refl, Kept-refl s.base id ref)
  dispatch-Passed session_restore writer link_id d h = (refl, Kept-refl s.base id ref)

module _ {W R : Type 0} ⦃io : WriteHalf W⦄ ⦃ir : ReadHalf R⦄ ⦃z : Zstd⦄ (reads : ReadLaws R ir)
    (writer : ℕ) where
  pub on_passing :
      (n : ℕ) (s : GatewayServer W) (r : R) (id ref : ℕ) (p : PacketGw) (d : Option (List ℕ))
      (rest : List ℕ)
      → IsApart s.base id ref
      → PassesBy p.packet_type p.link_id id
      → Arrives reads s.base r p d rest
      → (r' : R) × (t : GatewayServer W) × (round s r writer ≡ (some r', t))
        × (reads.pending r' ≡ rest)
        × Kept s.base t.base id ref
  unfolding round
  on_passing n s r id ref p d rest a passes (q, got, same_type, same_link, left) =
      let same = read_gw_packet-SameLinks s.base r in
      let s1 = Server.after_read reads writer s r in
      let kept = SameLinks-Kept s.base s1.base id ref same in
      let (goes_on, passed) =
        dispatch-Passed s1 id ref (SameLinks-IsApart s.base s1.base id ref same a) p.packet_type
          writer p.link_id (received d) passes in
      (
        (read_gw_packet s.base r).1,
        (dispatch p.packet_type s1 writer p.link_id (received d)).1,
        rw (got, round, same_type, same_link, goes_on) refl,
        left,
        record { known = passed.known ∙ kept.known; there = passed.there ∙ kept.there },
      )

  pub on_round :
      (n : ℕ) (s : GatewayServer W) (r : R) (id ref : ℕ)
      → IsApart s.base id ref
      → IsApart (round s r writer).1.base id ref
  unfolding round
  on_round n s r id ref a =
      let s1 = Server.after_read reads writer s r in
      let a1 = SameLinks-IsApart s.base s1.base id ref (read_gw_packet-SameLinks s.base r) a in
      elim (Option-cases (read_gw_packet s.base r).0) [
        | inl e ↦ rw (e, round) a1
        | inr ((p, d), e) ↦
            rw (e, round) (dispatch-IsApart s1 id ref a1 p.packet_type writer p.link_id d)
      ]

  unfoldable pub reader : Reader W reads (GatewayServer W)
  unfolding Server.receiver
  reader = record {
    side = Server.receiver reads writer;
    on_passing = on_passing;
    on_round = on_round;
  }
