-- ===== src/Server/App/Race.antt =====
-- What the order of two tasks does to a new link: `handle_app_connection` marks it as waiting
-- after it has sent `Open`, while the exchange loop marks it as connected when `Opened` comes.
use iog.Prelude.{ℕ, ◌≡◌, refl, sym, ap, ◌∙◌, none, some, List, arith, get_elem?, modify_at, nat_eq}
use iog.Map
use iog.Transport.{WriteHalf}
use iog.Packet.{opened, regular}
use iog.Compression.{Zstd}
use iog.Link
use iog.Link.{Link, ConnectionState, waiting, connected}
use iog.Gateway.{with_link}
use iog.Server.{GatewayServer}
use iog.Server.Exchange.{on_link, dispatch}
use iog.Server.App.{mark_waiting}

pub on_link-some :
    {W : Type 0} (s : GatewayServer W) (id ref : ℕ) (f : Link W → Link W)
    → Map.get s.base.links id ≡ some ref
    → on_link s id f ≡ record s { base = with_link s.base ref f }
unfolding on_link
on_link-some s id ref f e = rw (e, on_link)

module _ {W : Type 0} ⦃io : WriteHalf W⦄ ⦃z : Zstd⦄ where
  -- The state of a registered link, if there is one.
  abbrev pub HasState : GatewayServer W → ℕ → ConnectionState → Type 0
  HasState s ref state = (l : Link W) × (get_elem? s.base.heap ref ≡ some l) × (l.state ≡ state)

  dropped :
      (l : Link W) (payload : List ℕ) → l.state ≡ waiting → Link.send_packet l (some payload) ≡ l
  unfolding Link.send_packet
  dropped l payload h = ground arith

  -- For a registered link: if `Opened` is handled after the link is marked as waiting, the link
  -- ends up connected; if it is handled before, the link ends up waiting, and a `Regular` packet
  -- handled next leaves the link as it is, so that its data does not reach the application.
  pub opened_before_waiting :
      (s : GatewayServer W) (writer link_id ref : ℕ) (l : Link W) (payload : List ℕ)
      → Map.get s.base.links link_id ≡ some ref
      → get_elem? s.base.heap ref ≡ some l
      → let late = (dispatch opened (mark_waiting s ref) writer link_id none).1 in
        let early = mark_waiting (dispatch opened s writer link_id none).1 ref in
        let after = (dispatch regular early writer link_id (some payload)).1 in
        HasState late ref connected
        × HasState early ref waiting
        × (get_elem? after.base.heap ref ≡ get_elem? early.base.heap ref)
  unfolding dispatch mark_waiting with_link Link.set_state
  opened_before_waiting s writer link_id ref l payload e h =
      let wait = λ (x : Link W). Link.set_state x waiting in
      let connect = λ (x : Link W). Link.set_state x connected in
      let send = λ (x : Link W). Link.send_packet x (some payload) in
      let heap_of = λ (x : GatewayServer W). get_elem? x.base.heap ref in
      let first = ap heap_of (on_link-some s link_id ref connect e) in
      let opened' = on_link s link_id connect in
      let early' = mark_waiting opened' ref in
      let waits : get_elem? early'.base.heap ref ≡ some (wait (connect l)) =
        modify_at opened'.base.heap ref wait (connect l)
          (first ∙ modify_at s.base.heap ref connect l h) in
      let known : Map.get early'.base.links link_id ≡ some ref =
        ap (λ (x : GatewayServer W). Map.get x.base.links link_id)
          (on_link-some s link_id ref connect e)
        ∙ e in
      (
        (
          connect (wait l),
          ap heap_of (on_link-some (mark_waiting s ref) link_id ref connect e)
              ∙ modify_at _ ref connect (wait l) (modify_at s.base.heap ref wait l h),
          refl,
        ),
        (wait (connect l), waits, refl),
        ap heap_of (on_link-some early' link_id ref send known)
            ∙ modify_at early'.base.heap ref send (wait (connect l)) waits
            ∙ ap some (dropped (wait (connect l)) payload refl)
            ∙ sym waits,
      )
