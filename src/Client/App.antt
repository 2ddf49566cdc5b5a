-- ===== src/Client/App.antt =====
-- `app_exchange` of gateway/client.rs: application data on its way to the server.
use iog.Prelude.{ℕ, Bool, true, false, Option, none, some, List, [], ◌∷◌, if◌then◌else◌, length}
use iog.Bytes.{as_u16}
use iog.Transport.{WriteHalf}
use iog.Packet
use iog.Compression.{Zstd}
use iog.Link
use iog.Gateway
use iog.Gateway.{with_link}
use iog.Client.{GatewayClient, send_control, send_to}

module _ {W : Type 0} ⦃io : WriteHalf W⦄ ⦃z : Zstd⦄ where
  -- One round, with the result of a read (`none` is an error); `false` is the end of the loop. A
  -- failed send ends it before the bytes are counted.
  unfoldable pub app_round : GatewayClient W → ℕ → ℕ → ℕ → Option (List ℕ) → Bool × GatewayClient W
  unfolding with_link Gateway.next_packet_id send_to
  app_round c ref link_id writer none = (false, c)
  app_round c ref link_id writer (some []) = (false, c)
  app_round c ref link_id writer (some (b ∷ bs)) =
      let n = length (b ∷ bs) in
      let (packet_id, base) = Gateway.next_packet_id c.base in
      let (sent, c') =
        send_to (record c { base = base }) writer
          (Packet.new Packet.regular packet_id link_id (as_u16 n)) (some (b ∷ bs)) in
      if sent
      then (true, record c' { base = with_link c'.base ref (λ l. Link.add_incoming l n) })
      else (false, c')

  -- The link is taken off the registry and not closed.
  unfoldable pub app_end : GatewayClient W → ℕ → ℕ → GatewayClient W
  unfolding send_control Gateway.remove_link
  app_end c link_id writer =
      let c' = (send_control c writer (λ id. Packet.new Packet.close id link_id 0)).1 in
      record c' { base = (Gateway.remove_link c'.base link_id).1 }

  -- The loop over the reads so far; `false` is that the task has ended.
  unfoldable pub app_exchange :
      GatewayClient W → ℕ → ℕ → ℕ → List (Option (List ℕ)) → Bool × GatewayClient W
  unfolding app_round app_end
  app_exchange c ref link_id writer [] = (true, c)
  app_exchange c ref link_id writer (x ∷ xs) =
      let (goes_on, c') = app_round c ref link_id writer x in
      let rest = app_exchange c' ref link_id writer xs in
      if goes_on then rest else (false, app_end c' link_id writer)
