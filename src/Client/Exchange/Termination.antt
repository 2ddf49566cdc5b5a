-- ===== src/Client/Exchange/Termination.antt =====
-- The client's exchange loop ends on every finite stream, and its connection is then released.
use iog.Prelude.{
  ℕ, zero, suc, ◌+◌, ◌*◌, ◌≤◌, ◌<◌, ◌≡◌, refl, none, some, Option, [], arith, length, Option-cases,
  inl, inr, nat_eq,
}
use iog.Map
use iog.Transport.{WriteHalf, ReadHalf, ReadLaws}
use iog.Statistics.{Timestamp, waiting}
use iog.Packet.{packet_header_size}
use iog.Compression.{Zstd}
use iog.Gateway.Receive.{read_gw_packet}
use iog.Gateway.Registry.{IsClosed, close_all_links-IsClosed}
use iog.Gateway.Progress.{left, read_gw_packet-left}
use iog.Client.{GatewayClient}
use iog.Client.Exchange.{round, gateway_exchange}
use iog.Client.Connection.{on_disconnection}

module _ {W R : Type 0} ⦃io : WriteHalf W⦄ ⦃ir : ReadHalf R⦄ ⦃z : Zstd⦄ (laws : ReadLaws R ir) where
  round-left :
      (c : GatewayClient W) (r r' : R) (writer : ℕ) (now : Timestamp) (stream : Option W)
      → (round c r writer now stream).0 ≡ some r'
      → left laws r' + packet_header_size ≤ left laws r
  unfolding round
  round-left c r r' writer now stream e = elim (Option-cases (read_gw_packet c.base r).0) [
    | inl none' ↦ ground arith
    | inr (a, got) ↦ ground (arith, read_gw_packet-left laws c.base r a got)
  ]

  -- The rounds of the loop from a client and a reader, up to the one that ends it and the client
  -- that it leaves, with the times and the outcomes of connecting that they meet.
  pub data Rounds (now : ℕ → Timestamp) (streams : ℕ → Option W) (writer : ℕ)
      : ℕ → GatewayClient W → R → GatewayClient W → Type 0 where
    ends :
        (n : ℕ) (c t : GatewayClient W) (r : R)
        → round c r writer (now n) (streams n) ≡ (none, t)
        → Rounds now streams writer (suc n) c r t
    goes_on :
        (n : ℕ) (c c' t : GatewayClient W) (r r' : R)
        → round c r writer (now n) (streams n) ≡ (some r', c')
        → Rounds now streams writer n c' r' t
        → Rounds now streams writer (suc n) c r t

  gateway_exchange_ends :
      (now : ℕ → Timestamp) (streams : ℕ → Option W) (fuel : ℕ) (c : GatewayClient W) (r : R)
      (writer : ℕ)
      → length (laws.pending r) < packet_header_size * fuel
      → (t : GatewayClient W) × Rounds now streams writer fuel c r t
        × (gateway_exchange now streams fuel c r writer ≡ some t)
  unfolding gateway_exchange
  gateway_exchange_ends now streams zero c r writer h = absurd (omega arith)
  gateway_exchange_ends now streams (suc fuel) c r writer h =
      let c' = (round c r writer (now fuel) (streams fuel)).1 in
      elim (Option-cases (round c r writer (now fuel) (streams fuel)).0) [
        | inl ended ↦ (c', ends fuel c c' r (λ i. (ended i, c')), rw (ended, gateway_exchange))
        | inr (r', next) ↦
            let (t, rounds, e) =
              gateway_exchange_ends now streams fuel c' r' writer
                (omega (arith, round-left c r r' writer (now fuel) (streams fuel) next)) in
            (t, goes_on fuel c c' t r r' (λ i. (next i, c')) rounds, rw (next, gateway_exchange) e)
      ]

  -- Over a stream that keeps its laws, with fuel for one round per header that it can hold, and
  -- one more, the client's loop runs round after round up to one that ends it; and
  -- `on_disconnection`, which `run` calls next, then forgets the connection, leaves the registry
  -- empty, closes every link that was registered, and waits.
  pub on_disconnection-gateway_exchange :
      (now : ℕ → Timestamp) (streams : ℕ → Option W) (fuel : ℕ) (c : GatewayClient W) (r : R)
      (writer : ℕ)
      → length (laws.pending r) < packet_header_size * fuel
      → (t : GatewayClient W) × Rounds now streams writer fuel c r t
        × (gateway_exchange now streams fuel c r writer ≡ some t)
        × (let u = on_disconnection t in
            (u.gw_reader ≡ none)
            × (u.gw_writer ≡ none)
            × (u.base.links ≡ [])
            × ((id ref : ℕ) → Map.get t.base.links id ≡ some ref → IsClosed u.base.heap ref)
            × (u.base.state ≡ waiting))
  unfolding on_disconnection
  on_disconnection-gateway_exchange now streams fuel c r writer h =
      let (t, rounds, e) = gateway_exchange_ends now streams fuel c r writer h in
      let (emptied, closed, _) = close_all_links-IsClosed t.base in
      (t, rounds, e, (refl, refl, emptied, closed, refl))
