-- ===== src/Server/Exchange/Termination.antt =====
-- The exchange loop ends on every finite stream, and ends by cleaning up.
use iog.Prelude.{
  none, ℕ, zero, suc, ◌+◌, ◌*◌, ◌≤◌, ◌<◌, ◌≡◌, some, arith, length, Option-cases, inl, inr,
}
use iog.Transport.{WriteHalf, ReadHalf, ReadLaws}
use iog.Packet.{packet_header_size}
use iog.Compression.{Zstd}
use iog.Gateway.Receive.{read_gw_packet}
use iog.Gateway.Progress.{left, read_gw_packet-left}
use iog.Server.{SocketAddr, GatewayServer}
use iog.Server.Links.{cleanup_client}
use iog.Server.Exchange.{round, client_exchange}

module _ {W R : Type 0} ⦃io : WriteHalf W⦄ ⦃ir : ReadHalf R⦄ ⦃z : Zstd⦄ (laws : ReadLaws R ir) where
  round-left :
      (s : GatewayServer W) (r r' : R) (writer : ℕ)
      → (round s r writer).0 ≡ some r'
      → left laws r' + packet_header_size ≤ left laws r
  unfolding round
  round-left s r r' writer e = elim (Option-cases (read_gw_packet s.base r).0) [
    | inl none' ↦ ground arith
    | inr (a, got) ↦ ground (arith, read_gw_packet-left laws s.base r a got)
  ]

  -- The rounds of the loop from a server and a reader, up to the one that ends it and the server
  -- that it leaves.
  pub data Rounds (writer : ℕ) : GatewayServer W → R → GatewayServer W → Type 0 where
    ends : (s t : GatewayServer W) (r : R) → round s r writer ≡ (none, t) → Rounds writer s r t
    goes_on :
        (s s' t : GatewayServer W) (r r' : R)
        → round s r writer ≡ (some r', s')
        → Rounds writer s' r' t
        → Rounds writer s r t

  -- Over a stream that keeps its laws, with fuel for one round per header that it can hold, and
  -- one more, the loop ends: it runs round after round up to one that ends it, and then cleans up
  -- after the client in the state that this round leaves.
  pub client_exchange-cleanup_client :
      (fuel : ℕ) (s : GatewayServer W) (r : R) (writer : ℕ) (addr : SocketAddr) (session_id : ℕ)
      → length (laws.pending r) < packet_header_size * fuel
      → (t : GatewayServer W) × Rounds writer s r t
        × (client_exchange fuel s r writer addr session_id
            ≡ some (cleanup_client t addr session_id))
  unfolding client_exchange
  client_exchange-cleanup_client zero s r writer addr session_id h = absurd (omega arith)
  client_exchange-cleanup_client (suc fuel) s r writer addr session_id h =
      let s' = (round s r writer).1 in
      elim (Option-cases (round s r writer).0) [
        | inl ended ↦ (s', ends s s' r (λ i. (ended i, s')), rw (ended, client_exchange))
        | inr (r', next) ↦
            let (t, rounds, e) =
              client_exchange-cleanup_client fuel s' r' writer addr session_id
                (omega (arith, round-left s r r' writer next)) in
            (t, goes_on s s' t r r' (λ i. (next i, s')) rounds, rw (next, client_exchange) e)
      ]
