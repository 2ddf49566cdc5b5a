-- ===== src/Relay/Mux/Put.antt =====
-- What a step of one side puts on the shared stream, as the reader of one link sees it.
use iog.Prelude.{ℕ, ◌≡◌, ◌≢◌, Bool, true, false, Option, none, some, List, [], ◌∷◌, ◌++◌}
use iog.Transport.{WriteHalf, WriteLaws}
use iog.Packet.{
  PacketGw, PacketType, IsPacket, is_compressed, regular, ping, pong, open_link, opened, open_fail,
  close, closed, gw_auth, gw_connected, gw_deny, protocol_version, gw_auth_challenge,
  gw_auth_response, session_restore,
}
use iog.Compression.{Zstd}
use iog.Gateway.Send.{prepare, payload_len}
use iog.Gateway.RoundTrip.{wire}
use iog.Relay.Pipe.{Pipe, feed}

-- A packet and its data as the gateways make them: in range, with no flags, of the data's size.
pub record IsSendable (p : PacketGw) (d : Option (List ℕ)) : Type 0 where
  pub valid : IsPacket p
  pub plain : is_compressed p ≡ false
  pub sized : p.data_size ≡ payload_len d

-- A packet of this type under this identifier is not about the link `id`, and does not end the
-- loop that reads it.
abbrev pub PassesBy : PacketType → ℕ → ℕ → Type 0
PassesBy ping link_id id = Unit
PassesBy pong link_id id = Unit
PassesBy gw_deny link_id id = ⊥
PassesBy regular link_id id = link_id ≢ id
PassesBy open_link link_id id = link_id ≢ id
PassesBy opened link_id id = link_id ≢ id
PassesBy open_fail link_id id = link_id ≢ id
PassesBy close link_id id = link_id ≢ id
PassesBy closed link_id id = link_id ≢ id
PassesBy gw_auth link_id id = link_id ≢ id
PassesBy gw_connected link_id id = link_id ≢ id
PassesBy protocol_version link_id id = link_id ≢ id
PassesBy gw_auth_challenge link_id id = link_id ≢ id
PassesBy gw_auth_response link_id id = link_id ≢ id
PassesBy session_restore link_id id = link_id ≢ id

-- Whether the link's sending loop runs before and after, what it read, and the bytes.
module _ ⦃z : Zstd⦄ where
  pub data Put (id : ℕ) : Bool → Bool → List (Option (List ℕ)) → List ℕ → Type 0 where
    quiet : (runs : Bool) → Put id runs runs [] []
    passing :
        (runs : Bool) (p : PacketGw) (d : Option (List ℕ))
        → IsSendable p d
        → PassesBy p.packet_type p.link_id id
        → Put id runs runs [] (wire (prepare p d))
    chunk :
        (p : PacketGw) (b : ℕ) (bs : List ℕ)
        → IsSendable p (some (b ∷ bs))
        → p.packet_type ≡ regular
        → p.link_id ≡ id
        → Put id true true (some (b ∷ bs) ∷ []) (wire (prepare p (some (b ∷ bs))))
    closing :
        (p : PacketGw) (x : Option (List ℕ))
        → ((q : Pipe) → feed q x ≡ record q { is_open = false })
        → IsSendable p none
        → p.packet_type ≡ close
        → p.link_id ≡ id
        → Put id true false (x ∷ []) (wire (prepare p none))
    unread : (x : Option (List ℕ)) → Put id false false (x ∷ []) []

-- The writer after a step that put that on the stream.
pub record Puts {W : Type 0} ⦃io : WriteHalf W⦄ ⦃z : Zstd⦄ (writes : WriteLaws W io) (id : ℕ)
    (runs runs' : Bool) (xs : List (Option (List ℕ))) (w : W) (after : Option W) : Type 0 where
  pub writer : W
  pub there : after ≡ some writer
  pub bytes : List ℕ
  pub sent : writes.sent writer ≡ writes.sent w ++ bytes
  pub put : Put id runs runs' xs bytes
