-- ===== src/Relay/Mux/Packets.antt =====
-- The packets of the forwarding loops and the control packets of gateway/server.rs and
-- gateway/client.rs can be sent.
use iog.Prelude.{ℕ, ◌<◌, ◌^◌, refl, none, some, List, arith}
use iog.Bytes.{add_u64}
use iog.Packet
use iog.Packet.{PacketType, is_compressed}
use iog.Gateway.{Gateway, next_packet_id}
use iog.Relay.Data.{data_packet, data_packet-IsPacket, data_packet-plain, data_packet-sized}
use iog.Relay.Stream.Sender.{IsRead}
use iog.Relay.Mux.Put.{IsSendable}

pub data_packet-IsSendable :
    {W : Type 0} (g : Gateway W) (link_id : ℕ) (d : List ℕ)
    → link_id < 2 ^ 16
    → IsRead (some d)
    → IsSendable (data_packet g link_id d) (some d)
data_packet-IsSendable g link_id d fits size = record {
  valid = data_packet-IsPacket g link_id d fits;
  plain = data_packet-plain g link_id d;
  sized = data_packet-sized g link_id d size;
}

pub control-IsSendable :
    {W : Type 0} (t : PacketType) (g : Gateway W) (link_id : ℕ)
    → link_id < 2 ^ 16
    → IsSendable (Packet.new t (next_packet_id g).0 link_id 0) none
unfolding Packet.new next_packet_id add_u64 is_compressed
control-IsSendable t g link_id fits = record { valid = omega arith; plain = refl; sized = refl }
