-- ===== src/Relay/Data.antt =====
-- The packet that carries what a forwarding loop read: `app_exchange` of gateway/server.rs and of
-- gateway/client.rs make the same.
use iog.Prelude.{ℕ, ◌^◌, ◌≤◌, ◌<◌, ◌≡◌, refl, false, some, List, arith, length}
use iog.Bytes.{as_u16, add_u64}
use iog.Statistics.{buffer_size}
use iog.Packet
use iog.Packet.{PacketGw, IsPacket, is_compressed, regular, close}
use iog.Gateway.{Gateway, next_packet_id}
use iog.Gateway.Send.{payload_len}

-- The packet of a round of `app_exchange`.
unfoldable pub data_packet : {W : Type 0} → Gateway W → ℕ → List ℕ → PacketGw
data_packet g link_id d = Packet.new regular (next_packet_id g).0 link_id (as_u16 (length d))

pub data_packet-IsPacket :
    {W : Type 0} (g : Gateway W) (link_id : ℕ) (d : List ℕ)
    → link_id < 2 ^ 16
    → IsPacket (data_packet g link_id d)
unfolding data_packet Packet.new next_packet_id add_u64
data_packet-IsPacket g link_id d h = omega arith

-- It has no flags, and its `data_size` is the size of what was read.
pub data_packet-plain :
    {W : Type 0} (g : Gateway W) (link_id : ℕ) (d : List ℕ)
    → is_compressed (data_packet g link_id d) ≡ false
unfolding data_packet Packet.new is_compressed
data_packet-plain g link_id d = refl

pub data_packet-sized :
    {W : Type 0} (g : Gateway W) (link_id : ℕ) (d : List ℕ)
    → length d ≤ buffer_size
    → (data_packet g link_id d).data_size ≡ payload_len (some d)
unfolding data_packet Packet.new
data_packet-sized g link_id d h = omega arith

-- The packet of its end.
unfoldable pub close_packet : ℕ → ℕ → PacketGw
close_packet packet_id link_id = Packet.new close packet_id link_id 0

pub close_packet-IsPacket :
    {W : Type 0} (g : Gateway W) (link_id : ℕ)
    → link_id < 2 ^ 16
    → IsPacket (close_packet (next_packet_id g).0 link_id)
unfolding close_packet Packet.new next_packet_id add_u64
close_packet-IsPacket g link_id h = omega arith

pub close_packet-plain : (id link_id : ℕ) → is_compressed (close_packet id link_id) ≡ false
unfolding close_packet Packet.new is_compressed
close_packet-plain id link_id = refl

pub close_packet-fields :
    (id link_id : ℕ)
    → ((close_packet id link_id).data_size ≡ 0)
      × ((close_packet id link_id).packet_type ≡ close)
      × ((close_packet id link_id).link_id ≡ link_id)
unfolding close_packet Packet.new
close_packet-fields id link_id = (refl, refl, refl)

pub data_packet-fields :
    {W : Type 0} (g : Gateway W) (link_id : ℕ) (d : List ℕ)
    → ((data_packet g link_id d).packet_type ≡ regular)
      × ((data_packet g link_id d).link_id ≡ link_id)
unfolding data_packet Packet.new
data_packet-fields g link_id d = (refl, refl)
