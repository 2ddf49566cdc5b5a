-- ===== src/Packet/Flags.antt =====
-- The flag byte.
use Prim.Native.Nat.{bit_and, bit_or}
use iog.Prelude.{ℕ, ◌<◌, ◌≡◌, refl, Bool, true, false, not, ◌&&◌, arith, ◌==◌, ltb}
use iog.Prelude.Tables.{all_below, all_below-apply}
use iog.Packet.{PacketGw, IsPacket, flag_compressed, is_compressed, set_flag, new, PacketType}

abbrev flag_test : ℕ → Bool
flag_test f =
    not (bit_and (bit_or f flag_compressed) flag_compressed == 0)
    && ltb (bit_or f flag_compressed) 256
    && bit_or (bit_or f flag_compressed) flag_compressed == bit_or f flag_compressed

flag_table : all_below 256 flag_test ≡ true
unfolding all_below
flag_table = refl

flag_test-true : (f : ℕ) → f < 256 → flag_test f ≡ true
flag_test-true f h = all_below-apply 256 flag_test f flag_table h

-- On a packet with fields within their ranges, setting the compression flag makes it compressed,
-- keeps it within these ranges, leaves every other field alone, and setting it again changes
-- nothing.
pub set_flag-is_compressed :
    (p : PacketGw)
    → IsPacket p
    → let q = set_flag p flag_compressed in
      (is_compressed q ≡ true)
      × IsPacket q
      × (q.packet_type ≡ p.packet_type)
      × (q.packet_id ≡ p.packet_id)
      × (q.link_id ≡ p.link_id)
      × (q.data_size ≡ p.data_size)
      × (set_flag q flag_compressed ≡ q)
unfolding set_flag is_compressed
set_flag-is_compressed p v = ground (arith, flag_test-true p.flags v.flags_fit)

-- A new packet is not compressed.
pub new-is_compressed : (t : PacketType) (i l n : ℕ) → is_compressed (new t i l n) ≡ false
unfolding new is_compressed
new-is_compressed t i l n = refl
