-- ===== src/Packet/Codes.antt =====
-- The codes of packet types and disconnect reasons.
use iog.Prelude.{ℕ, ◌≤◌, ◌<◌, ◌≡◌, refl, ◌⊎◌, arith}
use iog.Packet.{
  PacketType, regular, type_code, type_from, DisconnectReason, auth_failed, reason_code,
  reason_from,
}

-- Decoding the code of a packet type gives the type back.
pub type_from-type_code : (t : PacketType) → type_from (type_code t) ≡ t
unfolding type_from type_code
type_from-type_code regular = refl
type_from-type_code _ = refl

pub type_code-lt : (t : PacketType) → type_code t < 256
unfolding type_code
type_code-lt regular = omega arith
type_code-lt _ = omega arith

-- A byte in use by the protocol.
abbrev pub IsCode : ℕ → Type 0
IsCode b = (b ≤ 13) ⊎ (b ≡ 30)

-- Decoding keeps every byte in use, and takes every other byte for `regular`.
pub type_code-type_from :
    (b : ℕ) → (IsCode b → type_code (type_from b) ≡ b) × (¬ IsCode b → type_from b ≡ regular)
unfolding type_from type_code
type_code-type_from b = (λ c. ground arith, λ c. ground arith)

reason_from-reason_code_lem : (r : DisconnectReason) → reason_from (reason_code r) ≡ r
unfolding reason_from reason_code
reason_from-reason_code_lem auth_failed = refl
reason_from-reason_code_lem _ = refl

-- Decoding the code of a disconnect reason gives the reason back, and any byte above 5 counts as
-- an authentication failure.
pub reason_from-reason_code :
    ((r : DisconnectReason) → reason_from (reason_code r) ≡ r)
    × ((b : ℕ) → 5 < b → reason_from b ≡ auth_failed)
unfolding reason_from reason_code
reason_from-reason_code = (reason_from-reason_code_lem, λ b h. ground arith)
