-- ===== src/Handshake.antt =====
-- The challenge-response handshake between gateway/client.rs and gateway/server.rs: each side's
-- steps on what the other side wrote, and the two together.
pub mod Steps
pub mod Agreement
