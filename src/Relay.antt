-- ===== src/Relay.antt =====
-- Application data from one side to the other: `app_exchange` of gateway/server.rs, the wire, and
-- the exchange loop of gateway/client.rs; and the way back.
pub mod Data
pub mod Downstream
pub mod Upstream
pub mod Pipe
pub mod Arrival
pub mod Stream
pub mod Mux
