-- ===== src/Net.antt =====
-- net/: packets and their decoder, addresses, the TCP server, HTTP.
pub mod Packet
pub mod Decoder
pub mod Server
pub mod Http
pub mod Address
mod Tests
