-- ===== src/Gateway.antt =====
-- sw/gateway/itc_gw.c: the daemon that passes messages on to other hosts.
pub mod Stream
pub mod Wire
pub mod Tree
pub mod Peers
pub mod Server
pub mod Packet
pub mod Effect
pub mod Client
pub mod Exchange
pub mod Text
mod Tests
pub mod Udp
