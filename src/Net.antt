-- ===== src/Net.antt =====
-- Packet headers and checksums: libs/app_utils/src/net.c and libs/app_utils/api/net.h.
pub mod Memory
pub mod Checksum
pub mod Ip
pub mod L4
pub mod Frame
pub mod Names
pub mod Text
pub mod Describe
mod Tests
