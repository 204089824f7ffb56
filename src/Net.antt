-- ===== src/Net.antt =====
-- internal/net: packets, their dissection and the packet filter.
pub mod Types
pub mod Names
pub mod Dissect
pub mod Filter
pub mod HexDump
