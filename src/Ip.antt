-- ===== src/Ip.antt =====
-- Packet++/src/IPReassembly.cpp and its header: the reassembly of IPv4 and IPv6 fragments.
pub mod Fragment
pub mod Match
pub mod Process
