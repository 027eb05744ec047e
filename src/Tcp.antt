-- ===== src/Tcp.antt =====
-- Packet++/src/TcpReassembly.cpp and its header: the reassembly of TCP streams.
pub mod Seq
pub mod Fragments
pub mod State
pub mod Connections
pub mod Reassembly
pub mod Invariant
