-- ===== src/PacketUtils.antt =====
-- Packet++/src/PacketUtils.cpp: the flow hashes and the Internet checksum.
pub mod Hash
pub mod Checksum
