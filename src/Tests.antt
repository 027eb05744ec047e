-- ===== src/Tests.antt =====
-- Runs of the definitions on concrete inputs.
mod TcpStreams
mod TcpConnections
mod Fragments
mod Packets
mod Dns
mod Layers
mod Texts
mod Checksums
mod Tlvs
