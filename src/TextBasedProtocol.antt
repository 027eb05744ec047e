-- ===== src/TextBasedProtocol.antt =====
-- Packet++/src/TextBasedProtocol.cpp and its header: the header fields of text protocols such as HTTP,
-- SIP and SDP. A HeaderField* is a number.
pub mod Layers
pub mod OwnLayer
pub mod Field
pub mod Message
pub mod Entries
pub mod Shift
pub mod Lines
pub mod Headers
pub mod Reading
pub mod Separator
pub mod Represents
pub mod Insert
pub mod Remove
pub mod Change
