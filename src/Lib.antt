-- ===== src/Lib.antt =====
-- PcapPlusPlus: the stateful core of Packet++ and Common++, on a little-endian host.
--
-- TcpReassembly takes parsed packets. It files each connection under the flow key of hash5Tuple, keeps
-- the expected sequence and the out-of-order fragments of its two sides, and tells callbacks of
-- messages and of the start and end of connections. IPReassembly puts the fragments of an IP packet
-- together, filed under a hash of addresses and identification, and forgets the least recently used
-- packet of an LRUList when it is full. Both hash with fnvHash. RawPacket is the buffer that packets
-- are edited in, and Packet the list of layers over such a buffer. A DNS resource reads and writes its
-- name in the data of its layer. A text message keeps a list of header fields, which are places in
-- the data of its layer.
--
-- The parts and their files:
-- - Prelude.antt and its children: tests and lists over the native numbers, 32-bit words, ordered
--   maps for std::map, text.
-- - Parsed.antt: what is read of a parsed packet (Packet++/header/IPv4Layer.h, IPv6Layer.h,
--   TcpLayer.h, UdpLayer.h; Common++/header/IpAddress.h). Parsed/Endian.antt stands for be16toh,
--   be32toh and their inverses of the platform, and for the bytes of a number in memory.
-- - PacketUtils: fnvHash, hash5Tuple, hash2Tuple and computeChecksum (Packet++/src/PacketUtils.cpp).
-- - Lru.antt: Common++/header/LRUList.h at T = uint32_t.
-- - Tcp: Packet++/src/TcpReassembly.cpp and Packet++/header/TcpReassembly.h. Tcp/Seq.antt has SEQ_LT
--   and SEQ_GT, Tcp/Fragments.antt checkOutOfOrderFragments, Tcp/State.antt the class, its structs
--   and its callbacks, Tcp/Connections.antt the closing and purging of connections,
--   Tcp/Reassembly.antt reassemblePacket and handleFinOrRst, each branch a function.
-- - Ip: Packet++/src/IPReassembly.cpp and Packet++/header/IPReassembly.h. Ip/Fragment.antt has the
--   fragment wrappers and packet keys, with the header fields of IPv4Layer.cpp and
--   IPv6Extensions.cpp, Ip/Match.antt matchOutOfOrderFragments, Ip/Process.antt the rest.
-- - RawPacket.antt: Packet++/src/RawPacket.cpp, with the ownership of the buffer.
-- - GeneralUtils.antt: the hexadecimal strings and cross_platform_memmem of
--   Common++/src/GeneralUtils.cpp.
-- - Dns: IDnsResource::decodeName and encodeName of Packet++/src/DnsResource.cpp.
-- - Packet: the layers of Packet++/src/Packet.cpp and Packet++/src/Layer.cpp. Packet.antt has the data and
--   the loops, Packet/Edit.antt insertLayer, removeLayer and the operations that go over them,
--   Packet/Resize.antt extendLayer and shortenLayer; the other files are their proofs.
-- - Tlv: the record reader and builder of Packet++/header/TLVData.h, with the sizes and the build of TCP
--   and IPv4 options (Packet++/header/TcpLayer.h, Packet++/src/TcpLayer.cpp).
-- - TextBasedProtocol: the header fields of HTTP, SIP and SDP (Packet++/src/TextBasedProtocol.cpp and its
--   header). TextBasedProtocol/Field.antt has HeaderField, Message.antt and its children the message
--   with the list of its fields; Layers.antt says what they use of the layer, and OwnLayer.antt gives
--   it for one in no packet. Entries.antt has what a message shows: names and values.
-- - Http: the first line of an HTTP request (Packet++/src/HttpLayer.cpp); Http/Request.antt has its setters.
-- - Tests: runs on concrete inputs.
--
-- How the code becomes definitions. A class is a record and a method a function from the old record
-- to the new one; an entry that the source changes through a pointer is stored where the source
-- leaves it. A callback is an event in a log. time(NULL) is an argument. A uint32_t is a number with
-- its wrap-around written out (add32, sub32), a uint16_t offset likewise (advance). The layers of a
-- packet stand in a store under their addresses, and a pointer into the packet's buffer is its offset, so
-- that one into a buffer that has been replaced is not told apart. The size that reallocateData
-- tests is an int, negative from 2^31 on; an operation on text fields has no result where an offset or a
-- difference of sizes does not fit an int. Where the source
-- would use a NULL pointer, an iterator at end(), freed memory or memory outside of a buffer, the
-- result is none.
--
-- Loops without a bound in the source run on fuel. The loops of checkOutOfOrderFragments and
-- matchOutOfOrderFragments get one unit more than there are fragments: each round but the last takes
-- a fragment off the list. The loop of decodeName gets one unit more than the layer has bytes: each
-- round goes at least one byte on. The loops over the layers of a packet take their fuel as an
-- argument; one unit more than there are layers is enough. So do those over TLV records. The loop of
-- parseFields gets one unit for each byte, of which each of its fields has one at least.
--
-- Not modelled: the parsing of packets, since the model takes the fields of the parsed layers; the
-- conversion of packet times to microseconds in reassemblePacket; the rewriting of the IP header of a
-- reassembled packet, which is given by its bytes and its final offset, with the lookups of its IP
-- layer, which the source does not test for NULL; log messages; the getters and the link types of
-- RawPacket; the protocol layers, with the responses of HTTP and the first lines of SIP, of which Packet
-- takes what getHeaderLen, getProtocol and getOsiModelLayer answer; the capture devices of Pcap++, and
-- third-party code.
pub mod Prelude
pub mod Parsed
pub mod PacketUtils
pub mod Lru
pub mod Tcp
pub mod Ip
pub mod RawPacket
pub mod GeneralUtils
pub mod Dns
pub mod Packet
pub mod Tlv
pub mod TextBasedProtocol
pub mod Http
mod Tests
