-- ===== src/GeneralUtils/RoundTrip.antt =====
-- byteArrayToHexString against hexStringToByteArray.
use pcap_plus_plus.Prelude.{List}
