-- ===== src/Bluetooth.antt =====
-- The Bluetooth protocol of the two devices: bodies of type-length-value fields, encrypted packets
-- in manufacturer data, and the sender with its acknowledgements. The files bluetooth_common.cpp
-- and bluetooth_crypto.cpp of main/ and worker/ agree but for one diagnostic function.
pub mod Tlv
pub mod Message
pub mod Crypto
pub mod Packet
pub mod Sender
