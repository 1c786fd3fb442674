-- ===== src/Snmp.antt =====
-- The SNMP engine: messages, the queue of requests, and object identifiers, in tnm/snmp.
pub mod Decode
pub mod Message
pub mod Encode
pub mod EncodePdu
pub mod Queue
pub mod OidText
pub mod Hex
pub mod Send
pub mod OidObj
pub mod Inst
