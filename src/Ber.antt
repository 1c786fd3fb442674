-- ===== src/Ber.antt =====
-- tnm/snmp/tnmAsn1.c
pub mod Stream
pub mod At
pub mod Length
pub mod Integer
pub mod Oid
pub mod Octets
pub mod Sequence
pub mod Safety
pub mod Ends
pub mod Frames
mod Tests
