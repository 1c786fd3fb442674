-- ===== src/Snmp/Hex/Tests.antt =====
-- The octets of an Ethernet address.
