-- ===== src/Snmp/Send/Tests.antt =====
-- A request for sysDescr.0 on a SNMPv2c session, encoded and queued.
use tkined_remix.Prelude.{[], ◌∷◌}
use tkined_remix.Ber.Stream.{Ber}
use tkined_remix.Snmp.Queue.{Engine}

abbrev idle : Engine
idle = record {
  memory = λ k. record { active = 0; waiting = 0; window = 10; retries = 3; timeout = 5 };
  opened = 1 ∷ [];
  queue = [];
  sent = [];
}
