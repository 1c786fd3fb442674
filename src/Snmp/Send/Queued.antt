-- ===== src/Snmp/Send/Queued.antt =====
-- What TnmSnmpEncode of tnm/snmp/tnmSnmpSend.c queues is found by the identifier of the response, and
-- its packet is read as the PDU that was asked to be sent.
use tkined_remix.Prelude.{ℕ, List, some, ◌≡◌}
use tkined_remix.Ber.Stream.{Ber}
use tkined_remix.Snmp.Queue.{Request, find_request}

-- A request of the queue is found by its identifier, with its packet.
record IsFound (id : ℕ) (packet : List ℕ) (rs : List Request) : Type 0 where
  request : Request
  found : find_request id rs ≡ some request
  holds : request.packet ≡ packet
