-- ===== src/Snmp/Send.antt =====
-- TnmSnmpEncode of tnm/snmp/tnmSnmpSend.c up to the wait for the answer of a synchronous request:
-- the PDU is mapped, encoded, and sent or put into the queue of requests.
pub mod Queued
mod Tests
use tkined_remix.Prelude.{ℕ, List, [], ◌∷◌, Bool, true, false, ◌==◌, ◌||◌, if◌then◌else◌, take}
use tkined_remix.Ber.Stream.{Ber, Outcome, ok, null, fault, spent, create, size}
use tkined_remix.Snmp.OidText.{cleared}
use tkined_remix.Snmp.Encode.{max_packet}
use tkined_remix.Snmp.Queue.{Engine, create_request, queue_request}
use tkined_remix.Snmp.EncodePdu.{Env, OutPdu, Sender, pdu_for, encode_message}

-- TCL_ERROR from the encoder, the packet that is handed to TnmSnmpSend, or the queue with the
-- request.
pub data Sending : Type 0 where
  refused : Sending
  one_way : List ℕ → Sending
  queued : Engine → Sending

-- Traps, responses and reports.
unfoldable pub is_one_way : ℕ → Bool
is_one_way kind = kind == 0xa4 || kind == 0xa7 || kind == 0xa2 || kind == 0xa8

-- With a callback, for the session at the address k, and the request at the given address.
unfoldable pub send_packet : ℕ → ℕ → OutPdu → List ℕ → Engine → Sending
send_packet k address pdu packet engine =
    if is_one_way pdu.kind
    then one_way packet
    else queued (queue_request k (create_request address pdu.request_id packet) engine)

unfoldable pub encode : Env → List ℕ → ℕ → ℕ → Sender → OutPdu → Engine → Outcome Sending
encode env buffer k address sender pdu engine =
    let mapped = pdu_for sender.version pdu in
    elim (encode_message env buffer sender mapped (create (cleared max_packet))) [
      | ok x t ↦ ok (send_packet k address mapped (take (size t) t.mem) engine) t
      | null t ↦ ok refused t
      | fault ↦ fault
      | spent ↦ spent
    ]
