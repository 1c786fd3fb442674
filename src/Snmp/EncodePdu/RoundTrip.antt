-- ===== src/Snmp/EncodePdu/RoundTrip.antt =====
-- A message that EncodeMessage of tnm/snmp/tnmSnmpSend.c writes for a SNMPv1 or SNMPv2c session is
-- read by DecodeMessage of tnm/snmp/tnmSnmpRecv.c as it was sent.
use tkined_remix.Prelude.{ℕ, List, ◌++◌, some, ◌≡◌, ◌≢◌}
use tkined_remix.Ber.Stream.{Ber, Message}
use tkined_remix.Ber.Integer.Encode.{int_encoding}
use tkined_remix.Ber.Octets.RoundTrip.{octets_encoding}
use tkined_remix.Ber.Frames.{framed}
use tkined_remix.Snmp.Decode.VarBinds.{WireVarBind}
use tkined_remix.Snmp.Decode.Pdus.{WirePdu, IsPdu, pdu_encoding}
use tkined_remix.Snmp.Message.{community}
use tkined_remix.Snmp.EncodePdu.{Env, Version, v1, v2c, v3, OutPdu, Sender}
use tkined_remix.Snmp.EncodePdu.Binding.{AreBindings}

-- The PDU whose varbinds are given.
abbrev pub wire_of : OutPdu → List WireVarBind → WirePdu
wire_of pdu bs = record {
  kind = pdu.kind;
  request_id = pdu.request_id;
  error_status = pdu.error_status;
  error_index = pdu.error_index;
  varbinds = bs;
}

-- A PDU that is no notification, whose varbind text is a list of texts that spell the varbinds.
pub record IsOutPdu (env : Env) (pdu : OutPdu) (bs : List WireVarBind) : Type 0 where
  pub texts : List (List ℕ)
  pub listed : env.split_list pdu.varbind ≡ some texts
  pub bindings : AreBindings env pdu.kind texts bs
  pub sendable : IsPdu (wire_of pdu bs)
  pub no_inform : pdu.kind ≢ 0xa6
  pub no_trap2 : pdu.kind ≢ 0xa7

abbrev pub message_content : ℕ → Sender → OutPdu → List WireVarBind → List ℕ
message_content number sender pdu bs =
    int_encoding 2 number ++ (octets_encoding 4 sender.community ++ pdu_encoding (wire_of pdu bs))

abbrev pub message_encoding : ℕ → Sender → OutPdu → List WireVarBind → List ℕ
message_encoding number sender pdu bs = framed 0x30 (message_content number sender pdu bs)

-- The number of a version whose messages carry a community.
abbrev pub HasNumber : Version → ℕ → Type 0
HasNumber v1 n = n ≡ 0
HasNumber v2c n = n ≡ 1
HasNumber v3 n = ⊥
