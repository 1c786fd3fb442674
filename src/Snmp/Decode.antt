-- ===== src/Snmp/Decode.antt =====
-- DecodePDU of tnm/snmp/tnmSnmpRecv.c. A varbind is kept as the identifier, the tag and the decoded
-- value; the texts that are made of them, with the help of the MIB, are not modelled, nor are the
-- statistics counters. A function that is refused leaves by `goto asn1Error`, so by `null`.
pub mod Safety
pub mod Termination
pub mod Trap
pub mod VarBinds
pub mod Pdus
mod Tests
use tkined_remix.Prelude.{
  ℕ, zero, suc, ◌+◌, List, [], ◌∷◌, ◌++◌, Bool, ltb, leb, ◌==◌, if◌then◌else◌, ◌||◌, ◌&&◌, true,
  false, length, take,
}
use tkined_remix.Ber.Stream.{
  Ber, M, ok, null, fault, spent, text, pure, fail, fail_with, ◌>>=◌, ◌>>◌, dec_peek, dec_done,
}
use tkined_remix.Ber.Integer.{dec_int, dec_unsigned64}
use tkined_remix.Ber.Octets.{dec_octet_string, dec_null, dec_any}
use tkined_remix.Ber.Sequence.{dec_sequence_start, dec_sequence_end}
use tkined_remix.Ber.Oid.{dec_oid, store}

-- A value by the branch of the switch on its tag. Integers are 32-bit patterns.
pub data Value : Type 0 where
  unsigned : ℕ → Value
  integer : ℕ → Value
  counter64 : ℕ → Value
  empty : Value
  identifier : List ℕ → Value
  address : List ℕ → Value
  octets : List ℕ → Value
  opaque : List ℕ → Value
  exception : ℕ → Value

pub record VarBind : Type 0 where
  pub name : List ℕ
  pub tag : ℕ
  pub value : Value

pub record Pdu : Type 0 where
  pub kind : ℕ
  pub request_id : ℕ
  pub error_status : ℕ
  pub error_index : ℕ
  pub varbinds : List VarBind

-- The result of a call that is not looked at.
unfoldable pub attempt {ℓ} : {A : Type ℓ} → M A → M (Unit {0})
attempt m s = elim (m s) [ ok a t ↦ ok tt t | null t ↦ ok tt t | fault ↦ fault | spent ↦ spent ]

-- tnmSnmpExceptionTable: noSuchObject, noSuchInstance, endOfMibView.
unfoldable pub is_exception : ℕ → Bool
is_exception tag = leb 0x80 tag && leb tag 0x82

-- tnmSnmpPDUTable: the tags from get to report.
unfoldable pub is_pdu : ℕ → Bool
is_pdu tag = leb 0xa0 tag && leb tag 0xa8

-- `switch (tag)` on the value of a varbind. The array `oid` is used again for an identifier.
unfoldable pub decode_value : ℕ → List ℕ → M (Value × List ℕ)
decode_value tag oid =
    if tag == 0x41 || (tag == 0x42 || tag == 0x43)
    then (do n ← dec_int tag; pure (unsigned n, oid))
    else if tag == 2
    then (do n ← dec_int tag; pure (integer n, oid))
    else if tag == 0x46
    then (do n ← dec_unsigned64; pure (counter64 n, oid))
    else if tag == 5
    then (do n ← dec_null 5; pure (empty, oid))
    else if tag == 6
    then (do (oid', n) ← dec_oid oid; pure (identifier (take n oid'), oid'))
    else if tag == 0x40
    then (do w ← dec_octet_string 0x40; if length w == 4 then pure (address w, oid) else fail)
    else if tag == 0x44 || tag == 4
    then (do w ← dec_octet_string tag; pure (octets w, oid))
    else (do w ← dec_any; pure (opaque w, oid))

-- A varbind that holds an exception has a NULL, whose decoding is not checked.
unfoldable pub decode_binding : ℕ → List ℕ → M (Value × List ℕ)
decode_binding tag oid =
    if is_exception tag
    then (do attempt (dec_null tag); pure (exception tag, oid))
    else decode_value tag oid

unfoldable pub decode_varbind : List ℕ → M (VarBind × List ℕ)
decode_varbind oid = do
  (token, len) ← dec_sequence_start 0x30
  (oid', n) ← dec_oid oid
  tag ← dec_peek
  (v, oid'') ← decode_binding tag oid'
  dec_sequence_end token len
  pure (record { name = take n oid'; tag = tag; value = v }, oid'')

-- `while (!TnmBerDecDone(ber))`: up to the end of the packet, whatever the length of the list is.
-- A round takes a byte at least, so the bytes of the packet are fuel enough.
unfoldable pub decode_varbinds : ℕ → List ℕ → M (List VarBind)
decode_varbinds zero oid = λ s. if dec_done s then ok [] s else spent
decode_varbinds (suc fuel) oid = λ s. elim (dec_done s) [
  | true ↦ ok [] s
  | false ↦ (do (v, oid') ← decode_varbind oid; vs ← decode_varbinds fuel oid'; pure (v ∷ vs)) s
]

-- 1.3.6.1.6.3.1.1.5.(g + 1), 1.3.6.1.2.1.1.3.0, 1.3.6.1.6.3.1.1.4.1.0 and 1.3.6.1.6.3.1.1.4.3.0.
abbrev pub snmp_traps : ℕ → List ℕ
snmp_traps g = 1 ∷ 3 ∷ 6 ∷ 1 ∷ 6 ∷ 3 ∷ 1 ∷ 1 ∷ 5 ∷ (g + 1) ∷ []

abbrev pub sys_up_time : List ℕ
sys_up_time = 1 ∷ 3 ∷ 6 ∷ 1 ∷ 2 ∷ 1 ∷ 1 ∷ 3 ∷ 0 ∷ []

abbrev pub snmp_trap_oid : List ℕ
snmp_trap_oid = 1 ∷ 3 ∷ 6 ∷ 1 ∷ 6 ∷ 3 ∷ 1 ∷ 1 ∷ 4 ∷ 1 ∷ 0 ∷ []

abbrev pub snmp_trap_enterprise : List ℕ
snmp_trap_enterprise = 1 ∷ 3 ∷ 6 ∷ 1 ∷ 6 ∷ 3 ∷ 1 ∷ 1 ∷ 4 ∷ 3 ∷ 0 ∷ []

-- `switch (generic)`: for an enterprise trap 0 and the specific number are stored behind the
-- enterprise, in the array that holds it.
unfoldable pub trap_oid : ℕ → ℕ → List ℕ → ℕ → M (List ℕ × List ℕ)
trap_oid generic specific oid n = if ltb generic 6 then pure (snmp_traps generic, oid) else (do
  oid' ← store oid n 0
  oid'' ← store oid' (n + 1) specific
  pure (take (n + 2) oid'', oid''))

-- The header of a SNMPv1 trap: the varbinds in front of the list, the enterprise that goes behind
-- it, and the array.
unfoldable pub decode_trap1 : List ℕ → M (List VarBind × VarBind × List ℕ)
decode_trap1 oid = do
  (oid', n) ← dec_oid oid
  agent ← dec_octet_string 0x40
  generic ← dec_int 2
  specific ← dec_int 2
  if length agent == 4
      then (do
        ticks ← dec_int 0x43
        (toid, oid'') ← trap_oid generic specific oid' n
        pure (
          record { name = sys_up_time; tag = 0x43; value = unsigned ticks }
              ∷ record { name = snmp_trap_oid; tag = 6; value = identifier toid }
              ∷ [],
          record { name = snmp_trap_enterprise; tag = 6; value = identifier (take n oid') },
          oid'',
        ))
      else fail

-- The varbind list and the two ends behind it: `vbl` is what opens the list.
unfoldable pub decode_rest : ℕ × ℕ → ℕ × ℕ → List ℕ → M (List VarBind)
decode_rest (token, len) (vbl, vbl_len) oid = do
  vs ← λ s. decode_varbinds (length s.mem) oid s
  dec_sequence_end vbl vbl_len
  dec_sequence_end token len
  pure vs

-- `trapError`: a SNMPv1 trap without a varbind list is accepted as it is.
unfoldable pub decode_trap1_list : ℕ × ℕ → List VarBind → VarBind → List ℕ → M (List VarBind)
decode_trap1_list pdu front enterprise oid s = elim (dec_sequence_start 0x30 s) [
  | ok vbl t ↦ (do vs ← decode_rest pdu vbl oid; pure (front ++ (vs ++ enterprise ∷ []))) t
  | null t ↦ ok front t
  | fault ↦ fault
  | spent ↦ spent
]

-- The branch for all other PDUs. A negative error status is a pattern above 18.
unfoldable pub decode_fields : ℕ → ℕ × ℕ → List ℕ → M Pdu
decode_fields kind pdu oid = do
  request_id ← dec_int 2
  error_status ← dec_int 2
  error_index ← dec_int 2
  if ltb 18 error_status then fail_with (text "unknown error status in SNMP PDU") else (do
    vbl ← dec_sequence_start 0x30
    vs ← decode_rest pdu vbl oid
    pure (record {
      kind = kind;
      request_id = request_id;
      error_status = error_status;
      error_index = error_index;
      varbinds = vs;
    }))

-- The start of the PDU: at the end of the packet the byte is not set, and the next call fails
-- before it reads it.
unfoldable pub peek_start : M (ℕ × ℕ × ℕ)
peek_start s = elim (dec_peek s) [
  | ok b t ↦ (do (token, len) ← dec_sequence_start b; pure (b, token, len)) t
  | null t ↦ (do (token, len) ← dec_sequence_start 0; pure (0, token, len)) t
  | fault ↦ fault
  | spent ↦ spent
]

-- `oid` is the array of DecodePDU, of TNM_OID_MAX_SIZE elements.
unfoldable pub decode_pdu : List ℕ → M Pdu
decode_pdu oid = do
  (kind, token, len) ← peek_start
  if is_pdu kind
      then (if kind == 0xa4
          then (do
            (front, enterprise, oid') ← decode_trap1 oid
            vs ← decode_trap1_list (token, len) front enterprise oid'
            pure (record {
              kind = kind;
              request_id = 0;
              error_status = 0;
              error_index = 0;
              varbinds = vs;
            }))
          else decode_fields kind (token, len) oid)
      else fail_with (text "unknown PDU tag in SNMP message")
