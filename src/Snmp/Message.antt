-- ===== src/Snmp/Message.antt =====
-- DecodeMessage, DecodeHeader, DecodeUsmSecParams and DecodeScopedPDU of tnm/snmp/tnmSnmpRecv.c,
-- with the defaults of tnm/snmp/tnmSnmp.h: SNMPv1, SNMPv2c and SNMPv3. The message of a `null`
-- outcome of decode_message is the result that the interpreter is left with.
pub mod Safety
mod Tests
use tkined_remix.Prelude.{
  ℕ, ◌^◌, List, Bool, ltb, leb, ◌==◌, not, if◌then◌else◌, ◌||◌, length, get_or,
}
use tkined_remix.Ber.Stream.{
  Ber, M, ok, null, fault, spent, text, pure, fail, fail_with, ◌>>=◌, ◌>>◌, create, dec_done,
}
use tkined_remix.Ber.Integer.{dec_int}
use tkined_remix.Ber.Octets.{dec_octet_string}
use tkined_remix.Ber.Sequence.{dec_sequence_start, dec_sequence_end}
use tkined_remix.Snmp.Decode.{Pdu, decode_pdu}

pub record Header : Type 0 where
  pub msg_id : ℕ
  pub max_size : ℕ
  pub flags : ℕ

pub record UsmParams : Type 0 where
  pub engine_id : List ℕ
  pub engine_boots : ℕ
  pub engine_time : ℕ
  pub user : List ℕ

pub record ScopedPdu : Type 0 where
  pub engine : List ℕ
  pub context : List ℕ
  pub pdu : Pdu

-- What is read of a message: the community and the PDU, or the parts of a SNMPv3 message.
pub data Decoded : Type 0 where
  community : (version : ℕ) → List ℕ → Pdu → Decoded
  v3 : Header → UsmParams → ScopedPdu → Decoded

-- `msg->maxSize < 484` for an int.
unfoldable pub is_small : ℕ → Bool
is_small max_size = ltb max_size 484 || leb (2 ^ 31) max_size

-- TNM_SNMP_USM_SEC_MODEL is 3.
unfoldable pub decode_header : M Header
decode_header = do
  (token, len) ← dec_sequence_start 0x30
  msg_id ← dec_int 2
  max_size ← dec_int 2
  if is_small max_size then fail else (do
    flags ← dec_octet_string 4
    if not (length flags == 1) then fail else (do
      model ← dec_int 2
      if model == 3
          then (do
            dec_sequence_end token len
            pure (record { msg_id = msg_id; max_size = max_size; flags = get_or flags 0 0 }))
          else fail))

-- The authentication and privacy parameters are read and left aside.
unfoldable pub decode_usm_sec_params : M UsmParams
decode_usm_sec_params = do
  (token, len) ← dec_sequence_start 0x30
  engine_id ← dec_octet_string 4
  boots ← dec_int 2
  time ← dec_int 2
  user ← dec_octet_string 4
  authentication ← dec_octet_string 4
  privacy ← dec_octet_string 4
  dec_sequence_end token len
  pure (record { engine_id = engine_id; engine_boots = boots; engine_time = time; user = user })

-- The parameters stand in a stream of their own, which is gone behind them.
unfoldable pub decode_usm : List ℕ → M UsmParams
decode_usm param s = elim (decode_usm_sec_params (create param)) [
  | ok usm t ↦ ok usm s
  | null t ↦ null s
  | fault ↦ fault
  | spent ↦ spent
]

unfoldable pub decode_scoped_pdu : List ℕ → M ScopedPdu
decode_scoped_pdu oid = do
  (token, len) ← dec_sequence_start 0x30
  engine ← dec_octet_string 4
  context ← dec_octet_string 4
  pdu ← decode_pdu oid
  dec_sequence_end token len
  pure (record { engine = engine; context = context; pdu = pdu })

-- The branches on the version; 2 is SNMPv2U, which is not compiled in.
unfoldable pub decode_body : ℕ → List ℕ → M Decoded
decode_body version oid =
    if version == 0 || version == 1
    then (do name ← dec_octet_string 4; pdu ← decode_pdu oid; pure (community version name pdu))
    else if version == 3
    then (do
      header ← decode_header
      param ← dec_octet_string 4
      usm ← decode_usm param
      scoped ← decode_scoped_pdu oid
      pure (v3 header usm scoped))
    else fail_with (text "unknown version in SNMP message")

-- `lengthError`
unfoldable pub expect_done : M (Unit {0})
expect_done s =
    if dec_done s then ok tt s else fail_with (text "message length does not match packet size") s

-- `oid` is the array of DecodePDU, of TNM_OID_MAX_SIZE elements.
unfoldable pub decode_message : List ℕ → M Decoded
decode_message oid = do
  (token, len) ← dec_sequence_start 0x30
  version ← dec_int 2
  decoded ← decode_body version oid
  dec_sequence_end token len
  expect_done
  pure decoded
