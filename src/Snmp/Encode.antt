-- ===== src/Snmp/Encode.antt =====
-- EncodeHeader and EncodeUsmSecParams of tnm/snmp/tnmSnmpSend.c. Of the session and the PDU these
-- are handed what they read.
pub mod RoundTrip
pub mod Usm
use tkined_remix.Prelude.{
  ℕ, ◌+◌, ◌/◌, ◌%◌, ◌^◌, List, [], ◌∷◌, Bool, ◌==◌, ◌||◌, not, if◌then◌else◌, length, take,
}
use tkined_remix.Ber.Stream.{
  Ber, M, Outcome, ok, null, fault, spent, pure, ◌>>=◌, ◌>>◌, create, size,
}
use tkined_remix.Ber.Integer.{enc_int}
use tkined_remix.Ber.Octets.{enc_octet_string}
use tkined_remix.Ber.Sequence.{enc_sequence_start, enc_sequence_end}

-- The fields of struct TnmSnmp that the SNMPv3 encoders read, with the octets of the Tcl objects.
pub record Session : Type 0 where
  pub security_level : ℕ
  pub engine_id : List ℕ
  pub engine_boots : ℕ
  pub engine_time : ℕ
  pub user : List ℕ

-- `securityLevel & TNM_SNMP_AUTH_MASK` and `securityLevel & TNM_SNMP_PRIV_MASK`, the low and the
-- high four bits of an octet.
unfoldable pub has_auth : ℕ → Bool
has_auth level = not (level % 16 == 0)

unfoldable pub has_priv : ℕ → Bool
has_priv level = not (level / 16 % 16 == 0)

-- get, get-next, get-bulk, set and inform.
unfoldable pub is_reportable : ℕ → Bool
is_reportable kind =
    kind == 0xa0 || (kind == 0xa1 || (kind == 0xa5 || (kind == 0xa3 || kind == 0xa6)))

-- TNM_SNMP_FLAG_REPORT, TNM_SNMP_FLAG_AUTH and TNM_SNMP_FLAG_PRIV are the bits 4, 1 and 2.
unfoldable pub header_flags : ℕ → ℕ → ℕ
header_flags level kind =
    (if is_reportable kind then 4 else 0)
    + (if has_auth level then 1 else 0)
    + (if has_priv level then 2 else 0)

-- TNM_SNMP_MAXSIZE
abbrev pub max_packet : ℕ
max_packet = 16384

-- Between the start and the end of the sequence.
unfoldable pub encode_header_fields : ℕ → ℕ → ℕ → M (Unit {0})
encode_header_fields level kind request_id = do
  enc_int 2 request_id
  enc_int 2 max_packet
  enc_octet_string 4 (header_flags level kind ∷ [])
  enc_int 2 3

unfoldable pub encode_header : ℕ → ℕ → ℕ → M (Unit {0})
encode_header level kind request_id = do
  token ← enc_sequence_start 0x30
  encode_header_fields level kind request_id
  enc_sequence_end token

-- The number of boots and the time of the engine: only a response or an authenticated message
-- tells them.
unfoldable pub sent_boots : Session → ℕ → ℕ
sent_boots session kind =
    if kind == 0xa2 || has_auth session.security_level then session.engine_boots else 0

unfoldable pub sent_time : Session → ℕ → ℕ
sent_time session kind =
    if kind == 0xa2 || has_auth session.security_level then session.engine_time else 0

-- `memset(zeros, 0, 12)`, or nothing.
unfoldable pub auth_parameters : ℕ → List ℕ
auth_parameters level =
    if has_auth level then 0 ∷ 0 ∷ 0 ∷ 0 ∷ 0 ∷ 0 ∷ 0 ∷ 0 ∷ 0 ∷ 0 ∷ 0 ∷ 0 ∷ [] else []

unfoldable pub encode_usm_fields : Session → ℕ → M (Unit {0})
encode_usm_fields session kind = do
  enc_octet_string 4 session.engine_id
  enc_int 2 (sent_boots session kind)
  enc_int 2 (sent_time session kind)
  enc_octet_string 4 session.user
  enc_octet_string 4 (auth_parameters session.security_level)
  enc_octet_string 4 []

unfoldable pub encode_usm : Session → ℕ → M (Unit {0})
encode_usm session kind = do
  token ← enc_sequence_start 0x30
  encode_usm_fields session kind
  enc_sequence_end token

-- `buffer` is the static buffer, with what the call before has left in it. The octets of the result
-- are those up to `*lengthPtr`.
unfoldable pub encode_usm_sec_params : List ℕ → Session → ℕ → Outcome (List ℕ)
encode_usm_sec_params buffer session kind = elim (encode_usm session kind (create buffer)) [
  | ok x t ↦ ok (take (size t) t.mem) t
  | null t ↦ null t
  | fault ↦ fault
  | spent ↦ spent
]
