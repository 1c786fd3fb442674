-- ===== src/Snmp/EncodePdu.antt =====
-- EncodePDU, EncodeScopedPDU and EncodeMessage of tnm/snmp/tnmSnmpSend.c, and the mapping of PDUs to
-- SNMPv1 in TnmSnmpEncode. What Tcl, the resolver, the clock and the MIB do is the parameter `Env`.
-- The messages that are left for the interpreter, of TnmBerGetError too, are left out.
pub mod Binding
pub mod RoundTrip
pub mod Mapping
pub mod Tests
use Prim.Native.Char.{code}
use tkined_remix.Prelude.{
  ℕ, zero, suc, ◌+◌, ◌-◌, ◌%◌, ◌^◌, String, List, [], ◌∷◌, Bool, true, false, Option, none, some,
  ltb, ◌==◌, not, ◌&&◌, ◌||◌, if◌then◌else◌, length, get_or, take,
}
use tkined_remix.Ber.Stream.{
  M, Outcome, ok, null, text, fault, spent, fail, fail_with, crash, pure, ◌>>=◌, ◌>>◌,
}
use tkined_remix.Ber.Integer.{enc_int}
use tkined_remix.Ber.Octets.{enc_octet_string, enc_null}
use tkined_remix.Ber.Oid.{max_size, enc_oid}
use tkined_remix.Ber.Sequence.{enc_sequence_start, enc_sequence_end}
use tkined_remix.Ber.Frames.{sequence}
use tkined_remix.Snmp.OidText.{is_digit, without_dot, str_to_oid}
use tkined_remix.Snmp.Hex.{hex_dec}
use tkined_remix.Snmp.Encode.{Session, encode_header, encode_usm_sec_params}

abbrev pub codes : String → List ℕ
codes String.[] = []
codes (String.◌∷◌ c s) = code c ∷ codes s

-- Tcl_SplitList, Tcl_GetInt (as a bit pattern), Tcl_GetDouble with TnmBerEncUnsigned64 behind it,
-- inet_addr with the check by sscanf, TnmMibGetOid, TnmMibGetBaseSyntax, TnmMibScan, the syntax of
-- TnmMibFindType, TnmSnmpSysUpTime, and TnmSetIPAddress of the own host.
pub record Env : Type 0 where
  pub split_list : List ℕ → Option (List (List ℕ))
  pub get_int : List ℕ → Option ℕ
  pub enc_counter64 : List ℕ → M (Unit {0})
  pub ip_address : List ℕ → Option (List ℕ)
  pub mib_get_oid : List ℕ → Option (List ℕ)
  pub mib_base_syntax : List ℕ → ℕ
  pub mib_scan : List ℕ → List ℕ → Option (List ℕ)
  pub mib_find_type : List ℕ → Option ℕ
  pub sys_up_time : ℕ
  pub host_address : Option (List ℕ)

pub data Version : Type 0 where
  v1 v2c v3 : Version

-- A PDU to be sent: trapOID and varbind are texts.
pub record OutPdu : Type 0 where
  pub kind : ℕ
  pub request_id : ℕ
  pub error_status : ℕ
  pub error_index : ℕ
  pub trap_oid : List ℕ
  pub varbind : List ℕ

unfoldable pub same_text : List ℕ → List ℕ → Bool
same_text [] [] = true
same_text [] (d ∷ t) = false
same_text (c ∷ s) [] = false
same_text (c ∷ s) (d ∷ t) = c == d && same_text s t

-- `strncmp(text, prefix, n) == 0` for a prefix of n characters.
unfoldable pub has_prefix : List ℕ → List ℕ → Bool
has_prefix [] t = true
has_prefix (c ∷ s) [] = false
has_prefix (c ∷ s) (d ∷ t) = c == d && has_prefix s t

-- TnmGetTableKey, without -1.
unfoldable pub table_key : List (ℕ × String) → List ℕ → Option ℕ
table_key [] value = none
table_key ((key, name) ∷ table) value =
    if same_text value (codes name) then some key else table_key table value

-- ASN1_OTHER is 0.
abbrev pub exception_table : List (ℕ × String)
exception_table = (0x80, "noSuchObject") ∷ (0x81, "noSuchInstance") ∷ (0x82, "endOfMibView") ∷ []

abbrev pub type_table : List (ℕ × String)
type_table =
    (0, "OTHER")
    ∷ (2, "Integer32")
    ∷ (2, "INTEGER")
    ∷ (4, "OCTET STRING")
    ∷ (5, "NULL")
    ∷ (6, "OBJECT IDENTIFIER")
    ∷ (0x30, "SEQUENCE")
    ∷ (0x30, "SEQUENCE OF")
    ∷ (0x40, "IpAddress")
    ∷ (0x40, "NetworkAddress")
    ∷ (0x41, "Counter32")
    ∷ (0x41, "Counter")
    ∷ (0x42, "Unsigned32")
    ∷ (0x42, "Gauge32")
    ∷ (0x42, "Gauge")
    ∷ (0x43, "TimeTicks")
    ∷ (0x44, "Opaque")
    ∷ (0x46, "Counter64")
    ∷ []

-- TnmSnmpGet; 0xaf is the PDU type get-range.
unfoldable pub is_get : ℕ → Bool
is_get kind = kind == 0xa0 || kind == 0xa1 || kind == 0xa5 || kind == 0xaf

-- The identifier of a text, by itself or by the MIB.
unfoldable pub oid_of : Env → List ℕ → Option (List ℕ)
oid_of env name = elim (str_to_oid name) [
  | some (oid, len) ↦ some (take len oid)
  | none ↦ elim (env.mib_get_oid name) [
    | none ↦ none
    | some tmp ↦ elim (str_to_oid tmp) [ none ↦ none | some (oid, len) ↦ some (take len oid) ]
  ]
]

-- The key of a type name; the exceptions count only in a response.
unfoldable pub type_key : ℕ → List ℕ → ℕ
type_key kind name = elim (if kind == 0xa2 then table_key exception_table name else none) [
  | some key ↦ key
  | none ↦ elim (table_key type_table name) [ some key ↦ key | none ↦ 0 ]
]

-- The type and the value of a varbind with the given words behind the name; 0 is ASN1_OTHER.
unfoldable pub guess_type : Env → ℕ → List ℕ → List (List ℕ) → ℕ × List ℕ
guess_type env kind name [] = (5, [])
guess_type env kind name (value ∷ []) = (env.mib_base_syntax name, value)
guess_type env kind name (type ∷ value ∷ more) = elim (type_key kind type == 0) [
  | false ↦ (type_key kind type, value)
  | true ↦ elim (env.mib_find_type type) [ none ↦ (0, value) | some syntax ↦ (syntax, value) ]
]

unfoldable pub int_of : Env → List ℕ → List ℕ → Option ℕ
int_of env name value = elim (env.get_int value) [
  | some v ↦ some v
  | none ↦ elim (env.mib_scan name value) [
    | none ↦ none
    | some [] ↦ none
    | some (c ∷ tmp) ↦ env.get_int (c ∷ tmp)
  ]
]

-- The octets of an OCTET STRING.
unfoldable pub octets_of : Env → List ℕ → List ℕ → Option (List ℕ)
octets_of env name [] = some []
octets_of env name (c ∷ value) = elim (env.mib_scan name (c ∷ value)) [
  | none ↦ hex_dec (c ∷ value)
  | some scan ↦ hex_dec scan
]

-- The two ways to write a result or to give up.
abbrev pub given {ℓ} : {A : Type ℓ} → Option A → (A → M (Unit {0})) → M (Unit {0})
given none f = fail
given (some a) f = f a

unfoldable pub encode_value : Env → Version → List ℕ → ℕ → List ℕ → M (Unit {0})
encode_value env version name type value =
    if type == 2 || type == 0x41 || type == 0x42 || type == 0x43
    then given (int_of env name value) (enc_int type)
    else if type == 0x46
    then elim version [ v1 ↦ fail | v2c ↦ env.enc_counter64 value | v3 ↦ env.enc_counter64 value ]
    else if type == 0x40
    then given (env.ip_address value) (enc_octet_string 0x40)
    else if type == 4
    then given (octets_of env name value) (enc_octet_string 4)
    else if type == 0x44
    then given (hex_dec value) (enc_octet_string 0x44)
    else if type == 6
    then given (oid_of env value) enc_oid
    else if type == 0x80 || type == 0x81 || type == 0x82 || type == 5
    then enc_null type
    else fail

-- Values are not encoded for retrieval operations.
unfoldable pub encode_guessed : Env → Version → ℕ → List ℕ → ℕ × List ℕ → M (Unit {0})
encode_guessed env version kind name (type, value) =
    if type == 0
    then fail
    else if is_get kind
    then enc_null 5
    else encode_value env version name type value

-- The name and the value of a varbind.
unfoldable pub encode_varbind_fields : Env → Version → ℕ → List ℕ → List (List ℕ) → M (Unit {0})
encode_varbind_fields env version kind name words =
    given (oid_of env name)
      λ oid. do enc_oid oid; encode_guessed env version kind name (guess_type env kind name words)

unfoldable pub encode_varbind : Env → Version → ℕ → List (List ℕ) → M (Unit {0})
encode_varbind env version kind [] = fail
encode_varbind env version kind (name ∷ words) =
    sequence 0x30 (encode_varbind_fields env version kind name words)

unfoldable pub encode_varbinds : Env → Version → ℕ → List (List ℕ) → M (Unit {0})
encode_varbinds env version kind [] = pure tt
encode_varbinds env version kind (vb ∷ vbs) =
    given (env.split_list vb) (encode_varbind env version kind)
    >> encode_varbinds env version kind vbs

-- What TnmStrToOid leaves in `*len` where it returns NULL.
unfoldable pub null_length : List ℕ → ℕ → ℕ
null_length [] len = len + 1
null_length (c ∷ s) len = elim (is_digit c) [
  | true ↦ null_length s len
  | false ↦ elim (c == b'.' && ltb len (max_size - 1)) [
    | true ↦ null_length s (len + 1)
    | false ↦ len
  ]
]

-- TnmBerEncOID refuses an identifier by its length before it reads through NULL.
abbrev pub enc_oid_text : List ℕ → M (Unit {0})
enc_oid_text name = elim (str_to_oid name) [
  | none ↦
      if ltb (null_length (without_dot name) 0) 2
      then fail_with (text "illegal OBJECT IDENTIFIER value")
      else crash
  | some (oid, len) ↦ enc_oid (take len oid)
]

-- sysUpTime.0 and snmpTrapOID.0
unfoldable pub encode_defaults : Env → OutPdu → M (Unit {0})
encode_defaults env pdu =
    sequence 0x30 (enc_oid_text (codes "1.3.6.1.2.1.1.3.0") >> enc_int 0x43 env.sys_up_time)
    >> sequence 0x30 (enc_oid_text (codes "1.3.6.1.6.3.1.1.4.1.0") >> enc_oid_text pdu.trap_oid)

unfoldable pub encode_list : Env → Version → OutPdu → M (Unit {0})
encode_list env version pdu = given (env.split_list pdu.varbind) λ vbs.
    (if pdu.kind == 0xa7 || pdu.kind == 0xa6 then encode_defaults env pdu else pure tt)
    >> encode_varbinds env version pdu.kind vbs

-- Behind the enterprise.
unfoldable pub encode_trap1_rest : Env → ℕ → ℕ → M (Unit {0})
encode_trap1_rest env generic specific = given env.host_address λ address. do
  enc_octet_string 0x40 address
  enc_int 2 generic
  enc_int 2 specific
  enc_int 0x43 env.sys_up_time

-- What is behind the start of a SNMPv1 trap, with the enterprise of the session.
unfoldable pub encode_trap1 : Env → List ℕ → OutPdu → M (Unit {0})
encode_trap1 env enterprise pdu = given (str_to_oid pdu.trap_oid) λ found.
    let (oid, len) = found in
    if ltb len 4
    then fail
    else (let last = get_or oid (len - 1) 0 in
        if has_prefix (codes "1.3.6.1.6.3.1.1.5") pdu.trap_oid
        then enc_oid enterprise >> encode_trap1_rest env ((last + (2 ^ 32 - 1)) % 2 ^ 32) 0
        else if has_prefix (codes "1.3.6.1.2.1.11.0") pdu.trap_oid
        then enc_oid enterprise >> encode_trap1_rest env last 0
        else enc_oid (take (len - 2) oid) >> encode_trap1_rest env 6 last)

unfoldable pub encode_fields : Env → List ℕ → OutPdu → M (Unit {0})
encode_fields env enterprise pdu =
    if pdu.kind == 0xa4
    then encode_trap1 env enterprise pdu
    else (do enc_int 2 pdu.request_id; enc_int 2 pdu.error_status; enc_int 2 pdu.error_index)

unfoldable pub encode_pdu : Env → Version → List ℕ → OutPdu → M (Unit {0})
encode_pdu env version enterprise pdu =
    sequence pdu.kind
      (encode_fields env enterprise pdu >> sequence 0x30 (encode_list env version pdu))

-- The fields of struct TnmSnmp that the encoders of a message read, with those for SNMPv3.
pub record Sender : Type 0 where
  pub version : Version
  pub community : List ℕ
  pub context : List ℕ
  pub enterprise : List ℕ
  pub session : Session

unfoldable pub encode_scoped_pdu : Env → Sender → OutPdu → M (Unit {0})
encode_scoped_pdu env sender pdu = sequence 0x30 (do
  enc_octet_string 4 sender.session.engine_id
  enc_octet_string 4 sender.context
  encode_pdu env sender.version sender.enterprise pdu)

-- The security parameters, built in the static buffer.
unfoldable pub enc_usm : List ℕ → Session → ℕ → M (Unit {0})
enc_usm buffer session kind s = elim (encode_usm_sec_params buffer session kind) [
  | ok param t ↦ enc_octet_string 4 param s
  | null t ↦ null s
  | fault ↦ fault
  | spent ↦ spent
]

unfoldable pub encode_community : Env → ℕ → Sender → OutPdu → M (Unit {0})
encode_community env number sender pdu = do
  enc_int 2 number
  enc_octet_string 4 sender.community
  encode_pdu env sender.version sender.enterprise pdu

unfoldable pub encode_body : Env → List ℕ → Version → Sender → OutPdu → M (Unit {0})
encode_body env buffer v1 sender pdu = encode_community env 0 sender pdu
encode_body env buffer v2c sender pdu = encode_community env 1 sender pdu
encode_body env buffer v3 sender pdu = do
  enc_int 2 3
  encode_header sender.session.security_level pdu.kind pdu.request_id
  enc_usm buffer sender.session pdu.kind
  encode_scoped_pdu env sender pdu

unfoldable pub encode_message : Env → List ℕ → Sender → OutPdu → M (Unit {0})
encode_message env buffer sender pdu =
    sequence 0x30 (encode_body env buffer sender.version sender pdu)

-- The error status that SNMPv1 has for one of SNMPv2, if it is above genErr as a signed int.
unfoldable pub status_v1 : ℕ → ℕ
status_v1 status =
    if not (ltb 5 status && ltb status (2 ^ 31))
    then status
    else if status == 6 || status == 11 || status == 16 || status == 17 || status == 18
    then 2
    else if status == 7 || status == 8 || status == 9 || status == 10 || status == 12
    then 3
    else 5

unfoldable pub without_bulk : OutPdu → OutPdu
without_bulk pdu =
    if pdu.kind == 0xa5 then record pdu { kind = 0xa1; error_status = 0; error_index = 0 } else pdu

unfoldable pub with_trap1 : OutPdu → OutPdu
with_trap1 pdu = if pdu.kind == 0xa6 || pdu.kind == 0xa7 then record pdu { kind = 0xa4 } else pdu

-- What TnmSnmpEncode makes of a PDU for a SNMPv1 session before it encodes it.
unfoldable pub pdu_v1 : OutPdu → OutPdu
pdu_v1 pdu =
    let mapped = with_trap1 (without_bulk pdu) in
    record mapped { error_status = status_v1 mapped.error_status }

unfoldable pub pdu_for : Version → OutPdu → OutPdu
pdu_for v1 pdu = pdu_v1 pdu
pdu_for v2c pdu = pdu
pdu_for v3 pdu = pdu
