-- ===== src/Snmp/Message/Tests.antt =====
-- A SNMPv1 message, decoded, and the theorems about the decoder and the SNMPv3 header at concrete
-- inputs.
use tkined_remix.Prelude.{ℕ, zero, suc, List, [], ◌∷◌, ◌++◌, ◌≡◌, ◌≢◌, refl, arith, length}
use tkined_remix.Ber.Stream.{
  fault, Ber, ok, spent, no_message, create, dec_byte, dec_peek, expect_tag, dec_done,
}
use tkined_remix.Ber.Length.{dec_length}
use tkined_remix.Ber.Integer.{dec_int, dec_int_value, dec_int_loop}
use tkined_remix.Ber.Octets.{dec_octet_string, take_octets, dec_null}
use tkined_remix.Ber.Sequence.{dec_sequence_start, dec_sequence_end}
use tkined_remix.Ber.Oid.{dec_oid, dec_oid_loop, dec_rest_of_subid, dec_subid, split_first, store}
use tkined_remix.Ber.At.{at}
use tkined_remix.Ber.Safety.{IsSafe}
use tkined_remix.Snmp.Decode.{
  trap_oid, empty, decode_pdu, peek_start, is_pdu, decode_fields, decode_rest, decode_varbinds,
  decode_varbind, decode_binding, is_exception, decode_value,
}
use tkined_remix.Snmp.Decode.Trap.{trap_oid_overrun}
use tkined_remix.Snmp.Decode.Safety.{decode_pdu-Keeps}
use tkined_remix.Snmp.Decode.Termination.{decode_pdu-ne-spent}
use tkined_remix.Snmp.Message.{
  Decoded, community, decode_message, decode_header, decode_usm, decode_body, expect_done,
}
use tkined_remix.Snmp.Message.Safety.{decode_message-ne-spent, decode_message-whole}
use tkined_remix.Snmp.Encode.{Session, encode_header, encode_usm_sec_params}
use tkined_remix.Snmp.Encode.RoundTrip.{header_encoding, header_of, decode_header-encode_header}
use tkined_remix.Snmp.Encode.Usm.{IsSendable, usm_encoding, usm_of, decode_usm-encode_usm}

abbrev zeros : ℕ → List ℕ
zeros zero = []
zeros (suc n) = 0 ∷ zeros n

length-zeros : (n : ℕ) → length (zeros n) ≡ n
length-zeros zero = refl
length-zeros (suc n) = omega (arith, length-zeros n)

-- A get-request for 1.3.6.1.2.1.
abbrev get_request : List ℕ
get_request =
    0xa0 ∷ 0x16 ∷ 2 ∷ 1 ∷ 7 ∷ 2 ∷ 1 ∷ 0 ∷ 2 ∷ 1 ∷ 0 ∷ 0x30 ∷ 0x0b ∷ 0x30 ∷ 9 ∷ 6 ∷ 5 ∷ 0x2b ∷ 6 ∷ 1
    ∷ 2 ∷ 1 ∷ 5 ∷ 0 ∷ []

-- The same in a SNMPv1 message of the community "ab".
abbrev packet : List ℕ
packet = 0x30 ∷ 0x1f ∷ 2 ∷ 1 ∷ 0 ∷ 4 ∷ 2 ∷ 0x61 ∷ 0x62 ∷ get_request

abbrev request : Decoded
request = community 0 (0x61 ∷ 0x62 ∷ []) (record {
  kind = 0xa0;
  request_id = 7;
  error_status = 0;
  error_index = 0;
  varbinds = record { name = 1 ∷ 3 ∷ 6 ∷ 1 ∷ 2 ∷ 1 ∷ []; tag = 5; value = empty } ∷ [];
})

decoded : decode_message (zeros 128) (create packet) ≡ ok request (at packet [] no_message)
unfolding decode_message decode_body expect_done create dec_byte dec_peek expect_tag dec_done
    dec_length dec_int dec_int_value dec_int_loop dec_octet_string take_octets dec_null
    dec_sequence_start dec_sequence_end dec_oid dec_oid_loop dec_rest_of_subid dec_subid split_first
    store decode_pdu peek_start is_pdu decode_fields decode_rest decode_varbinds decode_varbind
    decode_binding is_exception decode_value
decoded = refl

decode_pdu-Keeps_example : IsSafe (create get_request) (decode_pdu (zeros 128) (create get_request))
unfolding create
decode_pdu-Keeps_example = decode_pdu-Keeps (zeros 128) (create get_request) (omega arith)

decode_pdu-ne-spent_example : decode_pdu (zeros 128) (create get_request) ≢ spent
decode_pdu-ne-spent_example = decode_pdu-ne-spent (zeros 128) (create get_request)

decode_message-ne-spent_example : decode_message (zeros 128) (create packet) ≢ spent
decode_message-ne-spent_example = decode_message-ne-spent (zeros 128) (create packet)

decode_message-whole_example :
    ((at packet [] no_message).mem ≡ (create packet).mem)
    × ((at packet [] no_message).current ≡ length (create packet).mem)
unfolding create
decode_message-whole_example =
    decode_message-whole (zeros 128) (create packet) request (at packet [] no_message) (omega arith)
      decoded

decode_header-encode_header_example :
    (encode_header 1 0xa0 7
        (at [] (zeros (length (header_encoding 1 0xa0 7)) ++ (0 ∷ [])) no_message)
      ≡ ok tt (at (header_encoding 1 0xa0 7) (0 ∷ []) no_message))
    × (decode_header (at [] (header_encoding 1 0xa0 7 ++ []) no_message)
        ≡ ok (header_of 1 0xa0 7) (at (header_encoding 1 0xa0 7) [] no_message))
decode_header-encode_header_example =
    decode_header-encode_header 1 0xa0 7 [] (zeros (length (header_encoding 1 0xa0 7))) (0 ∷ []) []
      [] no_message no_message (omega arith) (length-zeros _) (omega arith)

abbrev session : Session
session = record {
  security_level = 1;
  engine_id = 0x80 ∷ 0 ∷ 1 ∷ [];
  engine_boots = 5;
  engine_time = 300;
  user = 0x61 ∷ [];
}

session-IsSendable : IsSendable session
session-IsSendable = record {
  engine_short = omega arith;
  user_short = omega arith;
  boots_fit = omega arith;
  time_fits = omega arith;
}

decode_usm-encode_usm_example :
    (t : Ber) × (encode_usm_sec_params (zeros 16384) session 0xa0
      ≡ ok (usm_encoding session 0xa0) t)
    × (decode_usm (usm_encoding session 0xa0) (create []) ≡ ok (usm_of session 0xa0) (create []))
decode_usm-encode_usm_example =
    decode_usm-encode_usm (zeros 16384) session 0xa0 (create []) (length-zeros 16384)
      session-IsSendable

-- An enterprise that fills the array.
trap_oid_overrun_example : trap_oid 6 9 (zeros 128) 128 (create []) ≡ fault
trap_oid_overrun_example =
    trap_oid_overrun 6 9 (zeros 128) 128 (create []) (omega arith) (omega (arith, length-zeros 128))
