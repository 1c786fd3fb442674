-- ===== src/Snmp/Decode/Tests.antt =====
-- A PDU with values of two types, and the theorem about its decoding.
use tkined_remix.Prelude.{ℕ, zero, suc, List, [], ◌∷◌, ◌≡◌, refl, arith, length, inr}
use tkined_remix.Ber.Stream.{ok, no_message}
use tkined_remix.Ber.At.{at}
use tkined_remix.Ber.Length.Encode.{length_octets}
use tkined_remix.Ber.Integer.Encode.{int_size, int_octets, low_octets}
use tkined_remix.Ber.Oid.Encode.{subid_octets, content_octets}
use tkined_remix.Snmp.Decode.{is_pdu, decode_pdu}
use tkined_remix.Snmp.Decode.VarBinds.{WireVarBind, IsVarBind, wire_null, wire_gauge}
use tkined_remix.Snmp.Decode.Pdus.{WirePdu, IsPdu, pdu_encoding, pdu_of, decode_pdu-encoding}

abbrev zeros : ℕ → List ℕ
zeros zero = []
zeros (suc n) = 0 ∷ zeros n

length-zeros : (n : ℕ) → length (zeros n) ≡ n
length-zeros zero = refl
length-zeros (suc n) = omega (arith, length-zeros n)

-- ifSpeed.1 and sysDescr.0
abbrev speed : WireVarBind
speed = record {
  x = 1;
  y = 3;
  ops = 6 ∷ 1 ∷ 2 ∷ 1 ∷ 2 ∷ 2 ∷ 1 ∷ 5 ∷ 1 ∷ [];
  value = wire_gauge 10000000;
}

abbrev description : WireVarBind
description = record { x = 1; y = 3; ops = 6 ∷ 1 ∷ 2 ∷ 1 ∷ 1 ∷ 1 ∷ 0 ∷ []; value = wire_null }

abbrev response : WirePdu
response = record {
  kind = 0xa2;
  request_id = 4711;
  error_status = 0;
  error_index = 0;
  varbinds = speed ∷ description ∷ [];
}

speed-IsVarBind : IsVarBind speed
unfolding length_octets content_octets subid_octets int_size int_octets low_octets
speed-IsVarBind = record {
  first = omega arith;
  second = inr (omega arith);
  subids = omega arith;
  fits = omega arith;
  good = omega arith;
  short = omega arith;
}

description-IsVarBind : IsVarBind description
unfolding length_octets content_octets subid_octets int_size int_octets low_octets
description-IsVarBind = record {
  first = omega arith;
  second = inr (omega arith);
  subids = omega arith;
  fits = omega arith;
  good = tt;
  short = omega arith;
}

response-IsPdu : IsPdu response
unfolding length_octets content_octets subid_octets int_size int_octets low_octets is_pdu
response-IsPdu = record {
  known = refl;
  no_trap1 = λ q. absurd (omega arith);
  request_fits = omega arith;
  status_known = omega arith;
  index_fits = omega arith;
  good = (speed-IsVarBind, (description-IsVarBind, tt));
  list_short = omega arith;
  short = omega arith;
}

decode_pdu-encoding_example :
    decode_pdu (zeros 128) (at [] (pdu_encoding response) no_message)
    ≡ ok (pdu_of response) (at (pdu_encoding response) [] no_message)
decode_pdu-encoding_example =
    decode_pdu-encoding response (zeros 128) [] no_message response-IsPdu (length-zeros 128)
