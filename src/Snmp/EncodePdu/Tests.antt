-- ===== src/Snmp/EncodePdu/Tests.antt =====
-- A request for sysDescr.0 on a SNMPv2c session.
use tkined_remix.Prelude.{[], ◌∷◌, ◌≡◌, ◌<◌, refl, arith, none, some, length, inr}
use tkined_remix.Ber.Stream.{Ber, fail}
use tkined_remix.Ber.Length.Encode.{length_octets}
use tkined_remix.Ber.Integer.Encode.{int_size, int_octets, low_octets}
use tkined_remix.Ber.Oid.Encode.{subid_octets, content_octets}
use tkined_remix.Snmp.OidText.{str_to_oid, str_to_oid_loop, without_dot}
use tkined_remix.Snmp.Decode.{is_pdu}
use tkined_remix.Snmp.Decode.VarBinds.{WireVarBind, IsVarBind, wire_null}
use tkined_remix.Snmp.Message.{community}
use tkined_remix.Snmp.Encode.{max_packet}
use tkined_remix.Snmp.EncodePdu.{
  Env, v2c, OutPdu, Sender, codes, is_get, oid_of, guess_type, pdu_v1,
}
use tkined_remix.Snmp.EncodePdu.Mapping.{IsV1, pdu_v1-IsV1}
use tkined_remix.Snmp.EncodePdu.Binding.{IsSpelled}
use tkined_remix.Snmp.EncodePdu.RoundTrip.{IsOutPdu, message_encoding}

-- Without a MIB, and with lists of one element.
abbrev pub bare : Env
bare = record {
  split_list = λ s. some (s ∷ []);
  get_int = λ s. none;
  enc_counter64 = λ s. fail;
  ip_address = λ s. none;
  mib_get_oid = λ s. none;
  mib_base_syntax = λ s. 0;
  mib_scan = λ name value. none;
  mib_find_type = λ s. none;
  sys_up_time = 4200;
  host_address = none;
}

abbrev pub request : OutPdu
request = record {
  kind = 0xa0;
  request_id = 4711;
  error_status = 0;
  error_index = 0;
  trap_oid = [];
  varbind = codes "1.3.6.1.2.1.1.1.0";
}

abbrev pub manager : Sender
manager = record {
  version = v2c;
  community = codes "public";
  context = [];
  enterprise = 1 ∷ 3 ∷ [];
  session = record {
    security_level = 0;
    engine_id = [];
    engine_boots = 0;
    engine_time = 0;
    user = [];
  };
}

abbrev pub description : WireVarBind
description = record { x = 1; y = 3; ops = 6 ∷ 1 ∷ 2 ∷ 1 ∷ 1 ∷ 1 ∷ 0 ∷ []; value = wire_null }

description-IsVarBind : IsVarBind description
unfolding length_octets content_octets subid_octets int_size int_octets low_octets
description-IsVarBind = record {
  first = omega arith;
  second = inr (omega arith);
  subids = omega arith;
  fits = omega arith;
  good = tt;
  short = omega arith;
}

description-IsSpelled : IsSpelled bare 0xa0 (codes "1.3.6.1.2.1.1.1.0") [] description
unfolding oid_of str_to_oid str_to_oid_loop without_dot guess_type is_get
description-IsSpelled = record {
  named = refl;
  typed = λ q. absurd (omega arith);
  asked = λ q. refl;
  told = λ q. absurd (cc);
}

pub request-IsOutPdu : IsOutPdu bare request (description ∷ [])
unfolding length_octets content_octets subid_octets int_size int_octets low_octets is_pdu
request-IsOutPdu = record {
  texts = codes "1.3.6.1.2.1.1.1.0" ∷ [];
  listed = refl;
  bindings = (
    record {
      name = codes "1.3.6.1.2.1.1.1.0";
      words = [];
      parts = refl;
      spelled = description-IsSpelled;
      good = description-IsVarBind;
    },
    tt,
  );
  sendable = record {
    known = refl;
    no_trap1 = λ q. absurd (omega arith);
    request_fits = omega arith;
    status_known = omega arith;
    index_fits = omega arith;
    good = (description-IsVarBind, tt);
    list_short = omega arith;
    short = omega arith;
  };
  no_inform = λ q. absurd (omega arith);
  no_trap2 = λ q. absurd (omega arith);
}

pub message_short : length (message_encoding 1 manager request (description ∷ [])) < max_packet
unfolding length_octets content_octets subid_octets int_size int_octets low_octets
message_short = omega arith

abbrev bulk_request : OutPdu
bulk_request = record request { kind = 0xa5; error_status = 0; error_index = 20 }

pdu_v1-IsV1_example :
    IsV1 (pdu_v1 bulk_request)
    × ((pdu_v1 bulk_request).request_id ≡ bulk_request.request_id)
    × ((pdu_v1 bulk_request).varbind ≡ bulk_request.varbind)
    × (IsV1 bulk_request → pdu_v1 bulk_request ≡ bulk_request)
pdu_v1-IsV1_example = pdu_v1-IsV1 bulk_request
