-- ===== src/Snmp/Encode/RoundTrip.antt =====
-- What EncodeHeader and EncodeUsmSecParams of tnm/snmp/tnmSnmpSend.c write is what DecodeHeader and
-- DecodeUsmSecParams of tnm/snmp/tnmSnmpRecv.c read.
use tkined_remix.Prelude.{
  ℕ, ◌^◌, ◌<◌, List, [], ◌∷◌, ◌++◌, ◌≡◌, sym, ap, ◌∙◌, arith, length, length-append, append_assoc,
}
use tkined_remix.Ber.Stream.{Message, ok}
use tkined_remix.Ber.At.{at}
use tkined_remix.Ber.Length.Encode.{length_octets, length-length_octets}
use tkined_remix.Ber.Integer.Encode.{int_encoding, int_octets, length-int_octets, int_size_cases}
use tkined_remix.Ber.Octets.RoundTrip.{octets_encoding}
use tkined_remix.Ber.Frames.{
  Writes, >>-Writes, enc_int-Writes, enc_octet_string-Writes, framed, sequence-Writes,
  ReadsAnywhere, >>=-Reads, dec_integer-Reads, >>=-last, closing, dec_octet_string-Reads,
  sequence-Reads,
}
use tkined_remix.Snmp.Encode.{header_flags, max_packet, encode_header_fields, encode_header}
use tkined_remix.Snmp.Message.{Header, is_small, decode_header}

-- The header between its ends.
abbrev pub header_content : ℕ → ℕ → ℕ → List ℕ
header_content level kind id =
    int_encoding 2 id
    ++ (int_encoding 2 max_packet
        ++ (octets_encoding 4 (header_flags level kind ∷ []) ++ int_encoding 2 3))

abbrev pub header_encoding : ℕ → ℕ → ℕ → List ℕ
header_encoding level kind id = framed 0x30 (header_content level kind id)

abbrev pub header_of : ℕ → ℕ → ℕ → Header
header_of level kind id = record {
  msg_id = id;
  max_size = max_packet;
  flags = header_flags level kind;
}

length-header_content : (level kind id : ℕ) → length (header_content level kind id) < 0x80
length-header_content level kind id = omega (
  arith,
  length-int_octets id,
  int_size_cases id,
  length-int_octets max_packet,
  int_size_cases max_packet,
  length-length_octets 1,
  length-int_octets 3,
  int_size_cases 3,
  length-append (int_octets id) (
      int_encoding 2 max_packet
      ++ (octets_encoding 4 (header_flags level kind ∷ []) ++ int_encoding 2 3)),
  length-append (int_octets max_packet)
      (octets_encoding 4 (header_flags level kind ∷ []) ++ int_encoding 2 3),
  length-append (length_octets 1 ++ header_flags level kind ∷ []) (int_encoding 2 3),
  length-append (length_octets 1) (header_flags level kind ∷ []),
)

encode_header-Writes :
    (level kind id : ℕ)
    → id < 2 ^ 32
    → Writes (encode_header level kind id) (header_encoding level kind id)
unfolding encode_header encode_header_fields
encode_header-Writes level kind id h =
    sequence-Writes 0x30 (omega (arith, length-header_content level kind id)) (
      >>-Writes (enc_int-Writes 2 id h) (
        >>-Writes (enc_int-Writes 2 max_packet (omega arith)) (
          >>-Writes (enc_octet_string-Writes 4 (header_flags level kind ∷ []) (omega arith))
            (enc_int-Writes 2 3 (omega arith)))))

-- The pieces of a sequence, in the order in which they are read.
four : (a b c d : List ℕ) → length (a ++ (b ++ (c ++ d))) ≡ length (((a ++ b) ++ c) ++ d)
four a b c d =
    ap (length {A = ℕ}) (sym (append_assoc a b (c ++ d)) ∙ sym (append_assoc (a ++ b) c d))

decode_header-Reads :
    (level kind id : ℕ)
    → id < 2 ^ 32
    → ReadsAnywhere decode_header (header_encoding level kind id) (header_of level kind id)
unfolding decode_header is_small
decode_header-Reads level kind id h =
    sequence-Reads 0x30 _ (header_content level kind id) (header_of level kind id)
      (omega (arith, length-header_content level kind id))
      λ pre. >>=-Reads _ (dec_integer-Reads id pre [] h) (
        >>=-Reads _ (dec_integer-Reads max_packet pre _ (omega arith)) (
          >>=-Reads _ (dec_octet_string-Reads 4 (header_flags level kind ∷ []) pre _ (omega arith))
            (>>=-last _ (dec_integer-Reads 3 pre _ (omega arith)) (
              closing pre _ _ (header_of level kind id) (
                four (int_encoding 2 id) (int_encoding 2 max_packet)
                  (octets_encoding 4 (header_flags level kind ∷ [])) (int_encoding 2 3))))))

-- The SNMPv3 header that EncodeHeader writes into any buffer with room, for any security level, PDU
-- type and 32-bit request identifier, is read back by DecodeHeader from any packet: the identifier,
-- the size TNM_SNMP_MAXSIZE and the flags.
pub decode_header-encode_header :
    (level kind id : ℕ) (pre gap post pre' post' : List ℕ) (e e' : Message)
    → id < 2 ^ 32
    → length gap ≡ length (header_encoding level kind id)
    → 0 < length post
    → (encode_header level kind id (at pre (gap ++ post) e)
        ≡ ok tt (at (pre ++ header_encoding level kind id) post e))
      × (decode_header (at pre' (header_encoding level kind id ++ post') e')
          ≡ ok (header_of level kind id) (at (pre' ++ header_encoding level kind id) post' e'))
decode_header-encode_header level kind id pre gap post pre' post' e e' h hg hp = (
  (encode_header-Writes level kind id h).run pre gap post e hg hp,
  decode_header-Reads level kind id h pre' post' e',
)
