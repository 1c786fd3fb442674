-- ===== src/Snmp/Decode/Pdus.antt =====
-- What DecodePDU of tnm/snmp/tnmSnmpRecv.c reads of a PDU that is encoded by the rules of BER and
-- ends the packet. (A SNMPv1 trap has another form.)
use tkined_remix.Prelude.{
  ℕ, ◌%◌, ◌^◌, ◌<◌, ◌≤◌, List, [], ◌∷◌, ◌++◌, ◌≡◌, refl, sym, ap, ◌∙◌, arith, length, length-append,
  append_assoc, append-nil, All, ge→ltb, true, false, ◌==◌, ◌≢◌,
}
use tkined_remix.Ber.Stream.{M, Message, ok, pure, ◌>>=◌, ◌>>◌}
use tkined_remix.Ber.At.{at, dec_peek-at}
use tkined_remix.Ber.Length.Encode.{length_octets}
use tkined_remix.Ber.Integer.Encode.{int_encoding}
use tkined_remix.Ber.Sequence.{dec_sequence_start, dec_sequence_end}
use tkined_remix.Ber.Sequence.RoundTrip.{dec_sequence_start-at, dec_sequence_end-at}
use tkined_remix.Ber.Oid.{max_size}
use tkined_remix.Ber.Frames.{framed, Reads, dec_integer-Reads}
use tkined_remix.Snmp.Decode.{
  Pdu, VarBind, is_pdu, decode_rest, decode_fields, peek_start, decode_pdu,
}
use tkined_remix.Snmp.Decode.VarBinds.{
  WireVarBind, IsVarBind, varbinds_encoding, varbinds_of, decode_varbinds-at, varbinds-IsEnough,
}

-- Behind `pre` and the bytes `c`, `m` reads `w` as `a`, if `w` is the rest of the packet.
pub record ReadsEnd {ℓ} {A : Type ℓ} (pre c : List ℕ) (m : M A) (w : List ℕ) (a : A) : Type ℓ where
  pub run : (e : Message) → m (at (pre ++ c) w e) ≡ ok a (at (pre ++ (c ++ w)) [] e)

pub >>=-ReadsEnd {ℓ κ} :
    {A : Type ℓ} {B : Type κ} {pre c : List ℕ} {m : M A} {w v : List ℕ} {a : A} {b : B}
    (f : A → M B)
    → Reads pre c m w a
    → ReadsEnd pre (c ++ w) (f a) v b
    → ReadsEnd pre c (m >>= f) (w ++ v) b
>>=-ReadsEnd {pre} {c} {w} {v} {b} f hm hf = record {
  run = λ e.
      rw (hm.run v e, ◌>>=◌) (hf.run e ∙ ap (λ t. ok b (at (pre ++ t) [] e)) (append_assoc c w v));
}

-- The varbind list and the two ends behind it, `c` behind the start of the PDU.
rest-at :
    (bs : List WireVarBind) (pdu c oid : List ℕ) (n : ℕ) (e : Message)
    → All IsVarBind bs
    → length oid ≡ max_size
    → n ≡ length (c ++ varbinds_encoding bs)
    → decode_rest
        (length pdu, n)
        (length (pdu ++ c), length (varbinds_encoding bs))
        oid
        (at (pdu ++ c) (varbinds_encoding bs) e)
      ≡ ok (varbinds_of bs) (at (pdu ++ (c ++ varbinds_encoding bs)) [] e)
unfolding decode_rest
rest-at bs pdu c oid n e h l hn =
    let w = varbinds_encoding bs in
    let enough : length bs ≤ length ((pdu ++ c) ++ w) =
      omega (arith, length-append (pdu ++ c) w, varbinds-IsEnough bs) in
    rw (decode_varbinds-at bs (length ((pdu ++ c) ++ w)) oid (pdu ++ c) e h l enough, ◌>>=◌)
      (rw (dec_sequence_end-at (pdu ++ c) w [] e, ◌>>◌)
        (ap (λ t. (dec_sequence_end (length pdu) n >> pure (varbinds_of bs)) (at t [] e))
            (append_assoc pdu c w)
          ∙ rw (hn, dec_sequence_end-at pdu (c ++ w) [] e, ◌>>◌) refl))

-- The list with its start.
list-ReadsEnd :
    (bs : List WireVarBind) (pdu c oid : List ℕ) (n : ℕ) (make : List VarBind → Pdu)
    → All IsVarBind bs
    → length oid ≡ max_size
    → length (varbinds_encoding bs) < 0x1_0000
    → n ≡ length (c ++ framed 0x30 (varbinds_encoding bs))
    → ReadsEnd pdu c
        (dec_sequence_start 0x30 >>= λ vbl.
          decode_rest (length pdu, n) vbl oid >>= λ vs. pure (make vs))
        (framed 0x30 (varbinds_encoding bs))
        (make (varbinds_of bs))
list-ReadsEnd bs pdu c oid n make h l hw hn = record {
  run = λ e.
      let w = varbinds_encoding bs in
      let head = 0x30 ∷ length_octets (length w) in
      let there : ((pdu ++ c) ++ 0x30 ∷ []) ++ length_octets (length w) ≡ pdu ++ (c ++ head) =
        append_assoc (pdu ++ c) (0x30 ∷ []) (length_octets (length w)) ∙ append_assoc pdu c head in
      let small : length w % 2 ^ 16 ≡ length w = omega arith in
      rw (dec_sequence_start-at 0x30 (length w) (pdu ++ c) w e (omega arith), ◌>>=◌)
        (rw (small, there)
          (rw
            (
              rest-at bs pdu (c ++ head) oid n e h l
                  (hn ∙ ap (length {A = ℕ}) (sym (append_assoc c head w))),
              ◌>>=◌,
            )
            (ap (λ t. ok (make (varbinds_of bs)) (at (pdu ++ t) [] e)) (append_assoc c head w))));
}

-- A PDU as a sender has it.
pub record WirePdu : Type 0 where
  pub kind : ℕ
  pub request_id : ℕ
  pub error_status : ℕ
  pub error_index : ℕ
  pub varbinds : List WireVarBind

abbrev pub pdu_content : WirePdu → List ℕ
pdu_content p =
    int_encoding 2 p.request_id
    ++ (int_encoding 2 p.error_status
        ++ (int_encoding 2 p.error_index ++ framed 0x30 (varbinds_encoding p.varbinds)))

abbrev pub pdu_encoding : WirePdu → List ℕ
pdu_encoding p = framed p.kind (pdu_content p)

abbrev pub pdu_of : WirePdu → Pdu
pdu_of p = record {
  kind = p.kind;
  request_id = p.request_id;
  error_status = p.error_status;
  error_index = p.error_index;
  varbinds = varbinds_of p.varbinds;
}

-- What a sender has to keep to.
pub record IsPdu (p : WirePdu) : Type 0 where
  pub known : is_pdu p.kind ≡ true
  pub no_trap1 : p.kind ≢ 0xa4
  pub request_fits : p.request_id < 2 ^ 32
  pub status_known : p.error_status ≤ 18
  pub index_fits : p.error_index < 2 ^ 32
  pub good : All IsVarBind p.varbinds
  pub list_short : length (varbinds_encoding p.varbinds) < 0x1_0000
  pub short : length (pdu_content p) < 0x1_0000

fields-ReadsEnd :
    (p : WirePdu) (pdu oid : List ℕ)
    → IsPdu p
    → length oid ≡ max_size
    → ReadsEnd pdu []
        (decode_fields p.kind (length pdu, length (pdu_content p)) oid)
        (pdu_content p)
        (pdu_of p)
unfolding decode_fields
fields-ReadsEnd p pdu oid h l =
    >>=-ReadsEnd _ (dec_integer-Reads p.request_id pdu [] h.request_fits) (
      >>=-ReadsEnd _ (dec_integer-Reads p.error_status pdu _ (omega (arith, h.status_known))) (
        >>=-ReadsEnd _ (dec_integer-Reads p.error_index pdu _ h.index_fits) (
          rw (ge→ltb 18 p.error_status h.status_known) (
            list-ReadsEnd p.varbinds pdu _ oid (length (pdu_content p))
              (λ vs. record {
                kind = p.kind;
                request_id = p.request_id;
                error_status = p.error_status;
                error_index = p.error_index;
                varbinds = vs;
              })
              h.good l h.list_short
              (four (int_encoding 2 p.request_id) (int_encoding 2 p.error_status)
                (int_encoding 2 p.error_index) (framed 0x30 (varbinds_encoding p.varbinds)))))))
  where
    four : (a b c d : List ℕ) → length (a ++ (b ++ (c ++ d))) ≡ length (((a ++ b) ++ c) ++ d)
    four a b c d =
        ap (length {A = ℕ}) (sym (append_assoc a b (c ++ d)) ∙ sym (append_assoc (a ++ b) c d))

peek_start-at :
    (tag : ℕ) (w pre : List ℕ) (e : Message)
    → length w < 0x1_0000
    → let head = (pre ++ tag ∷ []) ++ length_octets (length w) in
      peek_start (at pre (framed tag w) e) ≡ ok (tag, length head, length w) (at head w e)
unfolding peek_start
peek_start-at tag w pre e h =
    let small : length w % 2 ^ 16 ≡ length w = omega arith in
    rw (dec_peek-at pre tag (length_octets (length w) ++ w) e, peek_start)
      (rw (dec_sequence_start-at tag (length w) pre w e (omega arith), ◌>>=◌) (rw small refl))

-- A PDU of any type but the SNMPv1 trap that ends the packet, encoded by the rules of BER with
-- identifiers of at most 128 components and values of the types NULL, INTEGER, Gauge32, OCTET STRING
-- and IpAddress, is read by DecodePDU as it was sent, from any position and with any array of
-- TNM_OID_MAX_SIZE elements. An integer is a 32-bit pattern, a gauge is below 2 ^ 32 - 2 ^ 23, the
-- error status at most 18, and the PDU and its parts are below 65536 bytes.
pub decode_pdu-encoding :
    (p : WirePdu) (oid pre : List ℕ) (e : Message)
    → IsPdu p
    → length oid ≡ max_size
    → decode_pdu oid (at pre (pdu_encoding p) e) ≡ ok (pdu_of p) (at (pre ++ pdu_encoding p) [] e)
unfolding decode_pdu
decode_pdu-encoding p oid pre e h l =
    let w = pdu_content p in
    let head = (pre ++ p.kind ∷ []) ++ length_octets (length w) in
    let other : (p.kind == 0xa4) ≡ false = ground (arith, h.no_trap1) in
    rw (peek_start-at p.kind w pre e h.short, ◌>>=◌)
      (rw (h.known, other)
        (ap (λ t. decode_fields p.kind (length head, length w) oid (at t w e))
            (sym (append-nil head))
          ∙ (fields-ReadsEnd p head oid h l).run e
          ∙ ap (λ t. ok (pdu_of p) (at t [] e))
              (append_assoc (pre ++ p.kind ∷ []) (length_octets (length w)) w
                ∙ append_assoc pre (p.kind ∷ []) (length_octets (length w) ++ w))))
