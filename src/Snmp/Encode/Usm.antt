-- ===== src/Snmp/Encode/Usm.antt =====
-- What EncodeUsmSecParams of tnm/snmp/tnmSnmpSend.c writes is what DecodeUsmSecParams of
-- tnm/snmp/tnmSnmpRecv.c reads.
use tkined_remix.Prelude.{
  ℕ, ◌+◌, ◌^◌, ◌<◌, ◌≤◌, List, [], ◌∷◌, ◌++◌, ◌≡◌, sym, ap, ◌∙◌, arith, length, length-append,
  append_assoc, append-nil, take, take-append_length, split_at, Bool, true, false, if◌then◌else◌,
  ◌==◌, ◌||◌,
}
use tkined_remix.Ber.Stream.{Ber, Outcome, ok, null, fault, spent, no_message, create, size}
use tkined_remix.Ber.At.{at}
use tkined_remix.Ber.Length.Encode.{length_octets, length-length_octets, extra_octets}
use tkined_remix.Ber.Integer.Encode.{int_encoding, int_octets, length-int_octets, int_size_cases}
use tkined_remix.Ber.Octets.RoundTrip.{octets_encoding}
use tkined_remix.Ber.Frames.{
  Writes, >>-Writes, enc_int-Writes, enc_octet_string-Writes, framed, sequence-Writes,
  ReadsAnywhere, >>=-Reads, dec_integer-Reads, >>=-last, closing, dec_octet_string-Reads,
  sequence-Reads,
}
use tkined_remix.Snmp.Encode.{
  Session, has_auth, max_packet, sent_boots, sent_time, auth_parameters, encode_usm_fields,
  encode_usm, encode_usm_sec_params,
}
use tkined_remix.Snmp.Message.{UsmParams, decode_usm_sec_params, decode_usm}

-- The parameters between their ends.
abbrev pub usm_content : Session → ℕ → List ℕ
usm_content s kind =
    octets_encoding 4 s.engine_id
    ++ (int_encoding 2 (sent_boots s kind)
        ++ (int_encoding 2 (sent_time s kind)
            ++ (octets_encoding 4 s.user
                ++ (octets_encoding 4 (auth_parameters s.security_level) ++ octets_encoding 4 []))))

abbrev pub usm_encoding : Session → ℕ → List ℕ
usm_encoding s kind = framed 0x30 (usm_content s kind)

-- What is told of a session.
abbrev pub usm_of : Session → ℕ → UsmParams
usm_of s kind = record {
  engine_id = s.engine_id;
  engine_boots = sent_boots s kind;
  engine_time = sent_time s kind;
  user = s.user;
}

-- A session whose names are short, and whose counters fit 32 bits.
pub record IsSendable (s : Session) : Type 0 where
  pub engine_short : length s.engine_id < 0x1000
  pub user_short : length s.user < 0x1000
  pub boots_fit : s.engine_boots < 2 ^ 32
  pub time_fits : s.engine_time < 2 ^ 32

sent_boots-fits : (s : Session) (kind : ℕ) → IsSendable s → sent_boots s kind < 2 ^ 32
unfolding sent_boots
sent_boots-fits s kind h = go (kind == 0xa2 || has_auth s.security_level)
  where
    go : (b : Bool) → (if b then s.engine_boots else 0) < 2 ^ 32
    go true = h.boots_fit
    go false = omega arith

sent_time-fits : (s : Session) (kind : ℕ) → IsSendable s → sent_time s kind < 2 ^ 32
unfolding sent_time
sent_time-fits s kind h = go (kind == 0xa2 || has_auth s.security_level)
  where
    go : (b : Bool) → (if b then s.engine_time else 0) < 2 ^ 32
    go true = h.time_fits
    go false = omega arith

length-auth_parameters : (level : ℕ) → length (auth_parameters level) ≤ 12
unfolding auth_parameters
length-auth_parameters level = go (has_auth level)
  where
    go :
        (b : Bool)
        → length {A = ℕ} (if b then 0 ∷ 0 ∷ 0 ∷ 0 ∷ 0 ∷ 0 ∷ 0 ∷ 0 ∷ 0 ∷ 0 ∷ 0 ∷ 0 ∷ [] else []) ≤ 12
    go true = omega arith
    go false = omega arith

extra_octets-IsSmall : (n : ℕ) → extra_octets n ≤ 3
extra_octets-IsSmall n = ground arith

-- The number of bytes of an octet string and of an integer.
length-octets_encoding :
    (tag : ℕ) (w rest : List ℕ)
    → length w < 0x1_0000
    → length (octets_encoding tag w ++ rest) ≤ length w + 5 + length rest
length-octets_encoding tag w rest h = omega (
  arith,
  length-length_octets (length w) (omega arith),
  extra_octets-IsSmall (length w),
  length-append (length_octets (length w)) w,
  length-append (length_octets (length w) ++ w) rest,
)

length-int_encoding :
    (tag v : ℕ) (rest : List ℕ) → length (int_encoding tag v ++ rest) ≤ 6 + length rest
length-int_encoding tag v rest =
    omega (arith, length-int_octets v, int_size_cases v, length-append (int_octets v) rest)

usm_content-IsShort : (s : Session) (kind : ℕ) → IsSendable s → length (usm_content s kind) < 16000
usm_content-IsShort s kind h =
    let tail₅ = octets_encoding 4 [] in
    let tail₄ = octets_encoding 4 (auth_parameters s.security_level) ++ tail₅ in
    let tail₃ = octets_encoding 4 s.user ++ tail₄ in
    let tail₂ = int_encoding 2 (sent_time s kind) ++ tail₃ in
    let tail₁ = int_encoding 2 (sent_boots s kind) ++ tail₂ in
    omega (
      arith,
      h.engine_short,
      h.user_short,
      length-auth_parameters s.security_level,
      length-octets_encoding 4 s.engine_id tail₁ (omega (arith, h.engine_short)),
      length-int_encoding 2 (sent_boots s kind) tail₂,
      length-int_encoding 2 (sent_time s kind) tail₃,
      length-octets_encoding 4 s.user tail₄ (omega (arith, h.user_short)),
      length-octets_encoding 4 (auth_parameters s.security_level) tail₅
          (omega (arith, length-auth_parameters s.security_level)),
      length-length_octets 0 (omega arith),
      length-append (length_octets 0) [],
    )

encode_usm-Writes :
    (s : Session) (kind : ℕ) → IsSendable s → Writes (encode_usm s kind) (usm_encoding s kind)
unfolding encode_usm encode_usm_fields
encode_usm-Writes s kind h = sequence-Writes 0x30 (omega (arith, usm_content-IsShort s kind h)) (
    >>-Writes (enc_octet_string-Writes 4 s.engine_id (omega (arith, h.engine_short))) (
      >>-Writes (enc_int-Writes 2 (sent_boots s kind) (sent_boots-fits s kind h)) (
        >>-Writes (enc_int-Writes 2 (sent_time s kind) (sent_time-fits s kind h)) (
          >>-Writes (enc_octet_string-Writes 4 s.user (omega (arith, h.user_short))) (
            >>-Writes
              (enc_octet_string-Writes 4 (auth_parameters s.security_level)
                (omega (arith, length-auth_parameters s.security_level)))
              (enc_octet_string-Writes 4 [] (omega arith)))))))

six :
    (a b c d e f : List ℕ)
    → length (a ++ (b ++ (c ++ (d ++ (e ++ f))))) ≡ length (((((a ++ b) ++ c) ++ d) ++ e) ++ f)
six a b c d e f = ap (length {A = ℕ}) (
    sym (append_assoc a b (c ++ (d ++ (e ++ f))))
    ∙ sym (append_assoc (a ++ b) c (d ++ (e ++ f)))
    ∙ sym (append_assoc ((a ++ b) ++ c) d (e ++ f))
    ∙ sym (append_assoc (((a ++ b) ++ c) ++ d) e f))

decode_usm-Reads :
    (s : Session) (kind : ℕ)
    → IsSendable s
    → ReadsAnywhere decode_usm_sec_params (usm_encoding s kind) (usm_of s kind)
unfolding decode_usm_sec_params
decode_usm-Reads s kind h =
    sequence-Reads 0x30 _ (usm_content s kind) (usm_of s kind)
      (omega (arith, usm_content-IsShort s kind h))
      λ pre.
        >>=-Reads _ (dec_octet_string-Reads 4 s.engine_id pre [] (omega (arith, h.engine_short))) (
          >>=-Reads _ (dec_integer-Reads (sent_boots s kind) pre _ (sent_boots-fits s kind h)) (
            >>=-Reads _ (dec_integer-Reads (sent_time s kind) pre _ (sent_time-fits s kind h)) (
              >>=-Reads _ (dec_octet_string-Reads 4 s.user pre _ (omega (arith, h.user_short))) (
                >>=-Reads _
                  (dec_octet_string-Reads 4 (auth_parameters s.security_level) pre _
                    (omega (arith, length-auth_parameters s.security_level)))
                  (>>=-last _ (dec_octet_string-Reads 4 [] pre _ (omega arith)) (
                    closing pre _ _ (usm_of s kind) (
                      six (octets_encoding 4 s.engine_id) (int_encoding 2 (sent_boots s kind))
                        (int_encoding 2 (sent_time s kind)) (octets_encoding 4 s.user)
                        (octets_encoding 4 (auth_parameters s.security_level))
                        (octets_encoding 4 []))))))))

-- The room in the static buffer.
usm_encoding-IsShort :
    (s : Session) (kind : ℕ) → IsSendable s → length (usm_encoding s kind) < max_packet
usm_encoding-IsShort s kind h = omega (
  arith,
  usm_content-IsShort s kind h,
  length-length_octets (length (usm_content s kind)) (omega (arith, usm_content-IsShort s kind h)),
  extra_octets-IsSmall (length (usm_content s kind)),
  length-append (length_octets (length (usm_content s kind))) (usm_content s kind),
)

-- The security parameters that EncodeUsmSecParams builds in its buffer of TNM_SNMP_MAXSIZE octets,
-- whatever this held before, are read by DecodeMessage's decoder of them as what the session tells.
pub decode_usm-encode_usm :
    (buffer : List ℕ) (s : Session) (kind : ℕ) (outer : Ber)
    → length buffer ≡ max_packet
    → IsSendable s
    → (t : Ber) × (encode_usm_sec_params buffer s kind ≡ ok (usm_encoding s kind) t)
      × (decode_usm (usm_encoding s kind) outer ≡ ok (usm_of s kind) outer)
unfolding encode_usm_sec_params decode_usm create size
decode_usm-encode_usm buffer s kind outer hb h =
    let (front, back, hf, q) =
      split_at (length (usm_encoding s kind)) buffer
        (omega (arith, usm_encoding-IsShort s kind h)) in
    let run : encode_usm s kind (create buffer) ≡ ok tt (at (usm_encoding s kind) back no_message) =
      ap (λ b. encode_usm s kind (at [] b no_message)) q
      ∙ (encode_usm-Writes s kind h).run [] front back no_message hf (
          omega (
            arith,
            ap (length {A = ℕ}) q,
            length-append front back,
            usm_encoding-IsShort s kind h,
          )) in
    (
      at (usm_encoding s kind) back no_message,
      ap wrote run
          ∙ ap (λ w. ok w (at (usm_encoding s kind) back no_message))
              (take-append_length (usm_encoding s kind) back),
      ap (λ b. decoded (decode_usm_sec_params (at [] b no_message)))
            (sym (append-nil (usm_encoding s kind)))
          ∙ ap decoded (decode_usm-Reads s kind h [] [] no_message),
    )
  where
    decoded : Outcome UsmParams → Outcome UsmParams
    decoded o = elim o [
      | ok usm t ↦ ok usm outer
      | null t ↦ null outer
      | fault ↦ fault
      | spent ↦ spent
    ]

    wrote : Outcome (Unit {0}) → Outcome (List ℕ)
    wrote o = elim o [
      | ok x t ↦ ok (take t.current t.mem) t
      | null t ↦ null t
      | fault ↦ fault
      | spent ↦ spent
    ]
