-- ===== src/Snmp/Message/Safety.antt =====
-- DecodeMessage of tnm/snmp/tnmSnmpRecv.c stays inside the packet and ends.
use tkined_remix.Prelude.{
  ℕ, List, Bool-cases, inl, inr, ◌≡◌, ◌≢◌, refl, ap, leb→le, arith, length, leb, ◌==◌, not,
  if◌then◌else◌, ◌||◌, ◌≤◌, true, false, Bool,
}
use mathlib.Core.Path.{subst}
use tkined_remix.Ber.Stream.{
  Ber, M, Outcome, ok, null, fault, spent, create, dec_done, text, pure, fail_with, ◌>>=◌, ◌>>◌,
}
use tkined_remix.Ber.Safety.{
  IsInside, IsSafe, ok_safe, null_safe, fault_safe, spent_safe, Keeps, IsLater-refl, pure-Keeps,
  fail_with-Keeps, fail-Keeps, if-Keeps, >>=-Keeps, >>-Keeps, dec_int-Keeps, dec_octet_string-Keeps,
  dec_sequence_start-Keeps, dec_sequence_end-Keeps,
}
use tkined_remix.Ber.Ends.{
  Ends, pure-Ends, fail-Ends, fail_with-Ends, if-Ends, later, >>=-Ends, >>-Ends, dec_int-Ends,
  dec_octet_string-Ends, dec_sequence_start-Ends, dec_sequence_end-Ends,
}
use tkined_remix.Ber.Integer.{dec_int}
use tkined_remix.Ber.Sequence.{dec_sequence_start, dec_sequence_end}
use tkined_remix.Snmp.Decode.Safety.{decode_pdu-Keeps}
use tkined_remix.Snmp.Decode.Termination.{decode_pdu-ne-spent}
use tkined_remix.Snmp.Message.{
  UsmParams, Decoded, is_small, decode_header, decode_usm_sec_params, decode_usm, decode_scoped_pdu,
  decode_body, expect_done, decode_message,
}

decode_header-Keeps : Keeps decode_header
unfolding decode_header
decode_header-Keeps = >>=-Keeps (dec_sequence_start-Keeps 0x30) λ (token, len).
    >>=-Keeps (dec_int-Keeps 2) λ id. >>=-Keeps (dec_int-Keeps 2) λ max_size.
      if-Keeps (is_small max_size) fail-Keeps (
        >>=-Keeps (dec_octet_string-Keeps 4) λ flags.
          if-Keeps (not (length flags == 1)) fail-Keeps (
            >>=-Keeps (dec_int-Keeps 2) λ model.
              if-Keeps (model == 3) (>>-Keeps (dec_sequence_end-Keeps token len) (pure-Keeps _))
                fail-Keeps))

decode_usm-Keeps : (param : List ℕ) → Keeps (decode_usm param)
unfolding decode_usm
decode_usm-Keeps param s h = go (decode_usm_sec_params (create param))
  where
    go :
        (o : Outcome UsmParams)
        → IsSafe s
            (elim o [ ok usm t ↦ ok usm s | null t ↦ null s | fault ↦ fault | spent ↦ spent ])
    go (ok usm t) = ok_safe (IsLater-refl s h)
    go (null t) = null_safe (IsLater-refl s h)
    go fault = fault_safe
    go spent = spent_safe

decode_scoped_pdu-Keeps : (oid : List ℕ) → Keeps (decode_scoped_pdu oid)
unfolding decode_scoped_pdu
decode_scoped_pdu-Keeps oid = >>=-Keeps (dec_sequence_start-Keeps 0x30) λ (token, len).
    >>=-Keeps (dec_octet_string-Keeps 4) λ engine. >>=-Keeps (dec_octet_string-Keeps 4) λ context.
      >>=-Keeps (decode_pdu-Keeps oid)
        λ pdu. >>-Keeps (dec_sequence_end-Keeps token len) (pure-Keeps _)

decode_body-Keeps : (version : ℕ) (oid : List ℕ) → Keeps (decode_body version oid)
unfolding decode_body
decode_body-Keeps version oid =
    if-Keeps (version == 0 || version == 1)
      (>>=-Keeps (dec_octet_string-Keeps 4)
        λ name. >>=-Keeps (decode_pdu-Keeps oid) λ pdu. pure-Keeps _)
      (if-Keeps (version == 3)
        (>>=-Keeps decode_header-Keeps λ header. >>=-Keeps (dec_octet_string-Keeps 4) λ param.
          >>=-Keeps (decode_usm-Keeps param)
            λ usm. >>=-Keeps (decode_scoped_pdu-Keeps oid) λ scoped. pure-Keeps _)
        (fail_with-Keeps _))

expect_done-Keeps : Keeps expect_done
unfolding expect_done
expect_done-Keeps s h = elim (Bool-cases (dec_done s)) [
  | inl r ↦ rw r (ok_safe (IsLater-refl s h))
  | inr r ↦ rw r (fail_with-Keeps _ s h)
]

-- Whatever the packet holds, DecodeMessage leaves its bytes as they are, and the position between
-- where it was and the end of the packet.
pub decode_message-Keeps : (oid : List ℕ) (s : Ber) → IsInside s → IsSafe s (decode_message oid s)
unfolding decode_message
decode_message-Keeps oid = >>=-Keeps (dec_sequence_start-Keeps 0x30) λ (token, len).
    >>=-Keeps (dec_int-Keeps 2) λ version. >>=-Keeps (decode_body-Keeps version oid) λ decoded.
      >>-Keeps (dec_sequence_end-Keeps token len) (>>-Keeps expect_done-Keeps (pure-Keeps decoded))

decode_header-Ends : Ends decode_header
unfolding decode_header
decode_header-Ends = >>=-Ends (dec_sequence_start-Ends 0x30) λ (token, len).
    >>=-Ends (dec_int-Ends 2) λ id. >>=-Ends (dec_int-Ends 2) λ max_size.
      if-Ends (is_small max_size) fail-Ends (
        >>=-Ends (dec_octet_string-Ends 4) λ flags. if-Ends (not (length flags == 1)) fail-Ends (
          >>=-Ends (dec_int-Ends 2) λ model.
            if-Ends (model == 3) (>>-Ends (dec_sequence_end-Ends token len) (pure-Ends _))
              fail-Ends))

decode_usm_sec_params-Ends : Ends decode_usm_sec_params
unfolding decode_usm_sec_params
decode_usm_sec_params-Ends = >>=-Ends (dec_sequence_start-Ends 0x30) λ (token, len).
    >>=-Ends (dec_octet_string-Ends 4) λ id. >>=-Ends (dec_int-Ends 2) λ boots.
      >>=-Ends (dec_int-Ends 2) λ time. >>=-Ends (dec_octet_string-Ends 4) λ user.
        >>=-Ends (dec_octet_string-Ends 4) λ auth.
          >>=-Ends (dec_octet_string-Ends 4)
            λ priv. >>-Ends (dec_sequence_end-Ends token len) (pure-Ends _)

decode_usm-Ends : (param : List ℕ) → Ends (decode_usm param)
unfolding decode_usm
decode_usm-Ends param s =
    go (decode_usm_sec_params (create param)) (decode_usm_sec_params-Ends (create param))
  where
    go :
        (o : Outcome UsmParams)
        → o ≢ spent
        → (elim o [ ok usm t ↦ ok usm s | null t ↦ null s | fault ↦ fault | spent ↦ spent ]) ≢ spent
    go (ok usm t) h = λ q. cc
    go (null t) h = λ q. cc
    go fault h = λ q. cc
    go spent h = h

decode_scoped_pdu-Ends : (oid : List ℕ) → Ends (decode_scoped_pdu oid)
unfolding decode_scoped_pdu
decode_scoped_pdu-Ends oid = >>=-Ends (dec_sequence_start-Ends 0x30) λ (token, len).
    >>=-Ends (dec_octet_string-Ends 4) λ engine. >>=-Ends (dec_octet_string-Ends 4) λ context.
      >>=-Ends (decode_pdu-ne-spent oid)
        λ pdu. >>-Ends (dec_sequence_end-Ends token len) (pure-Ends _)

decode_body-Ends : (version : ℕ) (oid : List ℕ) → Ends (decode_body version oid)
unfolding decode_body
decode_body-Ends version oid =
    if-Ends (version == 0 || version == 1)
      (>>=-Ends (dec_octet_string-Ends 4)
        λ name. >>=-Ends (decode_pdu-ne-spent oid) λ pdu. pure-Ends _)
      (if-Ends (version == 3)
        (>>=-Ends decode_header-Ends λ header. >>=-Ends (dec_octet_string-Ends 4) λ param.
          >>=-Ends (decode_usm-Ends param)
            λ usm. >>=-Ends (decode_scoped_pdu-Ends oid) λ scoped. pure-Ends _)
        (fail_with-Ends _))

expect_done-Ends : Ends expect_done
unfolding expect_done
expect_done-Ends s = elim (Bool-cases (dec_done s)) [
  | inl r ↦ rw r (λ q. cc)
  | inr r ↦ rw r (λ q. cc)
]

-- DecodeMessage ends on every packet, from every position, with every array.
pub decode_message-ne-spent : (oid : List ℕ) (s : Ber) → decode_message oid s ≢ spent
unfolding decode_message
decode_message-ne-spent oid = >>=-Ends (dec_sequence_start-Ends 0x30) λ (token, len).
    >>=-Ends (dec_int-Ends 2) λ version. >>=-Ends (decode_body-Ends version oid) λ decoded.
      >>-Ends (dec_sequence_end-Ends token len) (>>-Ends expect_done-Ends (pure-Ends decoded))

-- A function that succeeds only at the end of the packet.
abbrev Finishes {ℓ} : {A : Type ℓ} → M A → Type ℓ
Finishes m = (s : Ber) (a : _) (t : Ber) → m s ≡ ok a t → length t.mem ≤ t.current

>>=-Finishes {ℓ κ} :
    {A : Type ℓ} {B : Type κ} (m : M A) (f : A → M B)
    → ((a : A) → Finishes (f a))
    → Finishes (m >>= f)
>>=-Finishes {A} m f h s b u = go (m s)
  where
    go :
        (o : Outcome A)
        → (elim o [ ok a t ↦ f a t | null t ↦ null t | fault ↦ fault | spent ↦ spent ]) ≡ ok b u
        → length u.mem ≤ u.current
    go (ok a t) e = h a t b u e
    go (null t) e = absurd (cc)
    go fault e = absurd (cc)
    go spent e = absurd (cc)

last-Finishes : (d : Decoded) → Finishes (expect_done >> pure d)
unfolding expect_done dec_done
last-Finishes d s a t e = go (leb (length s.mem) s.current) refl e
  where
    go :
        (b : Bool)
        → b ≡ leb (length s.mem) s.current
        → (elim (if◌then◌else◌ {A = Outcome {0} (Unit {0})} b
            (ok tt s)
            (fail_with (text "message length does not match packet size") s)) [
              | ok x u ↦ ok d u
              | null u ↦ null u
              | fault ↦ fault
              | spent ↦ spent
            ])
          ≡ ok a t
        → length t.mem ≤ t.current
    go true h q =
        let same : s ≡ t = cc in
        subst (λ z. length z.mem ≤ z.current) same (leb→le (length s.mem) s.current (cc))
    go false h q = absurd (cc)

-- A message that is accepted lies in the packet that was received, byte for byte up to its end.
pub decode_message-whole :
    (oid : List ℕ) (s : Ber) (d : Decoded) (t : Ber)
    → IsInside s
    → decode_message oid s ≡ ok d t
    → (t.mem ≡ s.mem) × (t.current ≡ length s.mem)
unfolding decode_message
decode_message-whole oid s d t h e =
    let p = later (decode_message-Keeps oid) s h d t e in
    let q =
      >>=-Finishes (dec_sequence_start 0x30) _
        (λ (token, len). >>=-Finishes (dec_int 2) _ λ version.
          >>=-Finishes (decode_body version oid) _
            λ x. >>=-Finishes (dec_sequence_end token len) _ λ u. last-Finishes x)
        s d t e in
    (p.packet, omega (arith, p.inside, ap length p.packet))
