-- ===== src/Snmp/Decode/Termination.antt =====
-- DecodePDU of tnm/snmp/tnmSnmpRecv.c ends on every packet.
use tkined_remix.Prelude.{
  ℕ, zero, suc, ◌+◌, ◌-◌, ◌≤◌, ◌<◌, List, ◌≡◌, refl, arith, ◌≢◌, Bool-cases, inl, inr, length, leb,
  ltb, leb→gt, ◌==◌, ◌||◌,
}
use tkined_remix.Ber.Stream.{Ber, M, Outcome, ok, null, fault, spent, dec_peek, dec_done, ◌>>=◌}
use tkined_remix.Ber.Safety.{
  IsInside, IsLater, >>=-Keeps, >>-Keeps, pure-Keeps, dec_peek-Keeps, dec_sequence_start-Keeps,
  dec_sequence_end-Keeps, dec_oid-Keeps,
}
use tkined_remix.Ber.Ends.{
  Ends, Advances, pure-Ends, fail-Ends, fail_with-Ends, if-Ends, later, >>=-Ends, >>-Ends,
  >>=-Advances, dec_sequence_start-Advances, dec_peek-Ends, dec_int-Ends, dec_unsigned64-Ends,
  dec_octet_string-Ends, dec_null-Ends, dec_any-Ends, dec_sequence_start-Ends,
  dec_sequence_end-Ends,
}
use tkined_remix.Ber.Oid.Termination.{>>=-ne-spent, store-ne-spent, dec_oid-ne-spent}
use tkined_remix.Ber.Sequence.{dec_sequence_start}
use tkined_remix.Snmp.Decode.{
  VarBind, attempt, is_exception, is_pdu, decode_value, decode_binding, decode_varbind,
  decode_varbinds, trap_oid, decode_trap1, decode_rest, decode_trap1_list, decode_fields,
  peek_start, decode_pdu,
}
use tkined_remix.Snmp.Decode.Safety.{decode_binding-Keeps, decode_varbind-Keeps}

branch-Ends {ℓ κ} :
    {A : Type ℓ} {B : Type κ} {f : A → M B} {g : M B} (o : Outcome A)
    → o ≢ spent
    → ((a : A) → Ends (f a))
    → Ends g
    → (elim o [ ok a t ↦ f a t | null t ↦ g t | fault ↦ fault | spent ↦ spent ]) ≢ spent
branch-Ends (ok a t) h hf hg = hf a t
branch-Ends (null t) h hf hg = hg t
branch-Ends fault h hf hg = λ q. cc
branch-Ends spent h hf hg = absurd (h refl)

attempt-Ends {ℓ} : {A : Type ℓ} {m : M A} → Ends m → Ends (attempt m)
unfolding attempt
attempt-Ends {m} h s = branch-Ends (m s) (h s) (λ a. pure-Ends tt) (pure-Ends tt)

decode_value-Ends : (tag : ℕ) (oid : List ℕ) → Ends (decode_value tag oid)
unfolding decode_value
decode_value-Ends tag oid =
    if-Ends (tag == 0x41 || (tag == 0x42 || tag == 0x43))
      (>>=-Ends (dec_int-Ends tag) λ n. pure-Ends _)
      (if-Ends (tag == 2) (>>=-Ends (dec_int-Ends tag) λ n. pure-Ends _) (
        if-Ends (tag == 0x46) (>>=-Ends dec_unsigned64-Ends λ n. pure-Ends _) (
          if-Ends (tag == 5) (>>=-Ends (dec_null-Ends 5) λ n. pure-Ends _) (
            if-Ends (tag == 6) (>>=-Ends (dec_oid-ne-spent oid) λ (oid', n). pure-Ends _) (
              if-Ends (tag == 0x40)
                (>>=-Ends (dec_octet_string-Ends 0x40)
                  λ w. if-Ends (length w == 4) (pure-Ends _) fail-Ends)
                (if-Ends (tag == 0x44 || tag == 4)
                  (>>=-Ends (dec_octet_string-Ends tag) λ w. pure-Ends _)
                  (>>=-Ends dec_any-Ends λ w. pure-Ends _)))))))

decode_binding-Ends : (tag : ℕ) (oid : List ℕ) → Ends (decode_binding tag oid)
unfolding decode_binding
decode_binding-Ends tag oid =
    if-Ends (is_exception tag) (>>-Ends (attempt-Ends (dec_null-Ends tag)) (pure-Ends _))
      (decode_value-Ends tag oid)

decode_varbind-Ends : (oid : List ℕ) → Ends (decode_varbind oid)
unfolding decode_varbind
decode_varbind-Ends oid = >>=-Ends (dec_sequence_start-Ends 0x30) λ (token, len).
    >>=-Ends (dec_oid-ne-spent oid) λ (oid', n). >>=-Ends dec_peek-Ends λ tag.
      >>=-Ends (decode_binding-Ends tag oid')
        λ (v, oid''). >>-Ends (dec_sequence_end-Ends token len) (pure-Ends _)

-- A varbind that was read has taken a byte at least.
decode_varbind-Advances : (oid : List ℕ) → Advances (decode_varbind oid)
unfolding decode_varbind
decode_varbind-Advances oid =
    >>=-Advances (dec_sequence_start-Keeps 0x30) (dec_sequence_start-Advances 0x30) λ (token, len).
      >>=-Keeps (dec_oid-Keeps oid) λ (oid', n). >>=-Keeps dec_peek-Keeps λ tag.
        >>=-Keeps (decode_binding-Keeps tag oid')
          λ (v, oid''). >>-Keeps (dec_sequence_end-Keeps token len) (pure-Keeps _)

-- What follows a varbind ends, if it ends on the streams that have moved on.
after_varbind-ne-spent {ℓ} :
    {B : Type ℓ} (oid : List ℕ) (f : VarBind × List ℕ → M B) (s : Ber)
    → IsInside s
    → ((a : VarBind × List ℕ) (t : Ber) → IsLater s t → s.current < t.current → f a t ≢ spent)
    → (decode_varbind oid >>= f) s ≢ spent
after_varbind-ne-spent oid f s i h = go (decode_varbind oid s) refl
  where
    go :
        (o : Outcome (VarBind × List ℕ))
        → decode_varbind oid s ≡ o
        → (elim o [ ok a t ↦ f a t | null t ↦ null t | fault ↦ fault | spent ↦ spent ]) ≢ spent
    go (ok a t) e =
        h a t (later (decode_varbind-Keeps oid) s i a t e) (decode_varbind-Advances oid s i a t e)
    go (null t) e = λ q. cc
    go fault e = λ q. cc
    go spent e = absurd (decode_varbind-Ends oid s e)

-- Fuel for the bytes that are left is enough.
decode_varbinds-ne-spent :
    (fuel : ℕ) (oid : List ℕ) (s : Ber)
    → length s.mem - s.current ≤ fuel
    → decode_varbinds fuel oid s ≢ spent
unfolding decode_varbinds dec_done
decode_varbinds-ne-spent zero oid s h = elim (Bool-cases (leb (length s.mem) s.current)) [
  | inl r ↦ rw (r, decode_varbinds) (λ q. cc)
  | inr r ↦ absurd (omega (arith, leb→gt (length s.mem) s.current r))
]
decode_varbinds-ne-spent (suc fuel) oid s h = elim (Bool-cases (leb (length s.mem) s.current)) [
  | inl r ↦ rw (r, decode_varbinds) (λ q. cc)
  | inr r ↦
      rw (r, decode_varbinds)
        (after_varbind-ne-spent oid _ s (omega (arith, leb→gt (length s.mem) s.current r))
          λ (v, oid') t p lt.
            >>=-ne-spent (decode_varbinds fuel oid') _ t
              (decode_varbinds-ne-spent fuel oid' t
                (rw p.packet (omega (arith, leb→gt (length s.mem) s.current r))))
              λ vs u e q. cc)
]

trap_oid-Ends : (g c : ℕ) (oid : List ℕ) (n : ℕ) → Ends (trap_oid g c oid n)
unfolding trap_oid
trap_oid-Ends g c oid n = if-Ends (ltb g 6) (pure-Ends _) (
    >>=-Ends (store-ne-spent oid n 0)
      λ oid'. >>=-Ends (store-ne-spent oid' (n + 1) c) λ oid''. pure-Ends _)

decode_trap1-Ends : (oid : List ℕ) → Ends (decode_trap1 oid)
unfolding decode_trap1
decode_trap1-Ends oid = >>=-Ends (dec_oid-ne-spent oid) λ (oid', n).
    >>=-Ends (dec_octet_string-Ends 0x40) λ agent. >>=-Ends (dec_int-Ends 2) λ generic.
      >>=-Ends (dec_int-Ends 2) λ specific.
        if-Ends (length agent == 4)
          (>>=-Ends (dec_int-Ends 0x43)
            λ ticks. >>=-Ends (trap_oid-Ends generic specific oid' n) λ (toid, oid''). pure-Ends _)
          fail-Ends

decode_rest-Ends : (pdu vbl : ℕ × ℕ) (oid : List ℕ) → Ends (decode_rest pdu vbl oid)
unfolding decode_rest
decode_rest-Ends (token, len) (vbl, vbl_len) oid =
    >>=-Ends (λ s. decode_varbinds-ne-spent (length s.mem) oid s (omega arith))
      λ vs.
        >>-Ends (dec_sequence_end-Ends vbl vbl_len)
          (>>-Ends (dec_sequence_end-Ends token len) (pure-Ends vs))

decode_trap1_list-Ends :
    (pdu : ℕ × ℕ) (front : List VarBind) (e : VarBind) (oid : List ℕ)
    → Ends (decode_trap1_list pdu front e oid)
unfolding decode_trap1_list
decode_trap1_list-Ends pdu front e oid s =
    branch-Ends (dec_sequence_start 0x30 s) (dec_sequence_start-Ends 0x30 s)
      (λ vbl. >>=-Ends (decode_rest-Ends pdu vbl oid) λ vs. pure-Ends _) (pure-Ends front)

decode_fields-Ends : (kind : ℕ) (pdu : ℕ × ℕ) (oid : List ℕ) → Ends (decode_fields kind pdu oid)
unfolding decode_fields
decode_fields-Ends kind pdu oid = >>=-Ends (dec_int-Ends 2) λ id.
    >>=-Ends (dec_int-Ends 2) λ status. >>=-Ends (dec_int-Ends 2) λ index.
      if-Ends (ltb 18 status) (fail_with-Ends _) (
        >>=-Ends (dec_sequence_start-Ends 0x30)
          λ vbl. >>=-Ends (decode_rest-Ends pdu vbl oid) λ vs. pure-Ends _)

peek_start-Ends : Ends peek_start
unfolding peek_start
peek_start-Ends s =
    branch-Ends (dec_peek s) (dec_peek-Ends s)
      (λ b. >>=-Ends (dec_sequence_start-Ends b) λ (token, len). pure-Ends (b, token, len))
      (>>=-Ends (dec_sequence_start-Ends 0) λ (token, len). pure-Ends (0, token, len))

-- DecodePDU ends on every packet, from every position, with every array.
pub decode_pdu-ne-spent : (oid : List ℕ) (s : Ber) → decode_pdu oid s ≢ spent
unfolding decode_pdu
decode_pdu-ne-spent oid = >>=-Ends peek_start-Ends λ (kind, token, len).
    if-Ends (is_pdu kind)
      (if-Ends (kind == 0xa4)
        (>>=-Ends (decode_trap1-Ends oid) λ (front, e, oid').
          >>=-Ends (decode_trap1_list-Ends (token, len) front e oid') λ vs. pure-Ends _)
        (decode_fields-Ends kind (token, len) oid))
      (fail_with-Ends _)
