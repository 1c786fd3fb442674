-- ===== src/Snmp/Decode/Safety.antt =====
-- DecodePDU of tnm/snmp/tnmSnmpRecv.c stays inside the packet.
use tkined_remix.Prelude.{
  ℕ, zero, suc, ◌+◌, List, Bool-cases, inl, inr, length, ltb, ◌∷◌, ◌==◌, ◌||◌,
}
use tkined_remix.Ber.Stream.{Ber, M, Outcome, ok, null, fault, spent, dec_done}
use tkined_remix.Ber.Safety.{
  IsInside, IsSafe, ok_safe, null_safe, fault_safe, spent_safe, Keeps, IsLater-refl, IsSafe-trans,
  pure-Keeps, fail_with-Keeps, fail-Keeps, if-Keeps, >>=-Keeps, >>-Keeps, dec_peek-Keeps,
  dec_int-Keeps, dec_unsigned64-Keeps, dec_octet_string-Keeps, dec_null-Keeps, dec_any-Keeps,
  dec_sequence_start-Keeps, dec_sequence_end-Keeps, store-Keeps, dec_oid-Keeps,
}
use tkined_remix.Snmp.Decode.{
  VarBind, attempt, is_exception, is_pdu, decode_value, decode_binding, decode_varbind,
  decode_varbinds, trap_oid, decode_trap1, decode_rest, decode_trap1_list, decode_fields,
  peek_start, decode_pdu,
}

-- A call whose NULL is looked at.
branch-IsSafe {ℓ κ} :
    {A : Type ℓ} {B : Type κ} {f : A → M B} {g : M B} {s : Ber} {o : Outcome A}
    → IsSafe s o
    → ((a : A) → Keeps (f a))
    → Keeps g
    → IsSafe s (elim o [ ok a t ↦ f a t | null t ↦ g t | fault ↦ fault | spent ↦ spent ])
branch-IsSafe {f} (ok_safe {a} {t} p) hf hg = IsSafe-trans (f a t) p (hf a t p.inside)
branch-IsSafe {g} (null_safe {t} p) hf hg = IsSafe-trans (g t) p (hg t p.inside)
branch-IsSafe fault_safe hf hg = fault_safe
branch-IsSafe spent_safe hf hg = spent_safe

attempt-Keeps {ℓ} : {A : Type ℓ} {m : M A} → Keeps m → Keeps (attempt m)
unfolding attempt
attempt-Keeps h s i = branch-IsSafe (h s i) (λ a. pure-Keeps tt) (pure-Keeps tt)

decode_value-Keeps : (tag : ℕ) (oid : List ℕ) → Keeps (decode_value tag oid)
unfolding decode_value
decode_value-Keeps tag oid =
    if-Keeps (tag == 0x41 || (tag == 0x42 || tag == 0x43))
      (>>=-Keeps (dec_int-Keeps tag) λ n. pure-Keeps _)
      (if-Keeps (tag == 2) (>>=-Keeps (dec_int-Keeps tag) λ n. pure-Keeps _) (
        if-Keeps (tag == 0x46) (>>=-Keeps dec_unsigned64-Keeps λ n. pure-Keeps _) (
          if-Keeps (tag == 5) (>>=-Keeps (dec_null-Keeps 5) λ n. pure-Keeps _) (
            if-Keeps (tag == 6) (>>=-Keeps (dec_oid-Keeps oid) λ (oid', n). pure-Keeps _) (
              if-Keeps (tag == 0x40)
                (>>=-Keeps (dec_octet_string-Keeps 0x40)
                  λ w. if-Keeps (length w == 4) (pure-Keeps _) fail-Keeps)
                (if-Keeps (tag == 0x44 || tag == 4)
                  (>>=-Keeps (dec_octet_string-Keeps tag) λ w. pure-Keeps _)
                  (>>=-Keeps dec_any-Keeps λ w. pure-Keeps _)))))))

pub decode_binding-Keeps : (tag : ℕ) (oid : List ℕ) → Keeps (decode_binding tag oid)
unfolding decode_binding
decode_binding-Keeps tag oid =
    if-Keeps (is_exception tag) (>>-Keeps (attempt-Keeps (dec_null-Keeps tag)) (pure-Keeps _))
      (decode_value-Keeps tag oid)

pub decode_varbind-Keeps : (oid : List ℕ) → Keeps (decode_varbind oid)
unfolding decode_varbind
decode_varbind-Keeps oid = >>=-Keeps (dec_sequence_start-Keeps 0x30) λ (token, len).
    >>=-Keeps (dec_oid-Keeps oid) λ (oid', n). >>=-Keeps dec_peek-Keeps λ tag.
      >>=-Keeps (decode_binding-Keeps tag oid')
        λ (v, oid''). >>-Keeps (dec_sequence_end-Keeps token len) (pure-Keeps _)

decode_varbinds-Keeps : (fuel : ℕ) (oid : List ℕ) → Keeps (decode_varbinds fuel oid)
unfolding decode_varbinds
decode_varbinds-Keeps zero oid s h = elim (Bool-cases (dec_done s)) [
  | inl r ↦ rw (r, decode_varbinds) (ok_safe (IsLater-refl s h))
  | inr r ↦ rw (r, decode_varbinds) spent_safe
]
decode_varbinds-Keeps (suc fuel) oid s h = elim (Bool-cases (dec_done s)) [
  | inl r ↦ rw (r, decode_varbinds) (ok_safe (IsLater-refl s h))
  | inr r ↦
      rw (r, decode_varbinds)
        (>>=-Keeps (decode_varbind-Keeps oid)
          (λ (v, oid'). >>=-Keeps (decode_varbinds-Keeps fuel oid') λ vs. pure-Keeps (v ∷ vs)) s h)
]

trap_oid-Keeps : (g c : ℕ) (oid : List ℕ) (n : ℕ) → Keeps (trap_oid g c oid n)
unfolding trap_oid
trap_oid-Keeps g c oid n = if-Keeps (ltb g 6) (pure-Keeps _) (
    >>=-Keeps (store-Keeps oid n 0)
      λ oid'. >>=-Keeps (store-Keeps oid' (n + 1) c) λ oid''. pure-Keeps _)

decode_trap1-Keeps : (oid : List ℕ) → Keeps (decode_trap1 oid)
unfolding decode_trap1
decode_trap1-Keeps oid = >>=-Keeps (dec_oid-Keeps oid) λ (oid', n).
    >>=-Keeps (dec_octet_string-Keeps 0x40) λ agent. >>=-Keeps (dec_int-Keeps 2) λ generic.
      >>=-Keeps (dec_int-Keeps 2) λ specific.
        if-Keeps (length agent == 4)
          (>>=-Keeps (dec_int-Keeps 0x43) λ ticks.
            >>=-Keeps (trap_oid-Keeps generic specific oid' n) λ (toid, oid''). pure-Keeps _)
          fail-Keeps

decode_rest-Keeps : (pdu vbl : ℕ × ℕ) (oid : List ℕ) → Keeps (decode_rest pdu vbl oid)
unfolding decode_rest
decode_rest-Keeps (token, len) (vbl, vbl_len) oid =
    >>=-Keeps (λ s. decode_varbinds-Keeps (length s.mem) oid s)
      λ vs.
        >>-Keeps (dec_sequence_end-Keeps vbl vbl_len)
          (>>-Keeps (dec_sequence_end-Keeps token len) (pure-Keeps vs))

decode_trap1_list-Keeps :
    (pdu : ℕ × ℕ) (front : List VarBind) (e : VarBind) (oid : List ℕ)
    → Keeps (decode_trap1_list pdu front e oid)
unfolding decode_trap1_list
decode_trap1_list-Keeps pdu front e oid s h =
    branch-IsSafe (dec_sequence_start-Keeps 0x30 s h)
      (λ vbl. >>=-Keeps (decode_rest-Keeps pdu vbl oid) λ vs. pure-Keeps _) (pure-Keeps front)

decode_fields-Keeps : (kind : ℕ) (pdu : ℕ × ℕ) (oid : List ℕ) → Keeps (decode_fields kind pdu oid)
unfolding decode_fields
decode_fields-Keeps kind pdu oid = >>=-Keeps (dec_int-Keeps 2) λ id.
    >>=-Keeps (dec_int-Keeps 2) λ status. >>=-Keeps (dec_int-Keeps 2) λ index.
      if-Keeps (ltb 18 status) (fail_with-Keeps _) (
        >>=-Keeps (dec_sequence_start-Keeps 0x30)
          λ vbl. >>=-Keeps (decode_rest-Keeps pdu vbl oid) λ vs. pure-Keeps _)

peek_start-Keeps : Keeps peek_start
unfolding peek_start
peek_start-Keeps s h =
    branch-IsSafe (dec_peek-Keeps s h)
      (λ b. >>=-Keeps (dec_sequence_start-Keeps b) λ (token, len). pure-Keeps (b, token, len))
      (>>=-Keeps (dec_sequence_start-Keeps 0) λ (token, len). pure-Keeps (0, token, len))

-- Whatever the packet holds, DecodePDU leaves its bytes as they are, and the position between where
-- it was and the end of the packet.
pub decode_pdu-Keeps : (oid : List ℕ) (s : Ber) → IsInside s → IsSafe s (decode_pdu oid s)
unfolding decode_pdu
decode_pdu-Keeps oid = >>=-Keeps peek_start-Keeps λ (kind, token, len).
    if-Keeps (is_pdu kind)
      (if-Keeps (kind == 0xa4)
        (>>=-Keeps (decode_trap1-Keeps oid) λ (front, e, oid').
          >>=-Keeps (decode_trap1_list-Keeps (token, len) front e oid') λ vs. pure-Keeps _)
        (decode_fields-Keeps kind (token, len) oid))
      (fail_with-Keeps _)
