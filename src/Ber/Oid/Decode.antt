-- ===== src/Ber/Oid/Decode.antt =====
-- What TnmBerDecOID reads.
use tkined_remix.Prelude.{
  ℕ, zero, suc, ◌+◌, ◌-◌, ◌*◌, ◌/◌, ◌%◌, ◌^◌, ◌≤◌, ◌<◌, List, [], ◌∷◌, ◌++◌, ◌≡◌, refl, ap, ◌∙◌,
  arith, length, length-append, append_assoc, append-nil, ltb, inl, inr, Bool-cases, ltb→lt, ge→ltb,
  lt→ltb, set,
}
use tkined_remix.Ber.Stream.{Ber, Message, ok, ◌>>=◌, fault}
use tkined_remix.Ber.At.{at, dec_byte-at}
use tkined_remix.Ber.Oid.{store, dec_subid, dec_rest_of_subid, split_first, dec_oid_loop, max_size}
use tkined_remix.Ber.Oid.Encode.{subid_octets, IsSubid}

-- `t` continues a sub-identifier that begins with the byte `b`.
abbrev pub Continues : ℕ → List ℕ → Type 0
Continues b [] = b < 128
Continues b (b' ∷ t) = (128 ≤ b) × Continues b' t

-- What those bytes stand for, modulo 2 ^ 32.
unfoldable pub subid_value : ℕ → ℕ → List ℕ → ℕ
subid_value acc b [] = (acc * 128 + b) % 2 ^ 32
subid_value acc b (b' ∷ t) = subid_value ((acc * 128 + b % 128) % 2 ^ 32) b' t

dec_subid-at :
    (t : List ℕ) (f b acc more : ℕ) (pre post : List ℕ) (e : Message)
    → length t < f
    → Continues b t
    → dec_subid f b acc more (at pre (t ++ post) e)
      ≡ ok (subid_value acc b t, more + length t) (at (pre ++ t) post e)
unfolding dec_subid subid_value
dec_subid-at t zero b acc more pre post e hf c = absurd (omega arith)
dec_subid-at [] (suc f) b acc more pre post e hf c =
    rw (ge→ltb 0x7f b (omega arith), dec_subid, append-nil)
      (ap (λ n. ok ((acc * 128 + b) % 2 ^ 32, n) (at pre post e)) (omega arith))
dec_subid-at (b' ∷ t) (suc f) b acc more pre post e hf c =
    rw (lt→ltb 0x7f b c.0, dec_subid)
      (rw (dec_byte-at pre b' (t ++ post) e, ◌>>=◌)
        (dec_subid-at t f b' ((acc * 128 + b % 128) % 2 ^ 32) (more + 1) (pre ++ b' ∷ []) post e
            (omega arith) c.1
          ∙ ap (λ n. ok (subid_value acc' b' t, n) (at ((pre ++ b' ∷ []) ++ t) post e))
              (omega arith)
          ∙ ap (λ u. ok (subid_value acc' b' t, more + suc (length t)) (at u post e))
              (append_assoc pre (b' ∷ []) t)))
  where
    acc' : ℕ
    acc' = (acc * 128 + b % 128) % 2 ^ 32

dec_rest_of_subid-at :
    (b : ℕ) (t pre post : List ℕ) (e : Message)
    → Continues b t
    → dec_rest_of_subid b (at pre (t ++ post) e)
      ≡ ok (subid_value 0 b t, length t) (at (pre ++ t) post e)
unfolding dec_rest_of_subid
dec_rest_of_subid-at b t pre post e c =
    dec_subid-at t (suc (length (pre ++ (t ++ post)))) b 0 0 pre post e
      (omega (arith, length-append pre (t ++ post), length-append t post)) c
    ∙ ap (λ n. ok (subid_value 0 b t, n) (at (pre ++ t) post e)) (omega arith)

set-set {ℓ} : {A : Type ℓ} (xs : List A) (i : ℕ) (u v : A) → set (set xs i u) i v ≡ set xs i v
set-set [] i u v = refl
set-set (x ∷ xs) zero u v = refl
set-set (x ∷ xs) (suc i) u v = ap (λ t. x ∷ t) (set-set xs i u v)

store-ok :
    (oid : List ℕ) (i v : ℕ) (s : Ber) → i < length oid → store oid i v s ≡ ok (set oid i v) s
unfolding store
store-ok oid i v s h = rw (lt→ltb i (length oid) h)

store-fault : (oid : List ℕ) (i v : ℕ) (s : Ber) → length oid ≤ i → store oid i v s ≡ fault
unfolding store
store-fault oid i v s h = rw (ge→ltb i (length oid) h)

-- One round of the loop, on a sub-identifier that fits the array.
pub dec_oid_loop_step :
    (f len i : ℕ) (oid : List ℕ) (b : ℕ) (t pre post : List ℕ) (e : Message)
    → Continues b t
    → i < length oid
    → i < max_size
    → dec_oid_loop (suc f) (suc len) i oid (at pre (b ∷ t ++ post) e)
      ≡ dec_oid_loop f
          (len - length t)
          (i + 1)
          (split_first i (set oid i (subid_value 0 b t)))
          (at (pre ++ b ∷ t) post e)
unfolding dec_oid_loop
dec_oid_loop_step f len i oid b t pre post e c hi hm =
    rw (store-ok oid i 0 (at pre (b ∷ t ++ post) e) hi, ◌>>=◌)
      (rw (dec_byte-at pre b (t ++ post) e, ◌>>=◌)
        (rw (dec_rest_of_subid-at b t (pre ++ b ∷ []) post e c, ◌>>=◌)
          (rw (ge→ltb max_size (i + 1) (omega arith), set-set oid i 0 (subid_value 0 b t))
            (ap
              (λ u.
                dec_oid_loop f (len - length t) (i + 1)
                  (split_first i (set oid i (subid_value 0 b t))) (at u post e))
              (append_assoc pre (b ∷ []) t)))))

-- Where the array is full the next store goes behind its end.
pub dec_oid_loop_overrun :
    (f len i : ℕ) (oid : List ℕ) (s : Ber)
    → length oid ≤ i
    → dec_oid_loop (suc f) (suc len) i oid s ≡ fault
unfolding dec_oid_loop
dec_oid_loop_overrun f len i oid s h = rw (store-fault oid i 0 s h, ◌>>=◌)

-- The octets that the encoder writes for a sub-identifier, as the decoder reads them.
pub record Read (op : ℕ) : Type 0 where
  pub head : ℕ
  pub tail : List ℕ
  pub octets : subid_octets op ≡ head ∷ tail
  pub continues : Continues head tail
  pub value : subid_value 0 head tail ≡ op

pub subid_octets-Read : (op : ℕ) → IsSubid op → Read op
unfolding subid_octets subid_value
subid_octets-Read op h = elim (Bool-cases (ltb op (2 ^ 7))) [
  | inl a ↦ record {
    head = op;
    tail = [];
    octets = rw a;
    continues = ltb→lt op (2 ^ 7) a;
    value = omega arith;
  }
  | inr a ↦ elim (Bool-cases (ltb op (2 ^ 14))) [
    | inl b ↦ record {
      head = op / 2 ^ 7 + 128;
      tail = op % 128 ∷ [];
      octets = rw (a, b);
      continues = omega arith;
      value = omega (arith, ltb→lt op (2 ^ 14) b);
    }
    | inr b ↦ elim (Bool-cases (ltb op (2 ^ 21))) [
      | inl c ↦ record {
        head = op / 2 ^ 14 + 128;
        tail = (op / 2 ^ 7 % 128 + 128) ∷ op % 128 ∷ [];
        octets = rw (a, b, c);
        continues = omega arith;
        value = omega (arith, ltb→lt op (2 ^ 21) c);
      }
      | inr c ↦ elim (Bool-cases (ltb op (2 ^ 28))) [
        | inl d ↦ record {
          head = op / 2 ^ 21 + 128;
          tail = (op / 2 ^ 14 % 128 + 128) ∷ (op / 2 ^ 7 % 128 + 128) ∷ op % 128 ∷ [];
          octets = rw (a, b, c, d);
          continues = omega arith;
          value = omega (arith, ltb→lt op (2 ^ 28) d);
        }
        | inr d ↦ record {
          head = op / 2 ^ 28 + 128;
          tail =
              (op / 2 ^ 21 % 128 + 128)
              ∷ (op / 2 ^ 14 % 128 + 128)
              ∷ (op / 2 ^ 7 % 128 + 128)
              ∷ op % 128
              ∷ [];
          octets = rw (a, b, c, d);
          continues = omega arith;
          value = omega arith;
        }
      ]
    ]
  ]
]
