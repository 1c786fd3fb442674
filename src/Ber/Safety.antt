-- ===== src/Ber/Safety.antt =====
-- No decoder of tnm/snmp/tnmAsn1.c changes the packet, moves back, or moves behind its end.
use tkined_remix.Prelude.{
  ℕ, zero, suc, ◌+◌, ◌-◌, ◌*◌, ◌%◌, ◌^◌, set, ◌≤◌, List, ◌≡◌, refl, ◌∙◌, arith, length, ltb, leb,
  ◌==◌, if◌then◌else◌, ◌||◌, ◌&&◌, not, Bool, true, false, Bool-cases, inl, inr, leb→gt,
}
use tkined_remix.Ber.Stream.{
  Ber, M, Message, Outcome, ok, null, fault, spent, ◌>>=◌, ◌>>◌, pure, fail, fail_with, dec_byte,
  dec_peek, position, expect_tag, fail_wrong_tag, fail_wrong_length, fail_wrong_value,
  fail_wrong_length,
}
use tkined_remix.Ber.Length.{dec_length_loop, dec_length}
use tkined_remix.Ber.Integer.{
  dec_int_loop, dec_int_value, dec_int, dec_unsigned64_loop, dec_unsigned64,
}
use tkined_remix.Ber.Octets.{take_octets, dec_octet_string, dec_null, dec_any}
use tkined_remix.Ber.Sequence.{dec_sequence_start, dec_sequence_end}
use tkined_remix.Ber.Oid.{
  store, dec_subid, dec_rest_of_subid, split_first, dec_oid_loop, dec_oid, max_size,
}

-- The position lies in the packet.
abbrev pub IsInside : Ber → Type 0
IsInside s = s.current ≤ length s.mem

-- `t` is the stream `s`, moved on inside the packet.
pub record IsLater (s t : Ber) : Type 0 where
  pub packet : t.mem ≡ s.mem
  pub forward : s.current ≤ t.current
  pub inside : IsInside t

-- What a call on `s` leaves.
pub data IsSafe {ℓ} {A : Type ℓ} (s : Ber) : Outcome A → Type ℓ where
  ok_safe : {a : A} {t : Ber} → IsLater s t → IsSafe s (ok a t)
  null_safe : {t : Ber} → IsLater s t → IsSafe s (null t)
  fault_safe : IsSafe s fault
  spent_safe : IsSafe s spent

-- A decoder that keeps the packet and the position inside it, on every stream.
abbrev pub Keeps {ℓ} : {A : Type ℓ} → M A → Type ℓ
Keeps m = (s : Ber) → IsInside s → IsSafe s (m s)

pub IsLater-refl : (s : Ber) → IsInside s → IsLater s s
IsLater-refl s h = record { packet = refl; forward = omega arith; inside = h }

pub IsLater-trans : {s t u : Ber} → IsLater s t → IsLater t u → IsLater s u
IsLater-trans p q = record {
  packet = q.packet ∙ p.packet;
  forward = omega (arith, p.forward, q.forward);
  inside = q.inside;
}

module _ {ℓ} {A : Type ℓ} where
  pub pure-Keeps : (a : A) → Keeps (pure a)
  pure-Keeps a s h = ok_safe (IsLater-refl s h)

  pub fail_with-Keeps : (msg : Message) → Keeps (fail_with {A = A} msg)
  fail_with-Keeps msg s h = null_safe (record { packet = refl; forward = omega arith; inside = h })

  pub fail-Keeps : Keeps (fail {A = A})
  fail-Keeps s h = null_safe (IsLater-refl s h)

  pub IsSafe-trans : {s t : Ber} (o : Outcome A) → IsLater s t → IsSafe t o → IsSafe s o
  IsSafe-trans (ok a u) p (ok_safe q) = ok_safe (IsLater-trans p q)
  IsSafe-trans (null u) p (null_safe q) = null_safe (IsLater-trans p q)
  IsSafe-trans fault p fault_safe = fault_safe
  IsSafe-trans spent p spent_safe = spent_safe

  pub if-Keeps : (b : Bool) {x y : M A} → Keeps x → Keeps y → Keeps (if b then x else y)
  if-Keeps true hx hy = hx
  if-Keeps false hx hy = hy

module _ {ℓ κ} {A : Type ℓ} {B : Type κ} where
  pub >>=-IsSafe :
      (f : A → M B) {s : Ber} {o : Outcome A}
      → IsSafe s o
      → ((a : A) → Keeps (f a))
      → IsSafe s (elim o [ ok a t ↦ f a t | null t ↦ null t | fault ↦ fault | spent ↦ spent ])
  >>=-IsSafe f (ok_safe {a} {t} p) k = IsSafe-trans (f a t) p (k a t p.inside)
  >>=-IsSafe f (null_safe p) k = null_safe p
  >>=-IsSafe f fault_safe k = fault_safe
  >>=-IsSafe f spent_safe k = spent_safe

  pub >>=-Keeps : {m : M A} {f : A → M B} → Keeps m → ((a : A) → Keeps (f a)) → Keeps (m >>= f)
  >>=-Keeps {f} hm hf s h = >>=-IsSafe f (hm s h) hf

  pub >>-Keeps : {m : M A} {k : M B} → Keeps m → Keeps k → Keeps (m >> k)
  >>-Keeps {k} hm hk s h = >>=-IsSafe (λ a. k) (hm s h) (λ a. hk)

pub dec_byte-Keeps : Keeps dec_byte
unfolding dec_byte
dec_byte-Keeps s h = elim (Bool-cases (leb (length s.mem) s.current)) [
  | inl a ↦ rw a (fail_with-Keeps _ s h)
  | inr b ↦ rw b (
      ok_safe (record {
        packet = refl;
        forward = omega arith;
        inside = omega (arith, leb→gt (length s.mem) s.current b);
      }))
]

pub dec_peek-Keeps : Keeps dec_peek
unfolding dec_peek
dec_peek-Keeps s h = elim (Bool-cases (leb (length s.mem) s.current)) [
  | inl a ↦ rw a (fail_with-Keeps _ s h)
  | inr b ↦ rw b (ok_safe (IsLater-refl s h))
]

pub position-Keeps : Keeps position
position-Keeps s h = ok_safe (IsLater-refl s h)

pub expect_tag-Keeps : (tag : ℕ) → Keeps (expect_tag tag)
unfolding expect_tag fail_wrong_tag
expect_tag-Keeps tag =
    >>=-Keeps dec_byte-Keeps λ b. if-Keeps (b == tag) (pure-Keeps tt) (λ s h. fail_with-Keeps _ s h)

-- A refusal with a message that depends on the position.
wrong_tag-Keeps {ℓ} :
    {A : Type ℓ} → (tag expected : ℕ) → Keeps (fail_wrong_tag {A = A} tag expected)
unfolding fail_wrong_tag
wrong_tag-Keeps tag expected s h = fail_with-Keeps _ s h

wrong_length-Keeps {ℓ} : {A : Type ℓ} → (tag len : ℕ) → Keeps (fail_wrong_length {A = A} tag len)
unfolding fail_wrong_length
wrong_length-Keeps tag len s h = fail_with-Keeps _ s h

wrong_value-Keeps {ℓ} : {A : Type ℓ} → (tag : ℕ) → Keeps (fail_wrong_value {A = A} tag)
unfolding fail_wrong_value
wrong_value-Keeps tag s h = fail_with-Keeps _ s h

dec_length_loop-Keeps : (k acc : ℕ) → Keeps (dec_length_loop k acc)
unfolding dec_length_loop
dec_length_loop-Keeps zero acc = pure-Keeps acc
dec_length_loop-Keeps (suc k) acc = >>=-Keeps dec_byte-Keeps λ b s h.
    elim (Bool-cases (ltb 4 (suc k) && not (b == 0))) [
      | inl r ↦ rw r (fail-Keeps s h)
      | inr r ↦ rw r (dec_length_loop-Keeps k (acc * 256 % 2 ^ 32 + b) s h)
    ]

pub dec_length-Keeps : Keeps dec_length
unfolding dec_length
dec_length-Keeps = >>=-Keeps dec_byte-Keeps λ b.
    if-Keeps (leb 0x80 b)
      (>>=-Keeps (dec_length_loop-Keeps (b % 128) 0)
        λ n. if-Keeps (leb (2 ^ 31) n) fail-Keeps (pure-Keeps n))
      (pure-Keeps b)

dec_int_loop-Keeps : (k v : ℕ) → Keeps (dec_int_loop k v)
unfolding dec_int_loop
dec_int_loop-Keeps zero v = pure-Keeps v
dec_int_loop-Keeps (suc k) v =
    >>=-Keeps dec_byte-Keeps λ b. dec_int_loop-Keeps k (v * 256 % 2 ^ 32 + b)

dec_int_value-Keeps : (tag len byte : ℕ) → Keeps (dec_int_value tag len byte)
unfolding dec_int_value
dec_int_value-Keeps tag len byte =
    if-Keeps ((not (byte == 0) && ltb 4 len) || (byte == 0 && ltb 4 (len - 1)))
      (wrong_length-Keeps tag len)
      (>>=-Keeps (dec_int_loop-Keeps len _) λ v.
        if-Keeps ((tag == 2 && leb 0x80 byte) && not (tag == 2)) (wrong_value-Keeps tag)
          (pure-Keeps v))

pub dec_int-Keeps : (tag : ℕ) → Keeps (dec_int tag)
unfolding dec_int
dec_int-Keeps tag = >>-Keeps (expect_tag-Keeps tag) (
    >>=-Keeps dec_length-Keeps λ len.
      if-Keeps (len == 0) (pure-Keeps 0)
        (>>=-Keeps dec_peek-Keeps λ b. dec_int_value-Keeps tag len b))

dec_unsigned64_loop-Keeps : (k v : ℕ) → Keeps (dec_unsigned64_loop k v)
unfolding dec_unsigned64_loop
dec_unsigned64_loop-Keeps zero v = pure-Keeps v
dec_unsigned64_loop-Keeps (suc k) v =
    >>=-Keeps dec_byte-Keeps λ b. dec_unsigned64_loop-Keeps k ((v * 256 + b) % 2 ^ 64)

pub dec_unsigned64-Keeps : Keeps dec_unsigned64
unfolding dec_unsigned64
dec_unsigned64-Keeps = >>-Keeps (expect_tag-Keeps 0x46) (
    >>=-Keeps dec_length-Keeps
      λ len. if-Keeps (ltb 9 len) (wrong_length-Keeps 0x46 len) (dec_unsigned64_loop-Keeps len 0))

-- The check of a number of octets that TnmBerDecOctetString and TnmBerDecAny share.
outside-false : (n len c : ℕ) → (ltb 65535 len || ltb n (c + len)) ≡ false → c + len ≤ n
outside-false n len c e = ground arith

pub dec_octet_string-Keeps : (tag : ℕ) → Keeps (dec_octet_string tag)
unfolding dec_octet_string take_octets
dec_octet_string-Keeps tag = >>-Keeps (expect_tag-Keeps tag) (
    >>=-Keeps dec_length-Keeps λ len s h.
      elim (Bool-cases (ltb 65535 len || ltb (length s.mem) (s.current + len))) [
        | inl r ↦ rw r (fail_with-Keeps _ s h)
        | inr r ↦ rw r (
            ok_safe (record {
              packet = refl;
              forward = omega arith;
              inside = outside-false (length s.mem) len s.current r;
            }))
      ])

pub dec_null-Keeps : (tag : ℕ) → Keeps (dec_null tag)
unfolding dec_null
dec_null-Keeps tag = >>-Keeps (expect_tag-Keeps tag) dec_length-Keeps

pub dec_any-Keeps : Keeps dec_any
unfolding dec_any
dec_any-Keeps = >>=-Keeps position-Keeps λ start. >>=-Keeps dec_byte-Keeps λ tag.
    >>=-Keeps dec_length-Keeps λ len s h.
      elim (Bool-cases (ltb 65535 len || ltb (length s.mem) (s.current + len))) [
        | inl r ↦ rw r (fail-Keeps s h)
        | inr r ↦ rw r (
            ok_safe (record {
              packet = refl;
              forward = omega arith;
              inside = outside-false (length s.mem) len s.current r;
            }))
      ]

pub dec_sequence_start-Keeps : (tag : ℕ) → Keeps (dec_sequence_start tag)
unfolding dec_sequence_start
dec_sequence_start-Keeps tag =
    >>-Keeps (expect_tag-Keeps tag)
      (>>=-Keeps dec_length-Keeps λ len. >>=-Keeps position-Keeps λ token. pure-Keeps (token, len))

pub dec_sequence_end-Keeps : (token len : ℕ) → Keeps (dec_sequence_end token len)
unfolding dec_sequence_end
dec_sequence_end-Keeps token len = >>=-Keeps position-Keeps λ c.
    if-Keeps (len == c - token) (pure-Keeps tt)
      (if-Keeps (ltb (c - token) len) (fail_with-Keeps _) (fail_with-Keeps _))

pub store-Keeps : (oid : List ℕ) (i v : ℕ) → Keeps (store oid i v)
unfolding store
store-Keeps oid i v s h = elim (Bool-cases (ltb i (length oid))) [
  | inl r ↦ rw r (ok_safe (IsLater-refl s h))
  | inr r ↦ rw r fault_safe
]

dec_subid-Keeps : (f b acc more : ℕ) → Keeps (dec_subid f b acc more)
unfolding dec_subid
dec_subid-Keeps zero b acc more s h = spent_safe
dec_subid-Keeps (suc f) b acc more s h = elim (Bool-cases (ltb 0x7f b)) [
  | inr r ↦ rw (r, dec_subid) (ok_safe (IsLater-refl s h))
  | inl r ↦
      rw (r, dec_subid)
        (>>=-Keeps dec_byte-Keeps
          (λ b'. dec_subid-Keeps f b' ((acc * 128 + b % 128) % 2 ^ 32) (more + 1)) s h)
]

dec_rest_of_subid-Keeps : (b : ℕ) → Keeps (dec_rest_of_subid b)
unfolding dec_rest_of_subid
dec_rest_of_subid-Keeps b s h = dec_subid-Keeps (suc (length s.mem)) b 0 0 s h

dec_oid_loop-Keeps : (f len i : ℕ) (oid : List ℕ) → Keeps (dec_oid_loop f len i oid)
unfolding dec_oid_loop
dec_oid_loop-Keeps zero zero i oid = pure-Keeps (oid, i)
dec_oid_loop-Keeps (suc f) zero i oid = pure-Keeps (oid, i)
dec_oid_loop-Keeps zero (suc len) i oid = λ s h. spent_safe
dec_oid_loop-Keeps (suc f) (suc len) i oid = >>=-Keeps (store-Keeps oid i 0) λ oid₀.
    >>=-Keeps dec_byte-Keeps λ b. >>=-Keeps (dec_rest_of_subid-Keeps b) λ (v, more).
      if-Keeps (ltb max_size (i + 1)) (wrong_value-Keeps 6)
        (dec_oid_loop-Keeps f (len - more) (i + 1) (split_first i (set oid₀ i v)))

pub dec_oid-Keeps : (oid : List ℕ) → Keeps (dec_oid oid)
unfolding dec_oid
dec_oid-Keeps oid = >>-Keeps (expect_tag-Keeps 6) (
    >>=-Keeps dec_length-Keeps
      λ len. if-Keeps (len == 0) (wrong_value-Keeps 6) (dec_oid_loop-Keeps len len 1 oid))
