-- ===== src/Ber/Ends.antt =====
-- The loops of the decoders of tnm/snmp/tnmAsn1.c end, and the decoders that take a tag move on.
use tkined_remix.Prelude.{
  ℕ, zero, suc, ◌+◌, ◌-◌, ◌*◌, ◌%◌, ◌^◌, ◌<◌, ◌≡◌, refl, arith, length, ltb, leb, ◌==◌,
  if◌then◌else◌, ◌||◌, ◌&&◌, not, Bool, true, false, Bool-cases, inl, inr, ◌≢◌, get_or,
}
use mathlib.Core.Path.{subst}
use tkined_remix.Ber.Stream.{
  Ber, M, Message, Outcome, text, ok, null, fault, spent, ◌>>=◌, ◌>>◌, pure, fail, fail_with,
  dec_byte, dec_peek, position, expect_tag, fail_wrong_tag, fail_wrong_length, fail_wrong_value,
}
use tkined_remix.Ber.Safety.{
  IsInside, IsLater, IsSafe, ok_safe, Keeps, pure-Keeps, if-Keeps, dec_byte-Keeps, dec_length-Keeps,
  expect_tag-Keeps, >>=-Keeps, position-Keeps, fail_with-Keeps,
}
use tkined_remix.Ber.Integer.{
  dec_int_loop, dec_int_value, dec_int, dec_unsigned64_loop, dec_unsigned64,
}
use tkined_remix.Ber.Octets.{take_octets, dec_octet_string, dec_null, dec_any}
use tkined_remix.Ber.Sequence.{dec_sequence_start, dec_sequence_end}
use tkined_remix.Ber.Oid.Termination.{dec_byte-ne-spent, dec_length-ne-spent, expect_tag-ne-spent}

-- A decoder that ends on every stream.
abbrev pub Ends {ℓ} : {A : Type ℓ} → M A → Type ℓ
Ends m = (s : Ber) → m s ≢ spent

-- A decoder that has read a byte at least when it succeeds.
abbrev pub Advances {ℓ} : {A : Type ℓ} → M A → Type ℓ
Advances m = (s : Ber) → IsInside s → (a : _) (t : Ber) → m s ≡ ok a t → s.current < t.current

module _ {ℓ} {A : Type ℓ} where
  pub pure-Ends : (a : A) → Ends (pure a)
  pure-Ends a s = λ q. cc

  pub fail-Ends : Ends (fail {A = A})
  fail-Ends s = λ q. cc

  pub fail_with-Ends : (msg : Message) → Ends (fail_with {A = A} msg)
  fail_with-Ends msg s = λ q. cc

  pub if-Ends : (b : Bool) {x y : M A} → Ends x → Ends y → Ends (if b then x else y)
  if-Ends true hx hy = hx
  if-Ends false hx hy = hy

  -- What a decoder that keeps the stream inside leaves on success.
  pub later :
      {m : M A} → Keeps m → (s : Ber) → IsInside s → (a : A) (t : Ber) → m s ≡ ok a t → IsLater s t
  later {m} h s i a t e = go (subst (λ o. IsSafe s o) e (h s i))
    where
      go : IsSafe s (ok a t) → IsLater s t
      go (ok_safe p) = p

module _ {ℓ κ} {A : Type ℓ} {B : Type κ} where
  pub >>=-Ends : {m : M A} {f : A → M B} → Ends m → ((a : A) → Ends (f a)) → Ends (m >>= f)
  >>=-Ends {m} {f} hm hf s = go (m s) (hm s)
    where
      go :
          (o : Outcome A)
          → o ≢ spent
          → (elim o [ ok a t ↦ f a t | null t ↦ null t | fault ↦ fault | spent ↦ spent ]) ≢ spent
      go (ok a t) h = hf a t
      go (null t) h = λ q. cc
      go fault h = λ q. cc
      go spent h = absurd (h refl)

  pub >>-Ends : {m : M A} {k : M B} → Ends m → Ends k → Ends (m >> k)
  >>-Ends {m} {k} hm hk = >>=-Ends {m = m} {f = λ a. k} hm (λ a. hk)

  pub >>=-Advances :
      {m : M A} {f : A → M B} → Keeps m → Advances m → ((a : A) → Keeps (f a)) → Advances (m >>= f)
  >>=-Advances {m} {f} km hm kf s i b u =
      go (m s) (λ a t e. later km s i a t e) (λ a t e. hm s i a t e)
    where
      go :
          (o : Outcome A)
          → ((a : A) (t : Ber) → o ≡ ok a t → IsLater s t)
          → ((a : A) (t : Ber) → o ≡ ok a t → s.current < t.current)
          → (elim o [ ok a t ↦ f a t | null t ↦ null t | fault ↦ fault | spent ↦ spent ]) ≡ ok b u
          → s.current < u.current
      go (ok a t) p h e =
          omega (arith, h a t refl, (later (kf a) t (p a t refl).inside b u e).forward)
      go (null t) p h e = absurd (cc)
      go fault p h e = absurd (cc)
      go spent p h e = absurd (cc)

pub >>-Advances {ℓ κ} :
    {A : Type ℓ} {B : Type κ} {m : M A} {k : M B}
    → Keeps m
    → Advances m
    → Keeps k
    → Advances (m >> k)
>>-Advances {m} {k} km hm kk = >>=-Advances {m = m} {f = λ a. k} km hm (λ a. kk)

dec_byte-Advances : Advances dec_byte
unfolding dec_byte
dec_byte-Advances s i a t e = go (leb (length s.mem) s.current) e
  where
    next : Ber
    next = record s { current = s.current + 1 }

    go :
        (b : Bool)
        → (if b
            then fail_with (text "BER buffer overflow") s
            else ok (get_or s.mem s.current 0) next)
          ≡ ok a t
        → s.current < t.current
    go true q = absurd (cc)
    go false q = (let same : next ≡ t = cc in subst (λ z. s.current < z.current) same (omega arith))

expect_tag-Advances : (tag : ℕ) → Advances (expect_tag tag)
unfolding expect_tag fail_wrong_tag
expect_tag-Advances tag =
    >>=-Advances dec_byte-Keeps dec_byte-Advances
      λ b. if-Keeps (b == tag) (pure-Keeps tt) (λ s h. fail_with-Keeps _ s h)

pub dec_sequence_start-Advances : (tag : ℕ) → Advances (dec_sequence_start tag)
unfolding dec_sequence_start
dec_sequence_start-Advances tag =
    >>-Advances (expect_tag-Keeps tag) (expect_tag-Advances tag)
      (>>=-Keeps dec_length-Keeps λ len. >>=-Keeps position-Keeps λ token. pure-Keeps (token, len))

position-Ends : Ends position
position-Ends s = λ q. cc

pub dec_peek-Ends : Ends dec_peek
unfolding dec_peek
dec_peek-Ends s = elim (Bool-cases (leb (length s.mem) s.current)) [
  | inl r ↦ rw r (λ q. cc)
  | inr r ↦ rw r (λ q. cc)
]

dec_int_loop-Ends : (k v : ℕ) → Ends (dec_int_loop k v)
unfolding dec_int_loop
dec_int_loop-Ends zero v = pure-Ends v
dec_int_loop-Ends (suc k) v =
    >>=-Ends dec_byte-ne-spent λ b. dec_int_loop-Ends k (v * 256 % 2 ^ 32 + b)

dec_int_value-Ends : (tag len byte : ℕ) → Ends (dec_int_value tag len byte)
unfolding dec_int_value fail_wrong_length fail_wrong_value
dec_int_value-Ends tag len byte =
    if-Ends ((not (byte == 0) && ltb 4 len) || (byte == 0 && ltb 4 (len - 1)))
      (λ s. fail_with-Ends _ s)
      (>>=-Ends (dec_int_loop-Ends len _) λ v.
        if-Ends ((tag == 2 && leb 0x80 byte) && not (tag == 2)) (λ s. fail_with-Ends _ s)
          (pure-Ends v))

pub dec_int-Ends : (tag : ℕ) → Ends (dec_int tag)
unfolding dec_int
dec_int-Ends tag = >>-Ends (expect_tag-ne-spent tag) (
    >>=-Ends dec_length-ne-spent λ len.
      if-Ends (len == 0) (pure-Ends 0) (>>=-Ends dec_peek-Ends λ b. dec_int_value-Ends tag len b))

dec_unsigned64_loop-Ends : (k v : ℕ) → Ends (dec_unsigned64_loop k v)
unfolding dec_unsigned64_loop
dec_unsigned64_loop-Ends zero v = pure-Ends v
dec_unsigned64_loop-Ends (suc k) v =
    >>=-Ends dec_byte-ne-spent λ b. dec_unsigned64_loop-Ends k ((v * 256 + b) % 2 ^ 64)

pub dec_unsigned64-Ends : Ends dec_unsigned64
unfolding dec_unsigned64 fail_wrong_length
dec_unsigned64-Ends = >>-Ends (expect_tag-ne-spent 0x46) (
    >>=-Ends dec_length-ne-spent
      λ len. if-Ends (ltb 9 len) (λ s. fail_with-Ends _ s) (dec_unsigned64_loop-Ends len 0))

-- The last step of TnmBerDecOctetString and TnmBerDecAny.
pub dec_octet_string-Ends : (tag : ℕ) → Ends (dec_octet_string tag)
unfolding dec_octet_string take_octets
dec_octet_string-Ends tag = >>-Ends (expect_tag-ne-spent tag) (
    >>=-Ends dec_length-ne-spent λ len s.
      elim (Bool-cases (ltb 65535 len || ltb (length s.mem) (s.current + len))) [
        | inl r ↦ rw r (λ q. cc)
        | inr r ↦ rw r (λ q. cc)
      ])

pub dec_null-Ends : (tag : ℕ) → Ends (dec_null tag)
unfolding dec_null
dec_null-Ends tag = >>-Ends (expect_tag-ne-spent tag) dec_length-ne-spent

pub dec_any-Ends : Ends dec_any
unfolding dec_any
dec_any-Ends = >>=-Ends position-Ends λ start. >>=-Ends dec_byte-ne-spent λ tag.
    >>=-Ends dec_length-ne-spent λ len s.
      elim (Bool-cases (ltb 65535 len || ltb (length s.mem) (s.current + len))) [
        | inl r ↦ rw r (λ q. cc)
        | inr r ↦ rw r (λ q. cc)
      ]

pub dec_sequence_start-Ends : (tag : ℕ) → Ends (dec_sequence_start tag)
unfolding dec_sequence_start
dec_sequence_start-Ends tag =
    >>-Ends (expect_tag-ne-spent tag)
      (>>=-Ends dec_length-ne-spent λ len. >>=-Ends position-Ends λ token. pure-Ends (token, len))

pub dec_sequence_end-Ends : (token len : ℕ) → Ends (dec_sequence_end token len)
unfolding dec_sequence_end
dec_sequence_end-Ends token len = >>=-Ends position-Ends λ c.
    if-Ends (len == c - token) (pure-Ends tt)
      (if-Ends (ltb (c - token) len) (fail_with-Ends _) (fail_with-Ends _))
