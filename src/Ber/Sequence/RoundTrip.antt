-- ===== src/Ber/Sequence/RoundTrip.antt =====
-- The start and end of a sequence, written and read back.
use tkined_remix.Prelude.{
  ℕ, ◌+◌, ◌-◌, ◌%◌, ◌^◌, ◌<◌, List, [], ◌∷◌, ◌++◌, ◌≡◌, refl, ap, ◌∙◌, arith, length, length-append,
  append_assoc, ltb, ◌==◌, eq→==, inl, inr, Bool-cases, false, ◌≢◌,
}
use tkined_remix.Ber.Stream.{Message, ok, ◌>>=◌, ◌>>◌, null, sequence_underflow, sequence_overflow}
use tkined_remix.Ber.At.{at, enc_byte-at}
use tkined_remix.Ber.Length.Encode.{length_octets, extra_octets, enc_length-at}
use tkined_remix.Ber.Length.Decode.{dec_length-length_octets}
use tkined_remix.Ber.Integer.Decode.{expect_tag-at}
use tkined_remix.Ber.Sequence.{
  enc_sequence_start, enc_sequence_end, dec_sequence_start, dec_sequence_end,
}

-- Closing a sequence puts the length of what was written since its start before it.
pub enc_sequence_end-at :
    (c pre gap post : List ℕ) (p : ℕ) (e : Message)
    → length c < 0x100_0000
    → length gap ≡ extra_octets (length c)
    → (0 < extra_octets (length c) → 0 < length post)
    → enc_sequence_end (length pre) (at (pre ++ p ∷ c) (gap ++ post) e)
      ≡ ok tt (at (pre ++ (length_octets (length c) ++ c)) post e)
unfolding enc_sequence_end
enc_sequence_end-at c pre gap post p e hc hg hp =
    rw size (enc_length-at (length c) pre p c gap post e hc hg hp)
  where
    size : length (pre ++ p ∷ c) - (length pre + 1) ≡ length c
    size = omega (arith, length-append pre (p ∷ c))

pub enc_sequence_start-at :
    (tag : ℕ) (pre : List ℕ) (a b : ℕ) (post : List ℕ) (e : Message)
    → enc_sequence_start tag (at pre (a ∷ b ∷ post) e)
      ≡ ok (length (pre ++ tag ∷ [])) (at ((pre ++ tag ∷ []) ++ 0 ∷ []) post e)
unfolding enc_sequence_start
enc_sequence_start-at tag pre a b post e =
    rw (enc_byte-at pre tag a (b ∷ post) e, ◌>>◌)
      (rw (enc_byte-at (pre ++ tag ∷ []) 0 b post e, ◌>>◌))

-- The token of a decoded start is the position behind the length, which is read modulo 2 ^ 16.
pub dec_sequence_start-at :
    (tag n : ℕ) (pre post : List ℕ) (e : Message)
    → n < 0x100_0000
    → dec_sequence_start tag (at pre (tag ∷ (length_octets n ++ post)) e)
      ≡ ok
          (length ((pre ++ tag ∷ []) ++ length_octets n), n % 2 ^ 16)
          (at ((pre ++ tag ∷ []) ++ length_octets n) post e)
unfolding dec_sequence_start
dec_sequence_start-at tag n pre post e h =
    rw (expect_tag-at tag pre (length_octets n ++ post) e, ◌>>◌)
      (rw (dec_length-length_octets (pre ++ tag ∷ []) n post e h, ◌>>=◌))

passed : (pre c : List ℕ) → length (pre ++ c) - length pre ≡ length c
passed pre c = omega (arith, length-append pre c)

pub dec_sequence_end-at :
    (pre c post : List ℕ) (e : Message)
    → dec_sequence_end (length pre) (length c) (at (pre ++ c) post e) ≡ ok tt (at (pre ++ c) post e)
unfolding dec_sequence_end
dec_sequence_end-at pre c post e = rw (passed pre c) (rw (eq→== (length c) (length c) refl))

-- Any other number of bytes is refused, and nothing but the message changes.
pub dec_sequence_end-ne :
    (n : ℕ) (pre c post : List ℕ) (e : Message)
    → n ≢ length c
    → (m : Message) × (dec_sequence_end (length pre) n (at (pre ++ c) post e)
        ≡ null (at (pre ++ c) post m))
unfolding dec_sequence_end
dec_sequence_end-ne n pre c post e h =
    let far : (n == length c) ≡ false = ground arith in
    elim (Bool-cases (ltb (length c) n)) [
      | inl short ↦ (
        sequence_underflow (length (pre ++ c)) (n - length c),
        rw (passed pre c) (rw (far, short)),
      )
      | inr long ↦
          (sequence_overflow (length (pre ++ c)) (length c - n), rw (passed pre c) (rw (far, long)))
    ]

-- A sequence whose content `c` was written behind its start is closed into the tag, the length and
-- the content; the decoder finds its token and length, and accepts its end behind the content.
pub sequence_framing :
    (tag : ℕ) (c pre gap post pre' post' : List ℕ) (e e' : Message)
    → length c < 0x1_0000
    → length gap ≡ extra_octets (length c)
    → (0 < extra_octets (length c) → 0 < length post)
    → let head = tag ∷ length_octets (length c) in
      let token = length (pre' ++ head) in
      (enc_sequence_end (length (pre ++ tag ∷ [])) (at ((pre ++ tag ∷ []) ++ 0 ∷ c) (gap ++ post) e)
        ≡ ok tt (at (pre ++ (head ++ c)) post e))
      × (dec_sequence_start tag (at pre' (head ++ (c ++ post')) e')
          ≡ ok (token, length c) (at (pre' ++ head) (c ++ post') e'))
      × (dec_sequence_end token (length c) (at ((pre' ++ head) ++ c) post' e')
          ≡ ok tt (at ((pre' ++ head) ++ c) post' e'))
sequence_framing tag c pre gap post pre' post' e e' hc hg hp = (
  enc_sequence_end-at c (pre ++ tag ∷ []) gap post 0 e (omega arith) hg hp
      ∙ ap (λ t. ok tt (at t post e)) (append_assoc pre (tag ∷ []) (length_octets (length c) ++ c)),
  dec_sequence_start-at tag (length c) pre' (c ++ post') e' (omega arith)
      ∙ ap (λ t. ok (length t, length c % 2 ^ 16) (at t (c ++ post') e'))
          (append_assoc pre' (tag ∷ []) (length_octets (length c)))
      ∙ ap
          (λ n.
            ok (length (pre' ++ tag ∷ length_octets (length c)), n)
              (at (pre' ++ tag ∷ length_octets (length c)) (c ++ post') e'))
          (omega arith),
  dec_sequence_end-at (pre' ++ tag ∷ length_octets (length c)) c post' e',
)
