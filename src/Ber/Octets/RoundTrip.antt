-- ===== src/Ber/Octets/RoundTrip.antt =====
-- Octet strings and NULL, written and read back.
use tkined_remix.Prelude.{
  ℕ, ◌+◌, ◌%◌, ◌^◌, ◌<◌, List, [], ◌∷◌, ◌++◌, ◌≡◌, sym, ap, ◌∙◌, arith, length, length-append,
  take-append_length, drop-append_length, append_assoc, append-nil, ltb, true, false, ◌||◌,
  split_at,
}
use tkined_remix.Ber.Stream.{Message, ok, ◌>>=◌, ◌>>◌, text, null}
use tkined_remix.Ber.At.{at, enc_byte-at, ok-at}
use tkined_remix.Ber.Length.Encode.{length_octets, extra_octets, enc_length-at}
use tkined_remix.Ber.Length.Decode.{dec_length-length_octets, dec_length-short}
use tkined_remix.Ber.Integer.Decode.{expect_tag-at}
use tkined_remix.Ber.Octets.{
  enc_octets_loop, enc_octet_string, take_octets, dec_octet_string, enc_null, dec_null,
}

-- The encoding of octets under a tag, for less than 65536 of them.
abbrev pub octets_encoding : ℕ → List ℕ → List ℕ
octets_encoding tag w = tag ∷ (length_octets (length w) ++ w)

enc_octets_loop-at :
    (w pre gap post : List ℕ) (e : Message)
    → length gap ≡ length w
    → enc_octets_loop w (at pre (gap ++ post) e) ≡ ok tt (at (pre ++ w) post e)
unfolding enc_octets_loop
enc_octets_loop-at [] pre [] post e h = rw append-nil
enc_octets_loop-at [] pre (g ∷ gap) post e h = absurd (omega arith)
enc_octets_loop-at (b ∷ w) pre [] post e h = absurd (omega arith)
enc_octets_loop-at (b ∷ w) pre (g ∷ gap) post e h =
    rw (enc_byte-at pre b g (gap ++ post) e, ◌>>◌)
      (enc_octets_loop-at w (pre ++ b ∷ []) gap post e (omega arith)
        ∙ ap (λ t. ok tt (at t post e)) (append_assoc pre (b ∷ []) w))

-- With the gap split into what the octets take and what a long length takes.
enc_octet_string-split :
    (tag : ℕ) (w pre : List ℕ) (a b : ℕ) (gap more post : List ℕ) (e : Message)
    → length w < 0x100_0000
    → length gap ≡ length w
    → length more ≡ extra_octets (length w)
    → (0 < extra_octets (length w) → 0 < length post)
    → enc_octet_string tag w (at pre (a ∷ b ∷ gap ++ (more ++ post)) e)
      ≡ ok tt (at (pre ++ octets_encoding tag w) post e)
unfolding enc_octet_string
enc_octet_string-split tag w pre a b gap more post e hw hg hm hp =
    rw (enc_byte-at pre tag a (b ∷ gap ++ (more ++ post)) e, ◌>>◌)
      (rw (enc_byte-at (pre ++ tag ∷ []) 0 b (gap ++ (more ++ post)) e, ◌>>◌)
        (rw (enc_octets_loop-at w ((pre ++ tag ∷ []) ++ 0 ∷ []) gap (more ++ post) e hg, ◌>>◌)
          (rw (append_assoc (pre ++ tag ∷ []) (0 ∷ []) w) (
            enc_length-at (length w) (pre ++ tag ∷ []) 0 w more post e hw hm hp
            ∙ ap (λ t. ok tt (at t post e))
                (append_assoc pre (tag ∷ []) (length_octets (length w) ++ w))))))

pub enc_octet_string-at :
    (tag : ℕ) (w pre gap post : List ℕ) (e : Message)
    → length w < 0x100_0000
    → length gap ≡ length w + extra_octets (length w) + 2
    → (0 < extra_octets (length w) → 0 < length post)
    → enc_octet_string tag w (at pre (gap ++ post) e)
      ≡ ok tt (at (pre ++ octets_encoding tag w) post e)
enc_octet_string-at tag w pre [] post e hw hg hp = absurd (omega arith)
enc_octet_string-at tag w pre (a ∷ []) post e hw hg hp = absurd (omega arith)
enc_octet_string-at tag w pre (a ∷ b ∷ gap) post e hw hg hp =
    let (front, back, hf, q) = split_at (length w) gap (omega arith) in
    ap (λ t. enc_octet_string tag w (at pre (a ∷ b ∷ t ++ post) e)) q
    ∙ ap (λ t. enc_octet_string tag w (at pre (a ∷ b ∷ t) e)) (append_assoc front back post)
    ∙ enc_octet_string-split tag w pre a b front back post e hw hf
        (omega (arith, ap (length {A = ℕ}) q, length-append front back)) hp

take_octets-at :
    (pre w post : List ℕ) (e : Message)
    → take_octets (length w) (at pre (w ++ post) e) ≡ ok w (at (pre ++ w) post e)
unfolding take_octets
take_octets-at pre w post e =
    rw (drop-append_length pre (w ++ post), take-append_length w post)
      (ok-at w _ _ (pre ++ w) post e (sym (append_assoc pre w post)) (sym (length-append pre w)))

-- The check of TnmBerDecOctetString passes octets that are there.
inside :
    (w pre post : List ℕ)
    → length w < 0x1_0000
    → (ltb 65535 (length w) || ltb (length (pre ++ (w ++ post))) (length pre + length w)) ≡ false
inside w pre post h = ground (arith, length-append pre (w ++ post), length-append w post)

pub dec_octet_string-at :
    (tag : ℕ) (w pre post : List ℕ) (e : Message)
    → length w < 0x1_0000
    → dec_octet_string tag (at pre (octets_encoding tag w ++ post) e)
      ≡ ok w (at (pre ++ octets_encoding tag w) post e)
unfolding dec_octet_string
dec_octet_string-at tag w pre post e hw = rw (append_assoc (length_octets (length w)) w post) (
    rw (expect_tag-at tag pre (length_octets (length w) ++ (w ++ post)) e, ◌>>◌)
      (rw (dec_length-length_octets (pre ++ tag ∷ []) (length w) (w ++ post) e (omega arith), ◌>>=◌)
        (rw same (
          rw (inside w ((pre ++ tag ∷ []) ++ length_octets (length w)) post hw) (
            take_octets-at ((pre ++ tag ∷ []) ++ length_octets (length w)) w post e
            ∙ ap (λ t. ok w (at t post e))
                (append_assoc (pre ++ tag ∷ []) (length_octets (length w)) w
                  ∙ append_assoc pre (tag ∷ []) (length_octets (length w) ++ w)))))))
  where
    same : length w % 2 ^ 16 ≡ length w
    same = omega arith

-- Written into any buffer with room, and read back from any packet.
pub dec_octet_string-enc_octet_string :
    (tag : ℕ) (w pre gap post pre' post' : List ℕ) (e e' : Message)
    → length w < 0x1_0000
    → length gap ≡ length w + extra_octets (length w) + 2
    → (0 < extra_octets (length w) → 0 < length post)
    → (enc_octet_string tag w (at pre (gap ++ post) e)
        ≡ ok tt (at (pre ++ octets_encoding tag w) post e))
      × (dec_octet_string tag (at pre' (octets_encoding tag w ++ post') e')
          ≡ ok w (at (pre' ++ octets_encoding tag w) post' e'))
dec_octet_string-enc_octet_string tag w pre gap post pre' post' e e' hw hg hp = (
  enc_octet_string-at tag w pre gap post e (omega arith) hg hp,
  dec_octet_string-at tag w pre' post' e' hw,
)

-- A length that reaches behind the end of the packet is refused, whatever the packet holds.
pub dec_octet_string_outside :
    (tag n : ℕ) (pre post : List ℕ) (e : Message)
    → n < 0x1_0000
    → length post < n
    → dec_octet_string tag (at pre (tag ∷ (length_octets n ++ post)) e)
      ≡ null (at ((pre ++ tag ∷ []) ++ length_octets n) post (text "BER buffer size exceeded"))
unfolding dec_octet_string
dec_octet_string_outside tag n pre post e hn h =
    rw (expect_tag-at tag pre (length_octets n ++ post) e, ◌>>◌)
      (rw (dec_length-length_octets (pre ++ tag ∷ []) n post e (omega arith), ◌>>=◌) (rw outside))
  where
    outside :
        (ltb 65535 (n % 2 ^ 16)
          || ltb
              (length (((pre ++ tag ∷ []) ++ length_octets n) ++ post))
              (length ((pre ++ tag ∷ []) ++ length_octets n) + n % 2 ^ 16))
        ≡ true
    outside = ground (arith, length-append ((pre ++ tag ∷ []) ++ length_octets n) post)

pub dec_null-enc_null :
    (tag : ℕ) (pre post pre' post' : List ℕ) (a b : ℕ) (e e' : Message)
    → (enc_null tag (at pre (a ∷ b ∷ post) e) ≡ ok tt (at (pre ++ tag ∷ 0 ∷ []) post e))
      × (dec_null tag (at pre' (tag ∷ 0 ∷ post') e') ≡ ok 0 (at (pre' ++ tag ∷ 0 ∷ []) post' e'))
unfolding enc_null dec_null
dec_null-enc_null tag pre post pre' post' a b e e' = (
  rw (enc_byte-at pre tag a (b ∷ post) e, ◌>>◌)
      (enc_byte-at (pre ++ tag ∷ []) 0 b post e
        ∙ ap (λ t. ok tt (at t post e)) (append_assoc pre (tag ∷ []) (0 ∷ []))),
  rw (expect_tag-at tag pre' (0 ∷ post') e', ◌>>◌)
      (dec_length-short (pre' ++ tag ∷ []) 0 post' e' (omega arith)
        ∙ ap (λ t. ok 0 (at t post' e')) (append_assoc pre' (tag ∷ []) (0 ∷ []))),
)
