-- ===== src/Ber/Frames.antt =====
-- Encodings put together of the functions of tnm/snmp/tnmAsn1.c: which bytes a piece of code writes
-- into a buffer with room, and which bytes it reads.
use tkined_remix.Prelude.{
  ℕ, ◌+◌, ◌%◌, ◌^◌, ◌<◌, List, [], ◌∷◌, ◌++◌, ◌≡◌, refl, sym, ap, ◌∙◌, arith, length, length-append,
  append_assoc, append-nil, split_at,
}
use mathlib.Core.Path.{subst}
use tkined_remix.Ber.Stream.{M, Message, ok, pure, ◌>>=◌, ◌>>◌}
use tkined_remix.Ber.At.{at}
use tkined_remix.Ber.Length.Encode.{length_octets, extra_octets, length-length_octets}
use tkined_remix.Ber.Integer.{enc_int, dec_int}
use tkined_remix.Ber.Integer.Encode.{int_encoding, enc_int-at, length-int_octets}
use tkined_remix.Ber.Integer.RoundTrip.{int_seen, dec_int-encoding}
use tkined_remix.Ber.Octets.{enc_octet_string, dec_octet_string}
use tkined_remix.Ber.Octets.RoundTrip.{octets_encoding, enc_octet_string-at, dec_octet_string-at}
use tkined_remix.Ber.Sequence.{
  enc_sequence_start, enc_sequence_end, dec_sequence_start, dec_sequence_end,
}
use tkined_remix.Ber.Sequence.RoundTrip.{
  enc_sequence_end-at, enc_sequence_start-at, dec_sequence_start-at, dec_sequence_end-at,
}

-- `m` writes `w` into any buffer with room for it and one more byte.
pub record Writes (m : M (Unit {0})) (w : List ℕ) : Type 0 where
  pub run :
      (pre gap post : List ℕ) (e : Message)
      → length gap ≡ length w
      → 0 < length post
      → m (at pre (gap ++ post) e) ≡ ok tt (at (pre ++ w) post e)

pub >>-Writes :
    {m k : M (Unit {0})} {w v : List ℕ} → Writes m w → Writes k v → Writes (m >> k) (w ++ v)
>>-Writes {m} {k} {w} {v} hm hk = record {
  run = λ pre gap post e hg hp.
      let (front, back, hf, q) = split_at (length w) gap (omega (arith, length-append w v)) in
      let hb : length back ≡ length v =
        omega (arith, ap (length {A = ℕ}) q, length-append front back, length-append w v) in
      ap (λ t. (m >> k) (at pre (t ++ post) e)) q
      ∙ ap (λ t. (m >> k) (at pre t e)) (append_assoc front back post)
      ∙ rw (hm.run pre front (back ++ post) e hf (omega (arith, length-append back post)), ◌>>◌)
          (hk.run (pre ++ w) back post e hb hp
            ∙ ap (λ t. ok tt (at t post e)) (append_assoc pre w v));
}

pub enc_int-Writes : (tag v : ℕ) → v < 2 ^ 32 → Writes (enc_int tag v) (int_encoding tag v)
enc_int-Writes tag v h = record {
  run = λ pre gap post e hg hp.
      enc_int-at tag v pre gap post e h (omega (arith, length-int_octets v));
}

pub enc_octet_string-Writes :
    (tag : ℕ) (w : List ℕ)
    → length w < 0x100_0000
    → Writes (enc_octet_string tag w) (octets_encoding tag w)
enc_octet_string-Writes tag w h = record {
  run = λ pre gap post e hg hp.
      enc_octet_string-at tag w pre gap post e h
        (omega
          (arith, length-length_octets (length w) h, length-append (length_octets (length w)) w))
        (λ z. hp);
}

-- A sequence around the bytes `c`.
abbrev pub framed : ℕ → List ℕ → List ℕ
framed tag c = tag ∷ (length_octets (length c) ++ c)

-- The code that writes a sequence around what `m` writes.
abbrev pub sequence : ℕ → M (Unit {0}) → M (Unit {0})
sequence tag m = enc_sequence_start tag >>= λ token. m >> enc_sequence_end token

sequence-at :
    (tag : ℕ) {m : M (Unit {0})} (c pre : List ℕ) (a b : ℕ) (front back post : List ℕ) (e : Message)
    → length c < 0x100_0000
    → Writes m c
    → length front ≡ length c
    → length back ≡ extra_octets (length c)
    → 0 < length post
    → sequence tag m (at pre (a ∷ b ∷ front ++ (back ++ post)) e)
      ≡ ok tt (at (pre ++ framed tag c) post e)
sequence-at tag c pre a b front back post e hc hm hf hb hp =
    rw (enc_sequence_start-at tag pre a b (front ++ (back ++ post)) e, ◌>>=◌)
      (rw
        (
          hm.run ((pre ++ tag ∷ []) ++ 0 ∷ []) front (back ++ post) e hf
              (omega (arith, length-append back post)),
          ◌>>◌,
        )
        (rw (append_assoc (pre ++ tag ∷ []) (0 ∷ []) c) (
          enc_sequence_end-at c (pre ++ tag ∷ []) back post 0 e hc hb (λ z. hp)
          ∙ ap (λ t. ok tt (at t post e))
              (append_assoc pre (tag ∷ []) (length_octets (length c) ++ c)))))

pub sequence-Writes :
    (tag : ℕ) {m : M (Unit {0})} {c : List ℕ}
    → length c < 0x100_0000
    → Writes m c
    → Writes (sequence tag m) (framed tag c)
sequence-Writes tag {m} {c} hc hm = record { run = go }
  where
    size : length (framed tag c) ≡ length c + extra_octets (length c) + 2
    size =
        omega
          (arith, length-length_octets (length c) hc, length-append (length_octets (length c)) c)

    go :
        (pre gap post : List ℕ) (e : Message)
        → length gap ≡ length (framed tag c)
        → 0 < length post
        → sequence tag m (at pre (gap ++ post) e) ≡ ok tt (at (pre ++ framed tag c) post e)
    go pre [] post e hg hp = absurd (omega (arith, size))
    go pre (a ∷ []) post e hg hp = absurd (omega (arith, size))
    go pre (a ∷ b ∷ gap) post e hg hp =
        let (front, back, hf, q) = split_at (length c) gap (omega (arith, size)) in
        ap (λ t. sequence tag m (at pre (a ∷ b ∷ t ++ post) e)) q
        ∙ ap (λ t. sequence tag m (at pre (a ∷ b ∷ t) e)) (append_assoc front back post)
        ∙ sequence-at tag c pre a b front back post e hc hm hf
            (omega (arith, ap (length {A = ℕ}) q, length-append front back, size)) hp

-- Behind `pre` and the bytes `c`, `m` reads `w` as `a`, whatever follows.
pub record Reads {ℓ} {A : Type ℓ} (pre c : List ℕ) (m : M A) (w : List ℕ) (a : A) : Type ℓ where
  pub run :
      (post : List ℕ) (e : Message)
      → m (at (pre ++ c) (w ++ post) e) ≡ ok a (at (pre ++ (c ++ w)) post e)

-- What is read from any place on.
abbrev pub ReadsAnywhere {ℓ} : {A : Type ℓ} → M A → List ℕ → A → Type ℓ
ReadsAnywhere m w a =
    (pre post : List ℕ) (e : Message) → m (at pre (w ++ post) e) ≡ ok a (at (pre ++ w) post e)

module _ {ℓ} {A : Type ℓ} where
  pub anywhere :
      (m : M A) (w : List ℕ) (a : A) → ReadsAnywhere m w a → (pre c : List ℕ) → Reads pre c m w a
  anywhere m w a h pre c = record {
    run = λ post e. h (pre ++ c) post e ∙ ap (λ t. ok a (at t post e)) (append_assoc pre c w);
  }

  pub pure-Reads : (pre c : List ℕ) (a : A) → Reads pre c (pure a) [] a
  pure-Reads pre c a = record { run = λ post e. rw append-nil }

module _ {ℓ κ} {A : Type ℓ} {B : Type κ} where
  pub >>=-Reads :
      {pre c : List ℕ} {m : M A} {w v : List ℕ} {a : A} {b : B} (f : A → M B)
      → Reads pre c m w a
      → Reads pre (c ++ w) (f a) v b
      → Reads pre c (m >>= f) (w ++ v) b
  >>=-Reads {pre} {c} {m} {w} {v} {a} {b} f hm hf = record {
    run = λ post e.
        ap (λ t. (m >>= f) (at (pre ++ c) t e)) (append_assoc w v post)
        ∙ rw (hm.run (v ++ post) e, ◌>>=◌)
            (hf.run post e ∙ ap (λ t. ok b (at (pre ++ t) post e)) (append_assoc c w v));
  }

pub dec_int-Reads :
    (tag v : ℕ) (pre c : List ℕ)
    → v < 2 ^ 32
    → Reads pre c (dec_int tag) (int_encoding tag v) (int_seen tag v)
dec_int-Reads tag v pre c h =
    anywhere (dec_int tag) (int_encoding tag v) (int_seen tag v)
      (λ pre post e. dec_int-encoding tag v pre post e h) pre c

pub dec_octet_string-Reads :
    (tag : ℕ) (w pre c : List ℕ)
    → length w < 0x1_0000
    → Reads pre c (dec_octet_string tag) (octets_encoding tag w) w
dec_octet_string-Reads tag w pre c h =
    anywhere (dec_octet_string tag) (octets_encoding tag w) w
      (λ pre post e. dec_octet_string-at tag w pre post e h) pre c

-- The end of a sequence whose content has been read.
pub dec_sequence_end-Reads :
    (pre c : List ℕ) (n : ℕ) → n ≡ length c → Reads pre c (dec_sequence_end (length pre) n) [] tt
dec_sequence_end-Reads pre c n h = record {
  run = λ post e. rw (h, append-nil) (dec_sequence_end-at pre c post e);
}

-- A sequence whose content is read behind its token.
pub sequence-Reads {ℓ} :
    {A : Type ℓ} (tag : ℕ) (f : ℕ × ℕ → M A) (c : List ℕ) (a : A)
    → length c < 0x1_0000
    → ((pre : List ℕ) → Reads pre [] (f (length pre, length c)) c a)
    → ReadsAnywhere (dec_sequence_start tag >>= f) (framed tag c) a
sequence-Reads tag f c a h hf pre post e =
    let head = (pre ++ tag ∷ []) ++ length_octets (length c) in
    rw (append_assoc (length_octets (length c)) c post) (
      rw (dec_sequence_start-at tag (length c) pre (c ++ post) e (omega arith), ◌>>=◌)
        (rw small (
          ap (λ t. f (length head, length c) (at t (c ++ post) e)) (sym (append-nil head))
          ∙ (hf head).run post e
          ∙ ap (λ t. ok a (at t post e))
              (append_assoc (pre ++ tag ∷ []) (length_octets (length c)) c
                ∙ append_assoc pre (tag ∷ []) (length_octets (length c) ++ c)))))
  where
    small : length c % 2 ^ 16 ≡ length c
    small = omega arith

pub dec_integer-Reads :
    (v : ℕ) (pre c : List ℕ) → v < 2 ^ 32 → Reads pre c (dec_int 2) (int_encoding 2 v) v
unfolding int_seen
dec_integer-Reads v pre c h = dec_int-Reads 2 v pre c h

-- The last piece, with nothing to read behind it.
pub >>=-last {ℓ κ} :
    {A : Type ℓ} {B : Type κ} {pre c : List ℕ} {m : M A} {w : List ℕ} {a : A} {b : B} (f : A → M B)
    → Reads pre c m w a
    → Reads pre (c ++ w) (f a) [] b
    → Reads pre c (m >>= f) w b
>>=-last {pre} {c} {m} {w} {b} f hm hf =
    subst (λ t. Reads pre c (m >>= f) t b) (append-nil w) (>>=-Reads f hm hf)

-- The end of a sequence, and its result.
pub closing {ℓ} :
    {A : Type ℓ} (pre c : List ℕ) (n : ℕ) (a : A)
    → n ≡ length c
    → Reads pre c (dec_sequence_end (length pre) n >> pure a) [] a
closing pre c n a h = record {
  run = λ post e. rw ((dec_sequence_end-Reads pre c n h).run post e, ◌>>◌) refl;
}
