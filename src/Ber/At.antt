-- ===== src/Ber/At.antt =====
-- A stream seen from its current position, and the byte functions there.
use tkined_remix.Prelude.{
  ℕ, ◌+◌, List, [], ◌∷◌, ◌++◌, ◌≡◌, refl, ap, arith, le→leb, gt→leb, length, length-append,
  get_or-append_length, set-append_length, append_assoc,
}
use tkined_remix.Ber.Stream.{Ber, Message, text, ok, null, dec_byte, dec_peek, enc_byte}

-- The stream that has passed the bytes `pre` and has `post` before it.
abbrev pub at : List ℕ → List ℕ → Message → Ber
at pre post e = record { mem = pre ++ post; current = length pre; error = e }

-- The same bytes, with one more passed.
pub at_next :
    (pre : List ℕ) (b : ℕ) (post : List ℕ) (e : Message)
    → ◌≡◌ {A = Ber}
        (record { mem = pre ++ b ∷ post; current = length pre + 1; error = e })
        (at (pre ++ b ∷ []) post e)
at_next pre b post e = λ i. record {
  mem = (let p : (pre ++ b ∷ post) ≡ ((pre ++ b ∷ []) ++ post) = rw append_assoc in p) i;
  current =
      (let p : length pre + 1 ≡ length (pre ++ b ∷ []) =
            omega (arith, length-append pre (b ∷ [])) in
          p)
        i;
  error = e;
}

pub dec_byte-at :
    (pre : List ℕ) (b : ℕ) (post : List ℕ) (e : Message)
    → dec_byte (at pre (b ∷ post) e) ≡ ok b (at (pre ++ b ∷ []) post e)
unfolding dec_byte
dec_byte-at pre b post e =
    rw
      (gt→leb (length (pre ++ b ∷ post)) (length pre) (omega (arith, length-append pre (b ∷ post))))
      (rw (get_or-append_length pre b post 0) (ap (ok b) (at_next pre b post e)))

pub dec_peek-at :
    (pre : List ℕ) (b : ℕ) (post : List ℕ) (e : Message)
    → dec_peek (at pre (b ∷ post) e) ≡ ok b (at pre (b ∷ post) e)
unfolding dec_peek
dec_peek-at pre b post e =
    rw
      (gt→leb (length (pre ++ b ∷ post)) (length pre) (omega (arith, length-append pre (b ∷ post))))
      (rw (get_or-append_length pre b post 0))

pub enc_byte-at :
    (pre : List ℕ) (v b : ℕ) (post : List ℕ) (e : Message)
    → enc_byte v (at pre (b ∷ post) e) ≡ ok tt (at (pre ++ v ∷ []) post e)
unfolding enc_byte
enc_byte-at pre v b post e =
    rw
      (gt→leb (length (pre ++ b ∷ post)) (length pre) (omega (arith, length-append pre (b ∷ post))))
      (rw (set-append_length pre b post v) (ap (ok tt) (at_next pre v post e)))

-- At the end of the bytes both refuse, and leave the stream where it is.
pub dec_byte-end :
    (pre : List ℕ) (e : Message)
    → dec_byte (at pre [] e) ≡ null (at pre [] (text "BER buffer overflow"))
unfolding dec_byte
dec_byte-end pre e =
    rw (le→leb (length (pre ++ [])) (length pre) (omega (arith, length-append pre []))) refl

pub enc_byte-end :
    (pre : List ℕ) (v : ℕ) (e : Message)
    → enc_byte v (at pre [] e) ≡ null (at pre [] (text "BER buffer size exceeded"))
unfolding enc_byte
enc_byte-end pre v e =
    rw (le→leb (length (pre ++ [])) (length pre) (omega (arith, length-append pre []))) refl

-- To see a stream at a position it is enough to see its bytes and the position.
pub ok-at {ℓ} :
    {A : Type ℓ} (a : A) (mem : List ℕ) (current : ℕ) (pre post : List ℕ) (e : Message)
    → mem ≡ pre ++ post
    → current ≡ length pre
    → ok a (record { mem = mem; current = current; error = e }) ≡ ok a (at pre post e)
ok-at a mem current pre post e p q = λ i. ok a (record { mem = p i; current = q i; error = e })
