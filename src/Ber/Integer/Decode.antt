-- ===== src/Ber/Integer/Decode.antt =====
-- What TnmBerDecInt reads.
use tkined_remix.Prelude.{
  ℕ, suc, ◌+◌, ◌-◌, ◌*◌, ◌%◌, ◌^◌, ◌<◌, List, [], ◌∷◌, ◌++◌, ◌≡◌, refl, ap, ◌∙◌, arith, length,
  length-append, append_assoc, append-nil, if◌then◌else◌, ltb, leb, ◌==◌, eq→==, true, false, ◌||◌,
  ◌&&◌, not, Bool, All,
}
use tkined_remix.Ber.Stream.{
  Message, ok, ◌>>=◌, ◌>>◌, expect_tag, fail_wrong_length, null, wrong_length,
}
use tkined_remix.Ber.At.{at, dec_byte-at, dec_peek-at}
use tkined_remix.Ber.Length.Decode.{dec_length-short, value_from, IsByte}
use tkined_remix.Ber.Integer.{dec_int_loop, dec_int_value, dec_int}

pub expect_tag-at :
    (tag : ℕ) (pre post : List ℕ) (e : Message)
    → expect_tag tag (at pre (tag ∷ post) e) ≡ ok tt (at (pre ++ tag ∷ []) post e)
unfolding expect_tag
expect_tag-at tag pre post e = rw (dec_byte-at pre tag post e, ◌>>=◌) (rw (eq→== tag tag refl))

-- The loop reads the octets modulo 2 ^ 32.
dec_int_loop-at :
    (w : List ℕ) (pre post : List ℕ) (v n : ℕ) (e : Message)
    → v ≡ n % 2 ^ 32
    → All IsByte w
    → dec_int_loop (length w) v (at pre (w ++ post) e)
      ≡ ok (value_from n w % 2 ^ 32) (at (pre ++ w) post e)
unfolding dec_int_loop value_from
dec_int_loop-at [] pre post v n e h hw = rw (append-nil, h)
dec_int_loop-at (b ∷ w) pre post v n e h hw =
    rw (dec_byte-at pre b (w ++ post) e, ◌>>=◌)
      (dec_int_loop-at w (pre ++ b ∷ []) post (v * 256 % 2 ^ 32 + b) (n * 256 + b) e next hw.1
        ∙ ap (λ t. ok (value_from (n * 256 + b) w % 2 ^ 32) (at t post e))
            (append_assoc pre (b ∷ []) w))
  where
    next : v * 256 % 2 ^ 32 + b ≡ (n * 256 + b) % 2 ^ 32
    next = omega (arith, hw.0)

-- What the loop starts from: all ones for a negative INTEGER.
abbrev pub sign_fill : ℕ → ℕ → ℕ
sign_fill tag byte = if tag == 2 && leb 0x80 byte then 2 ^ 32 - 1 else 0

-- The number of octets is accepted.
abbrev pub fits_int : ℕ → ℕ → Bool
fits_int len byte = not ((not (byte == 0) && ltb 4 len) || (byte == 0 && ltb 4 (len - 1)))

suc_ne_zero : (k : ℕ) → (suc k == 0) ≡ false
suc_ne_zero k = ground arith

not-true : (b : Bool) → not b ≡ true → b ≡ false
not-true false h = refl
not-true true h = cc

never_negative : (a b : Bool) → ((a && b) && not a) ≡ false
never_negative false b = refl
never_negative true false = refl
never_negative true true = refl

sign_fill_lt : (tag b : ℕ) → sign_fill tag b ≡ sign_fill tag b % 2 ^ 32
sign_fill_lt tag b = ground arith

-- The check on negative values behind the loop never fails.
dec_int_value-fits :
    (tag b : ℕ) (w pre post : List ℕ) (e : Message)
    → All IsByte (b ∷ w)
    → fits_int (length (b ∷ w)) b ≡ true
    → dec_int_value tag (length (b ∷ w)) b (at pre (b ∷ w ++ post) e)
      ≡ ok (value_from (sign_fill tag b) (b ∷ w) % 2 ^ 32) (at (pre ++ b ∷ w) post e)
unfolding dec_int_value
dec_int_value-fits tag b w pre post e hw hf = rw (not-true _ hf) (
    rw
      (
        dec_int_loop-at (b ∷ w) pre post (sign_fill tag b) (sign_fill tag b) e (sign_fill_lt tag b)
            hw,
        ◌>>=◌,
      )
      (rw (never_negative (tag == 2) (leb 0x80 b))))

pub dec_int-fits :
    (tag b : ℕ) (w pre post : List ℕ) (e : Message)
    → All IsByte (b ∷ w)
    → length (b ∷ w) < 0x80
    → fits_int (length (b ∷ w)) b ≡ true
    → dec_int tag (at pre (tag ∷ length (b ∷ w) ∷ b ∷ w ++ post) e)
      ≡ ok
          (value_from (sign_fill tag b) (b ∷ w) % 2 ^ 32)
          (at (pre ++ tag ∷ length (b ∷ w) ∷ b ∷ w) post e)
unfolding dec_int
dec_int-fits tag b w pre post e hw hl hf =
    rw (expect_tag-at tag pre (n ∷ b ∷ w ++ post) e, ◌>>◌)
      (rw (dec_length-short (pre ++ tag ∷ []) n (b ∷ w ++ post) e hl, ◌>>=◌)
        (rw (suc_ne_zero (length w)) (
          rw (dec_peek-at ((pre ++ tag ∷ []) ++ n ∷ []) b (w ++ post) e, ◌>>=◌)
            (dec_int_value-fits tag b w ((pre ++ tag ∷ []) ++ n ∷ []) post e hw hf
              ∙ ap (λ t. ok (value_from (sign_fill tag b) (b ∷ w) % 2 ^ 32) (at t post e))
                  (append_assoc (pre ++ tag ∷ []) (n ∷ []) (b ∷ w)
                    ∙ append_assoc pre (tag ∷ []) (n ∷ b ∷ w))))))
  where
    n : ℕ
    n = length (b ∷ w)

-- Any other length is refused with a message that names it.
pub dec_int_too_long :
    (tag b : ℕ) (w pre post : List ℕ) (e : Message)
    → length (b ∷ w) < 0x80
    → fits_int (length (b ∷ w)) b ≡ false
    → dec_int tag (at pre (tag ∷ length (b ∷ w) ∷ b ∷ w ++ post) e)
      ≡ null (
          at
            ((pre ++ tag ∷ []) ++ length (b ∷ w) ∷ [])
            (b ∷ w ++ post)
            (wrong_length (length (b ∷ w)) tag (length pre + 2)))
unfolding dec_int dec_int_value fail_wrong_length
dec_int_too_long tag b w pre post e hl hf =
    rw (expect_tag-at tag pre (n ∷ b ∷ w ++ post) e, ◌>>◌)
      (rw (dec_length-short (pre ++ tag ∷ []) n (b ∷ w ++ post) e hl, ◌>>=◌)
        (rw (suc_ne_zero (length w)) (
          rw (dec_peek-at ((pre ++ tag ∷ []) ++ n ∷ []) b (w ++ post) e, ◌>>=◌)
            (rw (not-false _ hf) (
              ap
                (λ k.
                  null (at ((pre ++ tag ∷ []) ++ n ∷ []) (b ∷ w ++ post) (wrong_length n tag k)))
                (omega (
                  arith,
                  length-append (pre ++ tag ∷ []) (n ∷ []),
                  length-append pre (tag ∷ []),
                )))))))
  where
    n : ℕ
    n = length (b ∷ w)

    not-false : (c : Bool) → not c ≡ false → c ≡ true
    not-false true h = refl
    not-false false h = cc
