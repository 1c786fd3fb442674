-- ===== src/Ber/Length/Decode.antt =====
-- What TnmBerDecLength reads.
use tkined_remix.Prelude.{
  ℕ, zero, suc, ◌+◌, ◌*◌, ◌/◌, ◌%◌, ◌^◌, ◌≤◌, ◌<◌, List, [], ◌∷◌, ◌++◌, ◌≡◌, ap, ◌∙◌, arith, length,
  append_assoc, append-nil, ltb, leb, leb→le, ◌==◌, gt→leb, le→leb, inl, inr, Bool-cases, All,
  ltb→lt, ltb→ge, Bool, true, false, ◌&&◌, not,
}
use tkined_remix.Ber.Stream.{Ber, Message, ok, null, ◌>>=◌}
use tkined_remix.Ber.At.{at, dec_byte-at}
use tkined_remix.Ber.Length.{dec_length_loop, dec_length}
use tkined_remix.Ber.Length.Encode.{length_octets}

abbrev pub IsByte : ℕ → Type 0
IsByte b = b < 256

-- The number that octets stand for, the highest first, behind `acc`.
unfoldable pub value_from : ℕ → List ℕ → ℕ
value_from acc [] = acc
value_from acc (b ∷ w) = value_from (acc * 256 + b) w

value_from-ge : (acc : ℕ) (w : List ℕ) → acc ≤ value_from acc w
unfolding value_from
value_from-ge acc [] = omega arith
value_from-ge acc (b ∷ w) = omega (arith, value_from-ge (acc * 256 + b) w)

-- Four octets behind a number that is not 0 make it too large for 32 bits.
value_from_large : (acc : ℕ) (w : List ℕ) → 1 ≤ acc → 4 ≤ length w → 2 ^ 32 ≤ value_from acc w
unfolding value_from
value_from_large acc [] h k = absurd (omega arith)
value_from_large acc (a ∷ []) h k = absurd (omega arith)
value_from_large acc (a ∷ b ∷ []) h k = absurd (omega arith)
value_from_large acc (a ∷ b ∷ c ∷ []) h k = absurd (omega arith)
value_from_large acc (a ∷ b ∷ c ∷ d ∷ w) h k =
    omega (arith, value_from-ge ((((acc * 256 + a) * 256 + b) * 256 + c) * 256 + d) w)

-- What the loop has read before the last `k` octets.
abbrev read_limit : ℕ → ℕ
read_limit zero = 2 ^ 32
read_limit (suc zero) = 2 ^ 24
read_limit (suc (suc zero)) = 2 ^ 16
read_limit (suc (suc (suc zero))) = 2 ^ 8
read_limit (suc (suc (suc (suc k)))) = 1

-- The limit is kept by each octet that the loop lets pass.
read_limit_next :
    (k acc b : ℕ)
    → acc < read_limit (suc k)
    → b < 256
    → (4 ≤ k → b ≡ 0)
    → acc * 256 + b < read_limit k
read_limit_next zero acc b h hb z = omega arith
read_limit_next (suc zero) acc b h hb z = omega arith
read_limit_next (suc (suc zero)) acc b h hb z = omega arith
read_limit_next (suc (suc (suc zero))) acc b h hb z = omega arith
read_limit_next (suc (suc (suc (suc k)))) acc b h hb z = omega (arith, z (omega arith))

shift_fits : (k acc : ℕ) → acc < read_limit (suc k) → acc * 256 % 2 ^ 32 ≡ acc * 256
shift_fits zero acc h = omega arith
shift_fits (suc zero) acc h = omega arith
shift_fits (suc (suc zero)) acc h = omega arith
shift_fits (suc (suc (suc k))) acc h = omega arith

abbrev refuses : ℕ → ℕ → Bool
refuses k b = ltb 4 (suc k) && not (b == 0)

refuses-false : (k b : ℕ) → (4 ≤ k → b ≡ 0) → refuses k b ≡ false
refuses-false k b z = elim (Bool-cases (leb 4 k)) [
  | inl h ↦ ground (arith, z (leb→le _ _ h))
  | inr h ↦ ground arith
]

refuses-zero : (k b : ℕ) → refuses k b ≡ false → 4 ≤ k → b ≡ 0
refuses-zero k b h l = ground arith

refuses-true : (k b : ℕ) → refuses k b ≡ true → (4 ≤ k) × (1 ≤ b)
refuses-true k b h = ground arith

module _ (post : List ℕ) (e : Message) where
  dec_length_loop-ok :
      (pre : List ℕ) (acc : ℕ) (w : List ℕ)
      → All IsByte w
      → acc < read_limit (length w)
      → value_from acc w < 2 ^ 32
      → dec_length_loop (length w) acc (at pre (w ++ post) e)
        ≡ ok (value_from acc w) (at (pre ++ w) post e)
  unfolding dec_length_loop value_from
  dec_length_loop-ok pre acc [] hw ha hv = rw append-nil
  dec_length_loop-ok pre acc (b ∷ w) hw ha hv =
      rw (dec_byte-at pre b (w ++ post) e, ◌>>=◌)
        (rw (refuses-false (length w) b zeros, shift_fits (length w) acc ha)
          (dec_length_loop-ok (pre ++ b ∷ []) (acc * 256 + b) w hw.1
              (read_limit_next (length w) acc b ha hw.0 zeros) hv
            ∙ ap (λ t. ok (value_from (acc * 256 + b) w) (at t post e))
                (append_assoc pre (b ∷ []) w)))
    where
      zeros : 4 ≤ length w → b ≡ 0
      zeros l = ground (arith, value_from_large (acc * 256 + b) w)

  dec_length_loop-null :
      (pre : List ℕ) (acc : ℕ) (w : List ℕ)
      → All IsByte w
      → acc < read_limit (length w)
      → 2 ^ 32 ≤ value_from acc w
      → (t : Ber) × (dec_length_loop (length w) acc (at pre (w ++ post) e) ≡ null t)
  unfolding dec_length_loop value_from
  dec_length_loop-null pre acc [] hw ha hv = absurd (omega arith)
  dec_length_loop-null pre acc (b ∷ w) hw ha hv = elim (Bool-cases (refuses (length w) b)) [
    | inl r ↦ (at (pre ++ b ∷ []) (w ++ post) e, rw (dec_byte-at pre b (w ++ post) e, ◌>>=◌) (rw r))
    | inr r ↦
        let (t, p) =
          dec_length_loop-null (pre ++ b ∷ []) (acc * 256 + b) w hw.1
            (read_limit_next (length w) acc b ha hw.0 (refuses-zero (length w) b r)) hv in
        (t, rw (dec_byte-at pre b (w ++ post) e, ◌>>=◌) (rw (r, shift_fits (length w) acc ha) p))
  ]

read_limit_zero : (k : ℕ) → 0 < read_limit k
read_limit_zero zero = omega arith
read_limit_zero (suc zero) = omega arith
read_limit_zero (suc (suc zero)) = omega arith
read_limit_zero (suc (suc (suc zero))) = omega arith
read_limit_zero (suc (suc (suc (suc k)))) = omega arith

-- The first octet of a long length says how many octets follow.
first_octet : (k : ℕ) → k < 128 → (0x80 + k) % 128 ≡ k
first_octet k h = omega arith

-- A long length whose octets, leading zeros included, stand for a number below 2 ^ 31 is read as
-- that number.
pub dec_length-long :
    (pre w post : List ℕ) (e : Message)
    → length w < 128
    → All IsByte w
    → value_from 0 w < 2 ^ 31
    → dec_length (at pre ((0x80 + length w) ∷ (w ++ post)) e)
      ≡ ok (value_from 0 w) (at (pre ++ ((0x80 + length w) ∷ w)) post e)
unfolding dec_length
dec_length-long pre w post e hl hw hv =
    let b = 0x80 + length w in
    rw (dec_byte-at pre b (w ++ post) e, ◌>>=◌)
      (rw (le→leb 0x80 b (omega arith)) (
        rw (first_octet (length w) hl) (
          rw
            (
              dec_length_loop-ok post e (pre ++ b ∷ []) 0 w hw (read_limit_zero (length w))
                  (omega arith),
              ◌>>=◌,
            )
            (rw (gt→leb (2 ^ 31) (value_from 0 w) hv)
              (ap (λ t. ok (value_from 0 w) (at t post e)) (append_assoc pre (b ∷ []) w))))))

-- Any other number is refused.
pub dec_length_large :
    (pre w post : List ℕ) (e : Message)
    → length w < 128
    → All IsByte w
    → 2 ^ 31 ≤ value_from 0 w
    → (t : Ber) × (dec_length (at pre ((0x80 + length w) ∷ (w ++ post)) e) ≡ null t)
unfolding dec_length
dec_length_large pre w post e hl hw hv =
    let b = 0x80 + length w in
    elim (Bool-cases (ltb (value_from 0 w) (2 ^ 32))) [
      | inl h ↦ (
        at ((pre ++ b ∷ []) ++ w) post e,
        rw (dec_byte-at pre b (w ++ post) e, ◌>>=◌)
            (rw (le→leb 0x80 b (omega arith)) (
              rw (first_octet (length w) hl) (
                rw
                  (
                    dec_length_loop-ok post e (pre ++ b ∷ []) 0 w hw (read_limit_zero (length w))
                        (ltb→lt _ _ h),
                    ◌>>=◌,
                  )
                  (rw (le→leb (2 ^ 31) (value_from 0 w) hv))))),
      )
      | inr h ↦
          let (t, p) =
            dec_length_loop-null post e (pre ++ b ∷ []) 0 w hw (read_limit_zero (length w))
              (ltb→ge _ _ h) in
          (
            t,
            rw (dec_byte-at pre b (w ++ post) e, ◌>>=◌)
                (rw (le→leb 0x80 b (omega arith)) (rw (first_octet (length w) hl) (rw (p, ◌>>=◌)))),
          )
    ]

pub dec_length-short :
    (pre : List ℕ) (n : ℕ) (post : List ℕ) (e : Message)
    → n < 0x80
    → dec_length (at pre (n ∷ post) e) ≡ ok n (at (pre ++ n ∷ []) post e)
unfolding dec_length
dec_length-short pre n post e h = rw (dec_byte-at pre n post e, ◌>>=◌) (rw (gt→leb 0x80 n h))

-- The long forms that TnmBerEncLength writes.
dec_octets :
    (pre w : List ℕ) (n : ℕ) (post : List ℕ) (e : Message)
    → length_octets n ≡ (0x80 + length w) ∷ w
    → length w < 128
    → All IsByte w
    → value_from 0 w ≡ n % 2 ^ 16
    → dec_length (at pre (length_octets n ++ post) e)
      ≡ ok (n % 2 ^ 16) (at (pre ++ length_octets n) post e)
dec_octets pre w n post e q l b v =
    rw (q, ← v) (dec_length-long pre w post e l b (omega (arith, v)))

-- What TnmBerEncLength wrote is read as the length modulo 2 ^ 16.
pub dec_length-length_octets :
    (pre : List ℕ) (n : ℕ) (post : List ℕ) (e : Message)
    → n < 0x100_0000
    → dec_length (at pre (length_octets n ++ post) e)
      ≡ ok (n % 2 ^ 16) (at (pre ++ length_octets n) post e)
unfolding length_octets value_from
dec_length-length_octets pre n post e h = elim (Bool-cases (ltb n 0x80)) [
  | inl a ↦
      let small : n % 2 ^ 16 ≡ n = omega (arith, ltb→lt _ _ a) in
      rw (a, small) (dec_length-short pre n post e (ltb→lt _ _ a))
  | inr a ↦ elim (Bool-cases (ltb n 0x100)) [
    | inl b ↦
        dec_octets pre (n ∷ []) n post e (rw (a, b)) (omega arith) (omega (arith, ltb→lt _ _ b))
          (omega (arith, ltb→lt _ _ b))
    | inr b ↦ elim (Bool-cases (ltb n 0x1_0000)) [
      | inl c ↦
          dec_octets pre (n / 256 ∷ n % 256 ∷ []) n post e (rw (a, b, c)) (omega arith)
            (omega (arith, ltb→lt _ _ c)) (omega (arith, ltb→lt _ _ c))
      | inr c ↦
          dec_octets pre (0 ∷ n / 256 % 256 ∷ n % 256 ∷ []) n post e (rw (a, b, c)) (omega arith)
            (omega arith) (omega arith)
    ]
  ]
]
