-- ===== src/Ber/Oid/Termination.antt =====
-- The loops of TnmBerDecOID end on every packet: their fuel never runs out.
use tkined_remix.Prelude.{
  ℕ, zero, suc, ◌+◌, ◌-◌, ◌*◌, ◌%◌, ◌^◌, ◌≤◌, ◌<◌, List, ◌≡◌, refl, arith, length, ◌⊎◌, ◌≢◌, ltb,
  leb, ◌==◌, inl, inr, Bool-cases, leb→gt, get_or, not, ◌&&◌, set,
}
use tkined_remix.Ber.Stream.{
  Ber, M, Outcome, ok, null, fault, spent, ◌>>=◌, dec_byte, expect_tag, fail_wrong_tag,
  fail_wrong_value, text,
}
use tkined_remix.Ber.Length.{dec_length_loop, dec_length}
use tkined_remix.Ber.Oid.{
  store, dec_subid, dec_rest_of_subid, split_first, dec_oid_loop, dec_oid, max_size,
}

-- The bytes that are left.
abbrev pub left : Ber → ℕ
left s = length s.mem - s.current

-- A byte is read, and fewer are left, or the stream refuses.
pub record Passed (s : Ber) : Type 0 where
  pub byte : ℕ
  pub next : Ber
  pub read : dec_byte s ≡ ok byte next
  pub fewer : left next < left s

pub dec_byte-cases : (s : Ber) → Passed s ⊎ ((t : Ber) × (dec_byte s ≡ null t))
unfolding dec_byte
dec_byte-cases s = elim (Bool-cases (leb (length s.mem) s.current)) [
  | inl a ↦ inr (record s { error = text "BER buffer overflow" }, rw a)
  | inr b ↦ inl (record {
    byte = get_or s.mem s.current 0;
    next = record s { current = s.current + 1 };
    read = rw b;
    fewer = omega (arith, leb→gt (length s.mem) s.current b);
  })
]

-- What does not run out of fuel, step by step.
pub >>=-ne-spent {ℓ κ} :
    {A : Type ℓ} {B : Type κ} (m : M A) (f : A → M B) (s : Ber)
    → m s ≢ spent
    → ((a : A) (t : Ber) → m s ≡ ok a t → f a t ≢ spent)
    → (m >>= f) s ≢ spent
>>=-ne-spent m f s h k = go (m s) refl
  where
    go :
        (o : Outcome _)
        → m s ≡ o
        → (elim o [ ok a t ↦ f a t | null t ↦ null t | fault ↦ fault | spent ↦ spent ]) ≢ spent
    go (ok a t) e = k a t e
    go (null t) e = λ q. cc
    go fault e = λ q. cc
    go spent e = absurd (h e)

pub dec_byte-ne-spent : (s : Ber) → dec_byte s ≢ spent
dec_byte-ne-spent s = elim (dec_byte-cases s) [
  | inl p ↦ rw p.read (λ q. cc)
  | inr (t, e) ↦ rw e (λ q. cc)
]

dec_length_loop-ne-spent : (k acc : ℕ) (s : Ber) → dec_length_loop k acc s ≢ spent
unfolding dec_length_loop
dec_length_loop-ne-spent zero acc s = λ q. cc
dec_length_loop-ne-spent (suc k) acc s = >>=-ne-spent dec_byte _ s (dec_byte-ne-spent s) λ b t e.
    elim (Bool-cases (ltb 4 (suc k) && not (b == 0))) [
      | inl r ↦ rw r (λ q. cc)
      | inr r ↦ rw r (dec_length_loop-ne-spent k (acc * 256 % 2 ^ 32 + b) t)
    ]

pub dec_length-ne-spent : (s : Ber) → dec_length s ≢ spent
unfolding dec_length
dec_length-ne-spent s = >>=-ne-spent dec_byte _ s (dec_byte-ne-spent s) λ b t e.
    elim (Bool-cases (leb 0x80 b)) [
      | inl r ↦ rw r (
          >>=-ne-spent (dec_length_loop (b % 128) 0) _ t (dec_length_loop-ne-spent (b % 128) 0 t)
            λ n u q. elim (Bool-cases (leb (2 ^ 31) n)) [
              | inl o ↦ rw o (λ z. cc)
              | inr o ↦ rw o (λ z. cc)
            ])
      | inr r ↦ rw r (λ q. cc)
    ]

pub expect_tag-ne-spent : (tag : ℕ) (s : Ber) → expect_tag tag s ≢ spent
unfolding expect_tag fail_wrong_tag
expect_tag-ne-spent tag s =
    >>=-ne-spent dec_byte _ s (dec_byte-ne-spent s)
      λ b t e. elim (Bool-cases (b == tag)) [ inl o ↦ rw o (λ z. cc) | inr o ↦ rw o (λ z. cc) ]

dec_subid-ne-spent : (f b acc more : ℕ) (s : Ber) → left s < f → dec_subid f b acc more s ≢ spent
unfolding dec_subid
dec_subid-ne-spent zero b acc more s h = absurd (omega arith)
dec_subid-ne-spent (suc f) b acc more s h = elim (Bool-cases (ltb 0x7f b)) [
  | inr r ↦ rw (r, dec_subid) (λ q. cc)
  | inl r ↦
      rw (r, dec_subid)
        (elim (dec_byte-cases s) [
          | inl p ↦
              rw (p.read, ◌>>=◌)
                (dec_subid-ne-spent f p.byte ((acc * 128 + b % 128) % 2 ^ 32) (more + 1) p.next
                  (omega (arith, p.fewer)))
          | inr (t, e) ↦ rw (e, ◌>>=◌) (λ q. cc)
        ])
]

dec_rest_of_subid-ne-spent : (b : ℕ) (s : Ber) → dec_rest_of_subid b s ≢ spent
unfolding dec_rest_of_subid
dec_rest_of_subid-ne-spent b s = dec_subid-ne-spent (suc (length s.mem)) b 0 0 s (omega arith)

pub store-ne-spent : (oid : List ℕ) (i v : ℕ) (s : Ber) → store oid i v s ≢ spent
unfolding store
store-ne-spent oid i v s = elim (Bool-cases (ltb i (length oid))) [
  | inl r ↦ rw r (λ q. cc)
  | inr r ↦ rw r (λ q. cc)
]

dec_oid_loop-ne-spent :
    (f len i : ℕ) (oid : List ℕ) (s : Ber) → len ≤ f → dec_oid_loop f len i oid s ≢ spent
unfolding dec_oid_loop fail_wrong_value
dec_oid_loop-ne-spent zero zero i oid s h = λ q. cc
dec_oid_loop-ne-spent (suc f) zero i oid s h = λ q. cc
dec_oid_loop-ne-spent zero (suc len) i oid s h = absurd (omega arith)
dec_oid_loop-ne-spent (suc f) (suc len) i oid s h =
    >>=-ne-spent (store oid i 0) _ s (store-ne-spent oid i 0 s) λ oid₀ t e.
      >>=-ne-spent dec_byte _ t (dec_byte-ne-spent t) λ b u e'.
        >>=-ne-spent (dec_rest_of_subid b) _ u (dec_rest_of_subid-ne-spent b u) λ (v, more) w e''.
          elim (Bool-cases (ltb max_size (i + 1))) [
            | inl r ↦ rw r (λ q. cc)
            | inr r ↦ rw r (
                dec_oid_loop-ne-spent f (len - more) (i + 1) (split_first i (set oid₀ i v)) w
                  (omega arith))
          ]

-- TnmBerDecOID ends on every packet and every array.
pub dec_oid-ne-spent : (oid : List ℕ) (s : Ber) → dec_oid oid s ≢ spent
unfolding dec_oid fail_wrong_value
dec_oid-ne-spent oid s = >>=-ne-spent (expect_tag 6) _ s (expect_tag-ne-spent 6 s) λ x t e.
    >>=-ne-spent dec_length _ t (dec_length-ne-spent t) λ len u e'. elim (Bool-cases (len == 0)) [
      | inl r ↦ rw r (λ q. cc)
      | inr r ↦ rw r (dec_oid_loop-ne-spent len len 1 oid u (omega arith))
    ]
