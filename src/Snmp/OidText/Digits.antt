-- ===== src/Snmp/OidText/Digits.antt =====
-- The digits that TnmOidToStr and TnmOidToString write, and the number they stand for.
use tkined_remix.Prelude.{
  ℕ, zero, suc, ◌+◌, ◌-◌, ◌*◌, ◌/◌, ◌%◌, ◌^◌, ◌≤◌, ◌<◌, List, [], ◌∷◌, ◌++◌, true, false, ◌≡◌, refl,
  sym, ap, ◌∙◌, arith, ltb, leb, ◌==◌, Bool-cases, inl, inr, All, ==→eq,
}
use tkined_remix.Snmp.OidText.{grow, emit, subid_text, is_digit, with_digit}

abbrev ten : ℕ → ℕ
ten zero = 1
ten (suc k) = 10 * ten k

-- What the second loop of TnmOidFromString makes of digits.
abbrev pub value : ℕ → List ℕ → ℕ
value e [] = e
value e (c ∷ cs) = value (with_digit false e c) cs

tenth : (k u : ℕ) → k ≤ 8 → u / ten (suc k) ≡ u / ten k / 10
tenth zero u h = omega arith
tenth (suc zero) u h = omega arith
tenth (suc (suc zero)) u h = omega arith
tenth (suc (suc (suc zero))) u h = omega arith
tenth (suc (suc (suc (suc zero)))) u h = omega arith
tenth (suc (suc (suc (suc (suc zero))))) u h = omega arith
tenth (suc (suc (suc (suc (suc (suc zero)))))) u h = omega arith
tenth (suc (suc (suc (suc (suc (suc (suc zero))))))) u h = omega arith
tenth (suc (suc (suc (suc (suc (suc (suc (suc zero)))))))) u h = omega arith
tenth (suc (suc (suc (suc (suc (suc (suc (suc (suc k))))))))) u h = absurd (omega arith)

ten-pos : (k : ℕ) → 0 < ten k
ten-pos zero = omega arith
ten-pos (suc k) = omega (arith, ten-pos k)

quotient-le : (k u : ℕ) → k ≤ 9 → u / ten k ≤ u
quotient-le zero u h = omega arith
quotient-le (suc k) u h = omega (arith, tenth k u (omega arith), quotient-le k u (omega arith))

abbrev pub IsDigits : List ℕ → Type 0
IsDigits s = All (λ c. is_digit c ≡ true) s

-- The loop that writes the digits below t = 10 ^ k.
emit-value :
    (f k u : ℕ)
    → k ≤ 9
    → k < f
    → u < 2 ^ 32
    → (value (u / ten k) (emit f u (ten k)) ≡ u) × IsDigits (emit f u (ten k))
unfolding emit with_digit
emit-value zero k u h hf hu = absurd (omega arith)
emit-value (suc f) zero u h hf hu = (omega arith, tt)
emit-value (suc f) (suc k) u h hf hu =
    let ih = emit-value f k u (omega arith) (omega arith) hu in
    let t : ten (suc k) / 10 ≡ ten k = omega arith in
    let on : (ten k == 0) ≡ false = ground (arith, ten-pos k) in
    let q = tenth k u (omega arith) in
    let le = quotient-le k u (omega arith) in
    let d : with_digit false (u / ten (suc k)) (b'0' + u / ten k % 10) ≡ u / ten k =
      omega (arith, q, le) in
    rw (t, on, emit) (rw t (ap (λ e. value e (emit f u (ten k))) d ∙ ih.0, (ground arith, ih.1)))

ten-le : (n k : ℕ) → k + n ≡ 8 → ten k ≤ 10 ^ 8
ten-le zero k h = (let top : k ≡ 8 = omega arith in rw top (omega arith))
ten-le (suc n) k h = omega (arith, ten-le n (suc k) (omega arith))

no_quotient : (k u : ℕ) → k ≡ 9 → u < 10 ^ 9 → u / ten k ≡ 0
no_quotient k u h hu = rw h (omega arith)

-- The power of ten that is found is above u.
grow-ten :
    (f k u : ℕ)
    → k ≤ 9
    → 10 ≤ k + f
    → u < 10 ^ 9
    → (j : ℕ) × (j ≤ 9) × (grow f u (ten k) ≡ ten j) × (u / ten j ≡ 0)
unfolding grow
grow-ten zero k u h e hu = absurd (omega arith)
grow-ten (suc f) k u h e hu = elim (Bool-cases (u / ten k == 0)) [
  | inl z ↦ (k, h, rw (z, grow) refl, ==→eq _ _ z)
  | inr n ↦
      let small : k ≤ 8 = elim (Bool-cases (leb k 8)) [
        | inl le ↦ ground arith
        | inr gt ↦ absurd (ground (arith, no_quotient k u))
      ] in
      let (j, hj, g, z) = grow-ten f (suc k) u (omega arith) (omega arith) hu in
      let t : ten k * 10 % 2 ^ 32 ≡ ten (suc k) = omega (arith, ten-le (8 - k) k (omega arith)) in
      (j, hj, rw (n, t, grow) g, z)
]

IsDigits-append : (s t : List ℕ) → IsDigits s → IsDigits t → IsDigits (s ++ t)
IsDigits-append [] t hs ht = ht
IsDigits-append (c ∷ s) t hs ht = (hs.0, IsDigits-append s t hs.1 ht)

value-append : (e : ℕ) (s t : List ℕ) → value e (s ++ t) ≡ value (value e s) t
value-append e [] t = refl
value-append e (c ∷ s) t = value-append (with_digit false e c) s t

-- The text of a number below 2 ^ 32 stands for it, and consists of digits.
pub subid_text-value : (e : ℕ) → e < 2 ^ 32 → (value 0 (subid_text e) ≡ e) × IsDigits (subid_text e)
unfolding subid_text with_digit
subid_text-value e h = elim (Bool-cases (ltb e 10)) [
  | inl small ↦ rw small (ground arith, (ground arith, tt))
  | inr large ↦
      let (j, hj, g, z) = grow-ten 10 1 (e / 10) (omega arith) (omega arith) (omega arith) in
      let (v, ds) = emit-value 10 j (e / 10) hj (omega arith) (omega arith) in
      let v' : value 0 (emit 10 (e / 10) (ten j)) ≡ e / 10 =
        ap (λ x. value x (emit 10 (e / 10) (ten j))) (sym z) ∙ v in
      let last : with_digit false (e / 10) (b'0' + e % 10) ≡ e = omega arith in
      rw (large, g)
        (
          value-append 0 (emit 10 (e / 10) (ten j)) _
              ∙ (ap (λ x. value x ((b'0' + e % 10) ∷ [])) v' ∙ last),
          IsDigits-append _ _ ds (ground arith, tt),
        )
]
