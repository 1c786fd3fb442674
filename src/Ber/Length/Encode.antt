-- ===== src/Ber/Length/Encode.antt =====
-- What TnmBerEncLength leaves in the packet.
use tkined_remix.Prelude.{
  ℕ, zero, suc, ◌+◌, ◌-◌, ◌*◌, ◌/◌, ◌%◌, ◌^◌, ◌≤◌, ◌<◌, List, [], ◌∷◌, ◌++◌, ◌≡◌, refl, sym, ap,
  ◌∙◌, arith, length, length-append, set, append_assoc, set-append, if◌then◌else◌, ltb, gt→leb,
  le→leb, some, inl, inr, Bool-cases, ltb→lt, ltb→ge, lt→ltb, ge→ltb,
}
use tkined_remix.Ber.Stream.{Ber, Message, ok, null, text}
use tkined_remix.Ber.At.{at, ok-at}
use tkined_remix.Ber.Length.{count_octets, shift_loop, length_loop, enc_long_length, enc_length}
use tkined_remix.Ber.Length.Shift.{shift_loop-append}

-- The octets of a length as TnmBerEncLength writes them, for lengths below 2 ^ 24.
unfoldable pub length_octets : ℕ → List ℕ
length_octets n =
    if ltb n 0x80
    then n ∷ []
    else if ltb n 0x100
    then 0x81 ∷ n ∷ []
    else if ltb n 0x1_0000
    then 0x82 ∷ n / 256 ∷ n % 256 ∷ []
    else 0x83 ∷ 0 ∷ n / 256 % 256 ∷ n % 256 ∷ []

-- The octets that the last loop writes.
loop_octets : ℕ → ℕ → List ℕ
loop_octets zero len = []
loop_octets (suc d) len = (if ltb 2 (suc d) then 0 else len / 2 ^ (8 * d) % 256) ∷ loop_octets d len

length_loop-append :
    (d : ℕ) (pre left rest : List ℕ) (len p : ℕ)
    → length left ≡ d
    → p ≡ length pre
    → length_loop d p len (pre ++ (left ++ rest)) ≡ pre ++ (loop_octets d len ++ rest)
unfolding length_loop loop_octets
length_loop-append zero pre [] rest len p h hp = refl
length_loop-append zero pre (x ∷ left) rest len p h hp = absurd (omega arith)
length_loop-append (suc d) pre [] rest len p h hp = absurd (omega arith)
length_loop-append (suc d) pre (x ∷ left) rest len p h hp =
    rw (set-append pre x (left ++ rest) o p hp, ← one_more o (left ++ rest))
      (length_loop-append d (pre ++ o ∷ []) left rest len (p + 1) (omega arith)
          (omega (arith, length-append pre (o ∷ [])))
        ∙ one_more o (loop_octets d len ++ rest))
  where
    o : ℕ
    o = if ltb 2 (suc d) then 0 else len / 2 ^ (8 * d) % 256

    one_more : (y : ℕ) (ys : List ℕ) → (pre ++ y ∷ []) ++ ys ≡ pre ++ y ∷ ys
    one_more y ys = append_assoc pre (y ∷ []) ys

length-loop_octets : (d len : ℕ) → length (loop_octets d len) ≡ d
unfolding loop_octets
length-loop_octets zero len = refl
length-loop_octets (suc d) len = ap suc (length-loop_octets d len)

-- The three loops together, on the bytes of the packet.
enc_long_length-mem :
    (d : ℕ) (pre : List ℕ) (p : ℕ) (c gap post : List ℕ) (len : ℕ)
    → length gap ≡ suc d
    → length_loop (suc d) (length pre + 1) len (
        set
          (shift_loop (length c) (suc d) (length pre) (pre ++ p ∷ (c ++ (gap ++ post))))
          (length pre)
          (0x80 + suc d))
      ≡ (pre ++ ((0x80 + suc d) ∷ (loop_octets (suc d) len ++ c))) ++ post
enc_long_length-mem d pre p c gap post len hg =
    let (left, hl, moved) = shift_loop-append (length c) d pre p c gap post refl hg in
    ap (λ m. length_loop (suc d) (length pre + 1) len (set m (length pre) v)) moved
    ∙ ap (λ m. length_loop (suc d) (length pre + 1) len m)
        (set-append pre p (left ++ (c ++ post)) v (length pre) refl
          ∙ sym (append_assoc pre (v ∷ []) (left ++ (c ++ post))))
    ∙ length_loop-append (suc d) (pre ++ v ∷ []) left (c ++ post) len (length pre + 1) hl
        (omega (arith, length-append pre (v ∷ [])))
    ∙ simp append_assoc
  where
    v : ℕ
    v = 0x80 + suc d

enc_long_length-at :
    (d : ℕ) (pre : List ℕ) (p : ℕ) (c gap post : List ℕ) (len : ℕ) (e : Message)
    → length gap ≡ suc d
    → 0 < length post
    → enc_long_length (length pre) len (suc d) (at (pre ++ p ∷ c) (gap ++ post) e)
      ≡ ok tt (at (pre ++ ((0x80 + suc d) ∷ (loop_octets (suc d) len ++ c))) post e)
unfolding enc_long_length
enc_long_length-at d pre p c gap post len e hg hp =
    rw
      (gt→leb (length ((pre ++ p ∷ c) ++ (gap ++ post))) (length (pre ++ p ∷ c) + suc d)
        (omega (arith, length-append (pre ++ p ∷ c) (gap ++ post), length-append gap post)))
      (ok-at tt _ _ (pre ++ ((0x80 + suc d) ∷ (loop_octets (suc d) len ++ c))) post e
        (rw (rounds, append_assoc pre (p ∷ c) (gap ++ post))
          (enc_long_length-mem d pre p c gap post len hg))
        (omega (
          arith,
          length-append pre (p ∷ c),
          length-append pre ((0x80 + suc d) ∷ (loop_octets (suc d) len ++ c)),
          length-append (loop_octets (suc d) len) c,
          length-loop_octets (suc d) len,
        )))
  where
    rounds : length (pre ++ p ∷ c) - length pre - 1 ≡ length c
    rounds = omega (arith, length-append pre (p ∷ c))

-- A buffer with no room behind the moved content is refused, and the packet is left as it is.
enc_long_length-full :
    (d : ℕ) (pre post : List ℕ) (len p : ℕ) (e : Message)
    → length post ≤ d
    → enc_long_length p len d (at pre post e) ≡ null (at pre post (text "BER buffer overflow"))
unfolding enc_long_length
enc_long_length-full d pre post len p e h =
    rw (le→leb (length (pre ++ post)) (length pre + d) (omega (arith, length-append pre post)))

count_one : (n : ℕ) → 0x80 ≤ n → n < 0x100 → count_octets 5 0 n ≡ some 1
unfolding count_octets
count_one n h k = ground arith

count_two : (n : ℕ) → 0x100 ≤ n → n < 0x1_0000 → count_octets 5 0 n ≡ some 2
unfolding count_octets
count_two n h k = ground arith

count_three : (n : ℕ) → 0x1_0000 ≤ n → n < 0x100_0000 → count_octets 5 0 n ≡ some 3
unfolding count_octets
count_three n h k = ground arith

-- How many octets follow the first one.
abbrev pub extra_octets : ℕ → ℕ
extra_octets n =
    if ltb n 0x80 then 0 else if ltb n 0x100 then 1 else if ltb n 0x1_0000 then 2 else 3

-- The long branch, once the octets are counted.
enc_length-count :
    (n d p : ℕ) (s : Ber)
    → 0x80 ≤ n
    → n < 0x100_0000
    → count_octets 5 0 n ≡ some d
    → enc_length p n s ≡ enc_long_length p n d s
unfolding enc_length
enc_length-count n d p s h k e = rw (ge→ltb n 0x80 h, le→leb n 0x8000_0000 (omega arith)) (rw e)

-- A length below 128 goes into the octet that was left free for it.
pub enc_length-short :
    (n : ℕ) (pre : List ℕ) (p : ℕ) (c post : List ℕ) (e : Message)
    → n < 0x80
    → enc_length (length pre) n (at (pre ++ p ∷ c) post e) ≡ ok tt (at (pre ++ n ∷ c) post e)
unfolding enc_length
enc_length-short n pre p c post e h = rw (lt→ltb n 0x80 h) (
    ok-at tt _ _ (pre ++ n ∷ c) post e
      (ap (λ m. set m (length pre) n) (append_assoc pre (p ∷ c) post)
        ∙ set-append pre p (c ++ post) n (length pre) refl
        ∙ sym (append_assoc pre (n ∷ c) post))
      (omega (arith, length-append pre (p ∷ c), length-append pre (n ∷ c))))

octets_one : (n : ℕ) → 0x80 ≤ n → n < 0x100 → length_octets n ≡ (0x80 + 1) ∷ loop_octets 1 n
unfolding length_octets loop_octets
octets_one n h k = ground arith

octets_two : (n : ℕ) → 0x100 ≤ n → n < 0x1_0000 → length_octets n ≡ (0x80 + 2) ∷ loop_octets 2 n
unfolding length_octets loop_octets
octets_two n h k = ground arith

octets_three :
    (n : ℕ) → 0x1_0000 ≤ n → n < 0x100_0000 → length_octets n ≡ (0x80 + 3) ∷ loop_octets 3 n
unfolding length_octets loop_octets
octets_three n h k = ground arith

-- The number of octets that a long length takes, with what is known of it.
record Counted (n : ℕ) : Type 0 where
  more : ℕ
  count : count_octets 5 0 n ≡ some (suc more)
  octets : length_octets n ≡ (0x80 + suc more) ∷ loop_octets (suc more) n
  extra : extra_octets n ≡ suc more

counted : (n : ℕ) → 0x80 ≤ n → n < 0x100_0000 → Counted n
counted n l h = elim (Bool-cases (ltb n 0x100)) [
  | inl a ↦
      let k = ltb→lt _ _ a in
      record { more = 0; count = count_one n l k; octets = octets_one n l k; extra = ground arith }
  | inr a ↦ elim (Bool-cases (ltb n 0x1_0000)) [
    | inl b ↦
        let k = ltb→lt _ _ b in
        let j = ltb→ge _ _ a in
        record {
          more = 1;
          count = count_two n j k;
          octets = octets_two n j k;
          extra = ground arith;
        }
    | inr b ↦
        let j = ltb→ge _ _ b in
        record {
          more = 2;
          count = count_three n j h;
          octets = octets_three n j h;
          extra = ground arith;
        }
  ]
]

-- A longer length moves the content up by as many octets as it needs.
pub enc_length-long :
    (n : ℕ) (pre : List ℕ) (p : ℕ) (c gap post : List ℕ) (e : Message)
    → 0x80 ≤ n
    → n < 0x100_0000
    → length gap ≡ extra_octets n
    → 0 < length post
    → enc_length (length pre) n (at (pre ++ p ∷ c) (gap ++ post) e)
      ≡ ok tt (at (pre ++ (length_octets n ++ c)) post e)
enc_length-long n pre p c gap post e l h hg hp =
    let k = counted n l h in
    let octets : (length_octets n ++ c)
        ≡ ((0x80 + suc k.more) ∷ (loop_octets (suc k.more) n ++ c)) =
      ap (λ t. t ++ c) k.octets in
    enc_length-count n (suc k.more) (length pre) _ l h k.count
    ∙ enc_long_length-at k.more pre p c gap post n e (hg ∙ k.extra) hp
    ∙ ap (λ t. ok tt (at (pre ++ t) post e)) (sym octets)

-- Without room for those octets and one more byte it is refused, with the packet unchanged.
pub enc_length-full :
    (n p : ℕ) (pre post : List ℕ) (e : Message)
    → 0x80 ≤ n
    → n < 0x100_0000
    → length post ≤ extra_octets n
    → enc_length p n (at pre post e) ≡ null (at pre post (text "BER buffer overflow"))
enc_length-full n p pre post e l h f =
    let k = counted n l h in
    enc_length-count n (suc k.more) p _ l h k.count
    ∙ enc_long_length-full (suc k.more) pre post n p e (omega (arith, k.extra))

-- Both cases at once. Only a length that moves the content needs a byte behind it.
pub enc_length-at :
    (n : ℕ) (pre : List ℕ) (p : ℕ) (c gap post : List ℕ) (e : Message)
    → n < 0x100_0000
    → length gap ≡ extra_octets n
    → (0 < extra_octets n → 0 < length post)
    → enc_length (length pre) n (at (pre ++ p ∷ c) (gap ++ post) e)
      ≡ ok tt (at (pre ++ (length_octets n ++ c)) post e)
enc_length-at n pre p c [] post e h hg hp =
    let small : n < 0x80 = ground arith in
    rw (octets_zero n small) (enc_length-short n pre p c post e small)
  where
    octets_zero : (m : ℕ) → m < 0x80 → length_octets m ≡ m ∷ []
    octets_zero m k = unfold length_octets in rw (lt→ltb m 0x80 k)
enc_length-at n pre p c (g ∷ gap) post e h hg hp =
    enc_length-long n pre p c (g ∷ gap) post e (ground arith) h hg (hp (omega arith))

pub length-length_octets : (n : ℕ) → n < 0x100_0000 → length (length_octets n) ≡ extra_octets n + 1
unfolding length_octets
length-length_octets n h = ground arith
