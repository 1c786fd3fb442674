-- ===== src/Ber/Oid/RoundTrip.antt =====
-- TnmBerEncOID followed by TnmBerDecOID, and identifiers that are too long for the array.
use tkined_remix.Prelude.{
  ℕ, zero, suc, ◌+◌, ◌-◌, ◌*◌, ◌%◌, ◌^◌, ◌≤◌, ◌<◌, List, [], ◌∷◌, ◌++◌, ◌≡◌, ◌⊎◌, refl, sym, ap,
  ◌∙◌, arith, length, length-append, append_assoc, append-nil, ltb, ◌==◌, inl, inr, Bool-cases,
  false, ltb→lt, ltb→ge, All, set, length-set, set-append,
}
use tkined_remix.Ber.Stream.{Ber, Message, ok, ◌>>=◌, ◌>>◌, fault}
use tkined_remix.Ber.At.{at}
use tkined_remix.Ber.Length.Encode.{extra_octets, length_octets}
use tkined_remix.Ber.Length.Decode.{dec_length-length_octets}
use tkined_remix.Ber.Integer.Decode.{expect_tag-at}
use tkined_remix.Ber.Oid.{split_first, dec_oid_loop, dec_oid, enc_oid, max_size}
use tkined_remix.Ber.Oid.Encode.{subid_octets, content_octets, IsSubid, packed_encoding, enc_oid-at}
use tkined_remix.Ber.Oid.Decode.{
  Read, subid_value, subid_octets-Read, dec_oid_loop_step, dec_oid_loop_overrun,
}

-- One round on what the encoder wrote for `op`, with the number of octets that are left.
loop_round :
    (f i op : ℕ) (ops : List ℕ) (oid pre post : List ℕ) (e : Message)
    → IsSubid op
    → i < length oid
    → i < max_size
    → dec_oid_loop
        (suc f)
        (length (content_octets (op ∷ ops)))
        i
        oid
        (at pre (content_octets (op ∷ ops) ++ post) e)
      ≡ dec_oid_loop f
          (length (content_octets ops))
          (i + 1)
          (split_first i (set oid i op))
          (at (pre ++ subid_octets op) (content_octets ops ++ post) e)
unfolding content_octets
loop_round f i op ops oid pre post e h hi hm =
    ap (λ w. dec_oid_loop (suc f) (length (w ++ rest)) i oid (at pre ((w ++ rest) ++ post) e))
      r.octets
    ∙ ap (λ w. dec_oid_loop (suc f) (suc (length (r.tail ++ rest))) i oid (at pre (r.head ∷ w) e))
        (append_assoc r.tail rest post)
    ∙ dec_oid_loop_step f (length (r.tail ++ rest)) i oid r.head r.tail pre (rest ++ post) e
        r.continues hi hm
    ∙ ap
        (λ n.
          dec_oid_loop f n (i + 1) (split_first i (set oid i (subid_value 0 r.head r.tail)))
            (at (pre ++ r.head ∷ r.tail) (rest ++ post) e))
        (omega (arith, length-append r.tail rest))
    ∙ ap
        (λ v.
          dec_oid_loop f (length rest) (i + 1) (split_first i (set oid i v))
            (at (pre ++ r.head ∷ r.tail) (rest ++ post) e))
        r.value
    ∙ ap
        (λ w.
          dec_oid_loop f (length rest) (i + 1) (split_first i (set oid i op))
            (at (pre ++ w) (rest ++ post) e))
        (sym r.octets)
  where
    r : Read op
    r = subid_octets-Read op h

    rest : List ℕ
    rest = content_octets ops

split_first_later : (i : ℕ) (oid : List ℕ) → 2 ≤ i → split_first i oid ≡ oid
unfolding split_first
split_first_later i oid h = ground arith

length-content_octets_pos :
    (op : ℕ) (ops : List ℕ)
    → IsSubid op
    → suc (length (content_octets ops)) ≤ length (content_octets (op ∷ ops))
unfolding content_octets
length-content_octets_pos op ops h = omega (
  arith,
  length-append (subid_octets op) (content_octets ops),
  ap (length {A = ℕ}) (subid_octets-Read op h).octets,
)

content_octets-cons :
    (op : ℕ) (ops : List ℕ) → content_octets (op ∷ ops) ≡ subid_octets op ++ content_octets ops
unfolding content_octets
content_octets-cons op ops = refl

-- The sub-identifiers behind the first, into the array behind what it holds.
loop_tail :
    (ops : List ℕ) (f i : ℕ) (done gap rest pre post : List ℕ) (e : Message)
    → All IsSubid ops
    → length gap ≡ length ops
    → i ≡ length done
    → 2 ≤ i
    → i + length ops ≤ max_size
    → length (content_octets ops) ≤ f
    → dec_oid_loop f
        (length (content_octets ops))
        i
        (done ++ (gap ++ rest))
        (at pre (content_octets ops ++ post) e)
      ≡ ok (done ++ (ops ++ rest), i + length ops) (at (pre ++ content_octets ops) post e)
loop_tail [] f i done [] rest pre post e h hg hd h2 hm hf =
    unfold content_octets dec_oid_loop in
    rw append-nil (ap (λ n. ok (done ++ rest, n) (at pre post e)) (omega arith))
loop_tail [] f i done (g ∷ gap) rest pre post e h hg hd h2 hm hf = absurd (omega arith)
loop_tail (op ∷ ops) f i done [] rest pre post e h hg hd h2 hm hf = absurd (omega arith)
loop_tail (op ∷ ops) zero i done (g ∷ gap) rest pre post e h hg hd h2 hm hf =
    absurd (omega (arith, length-content_octets_pos op ops h.0))
loop_tail (op ∷ ops) (suc f) i done (g ∷ gap) rest pre post e h hg hd h2 hm hf =
    loop_round f i op ops (done ++ g ∷ (gap ++ rest)) pre post e h.0
      (omega (arith, length-append done (g ∷ (gap ++ rest)))) (omega arith)
    ∙ ap (λ oid. dec_oid_loop f (length (content_octets ops)) (i + 1) oid s)
        (split_first_later i _ h2
          ∙ set-append done g (gap ++ rest) op i hd
          ∙ sym (append_assoc done (op ∷ []) (gap ++ rest)))
    ∙ loop_tail ops f (i + 1) (done ++ op ∷ []) gap rest (pre ++ subid_octets op) post e h.1
        (omega arith) (omega (arith, length-append done (op ∷ []))) (omega arith) (omega arith)
        (omega (arith, length-content_octets_pos op ops h.0))
    ∙ ap (λ oid. ok (oid, i + 1 + length ops) t) (append_assoc done (op ∷ []) (ops ++ rest))
    ∙ ap (λ n. ok (done ++ (op ∷ ops ++ rest), n) t) (omega arith)
    ∙ ap (λ w. ok (done ++ (op ∷ ops ++ rest), i + suc (length ops)) (at w post e))
        (append_assoc pre (subid_octets op) (content_octets ops)
          ∙ ap (λ w. pre ++ w) (sym (content_octets-cons op ops)))
  where
    s : Ber
    s = at (pre ++ subid_octets op) (content_octets ops ++ post) e

    t : Ber
    t = at ((pre ++ subid_octets op) ++ content_octets ops) post e

length-split_first : (i : ℕ) (oid : List ℕ) → length (split_first i oid) ≡ length oid
unfolding split_first
length-split_first i oid = elim (Bool-cases (i == 1)) [
  | inl a ↦ rw a (length-set _ _ _ ∙ length-set oid 0 _)
  | inr b ↦ rw b
]

-- Where the components are more than the array has room for, the loop stores behind it.
loop_overrun :
    (ops : List ℕ) (f i : ℕ) (oid pre post : List ℕ) (e : Message)
    → All IsSubid ops
    → length oid ≡ max_size
    → 1 ≤ i
    → i ≤ max_size
    → max_size < i + length ops
    → length (content_octets ops) ≤ f
    → dec_oid_loop f (length (content_octets ops)) i oid (at pre (content_octets ops ++ post) e)
      ≡ fault
loop_overrun [] f i oid pre post e h hl h1 hi ho hf = absurd (omega arith)
loop_overrun (op ∷ ops) zero i oid pre post e h hl h1 hi ho hf =
    absurd (omega (arith, length-content_octets_pos op ops h.0))
loop_overrun (op ∷ ops) (suc f) i oid pre post e h hl h1 hi ho hf =
    elim (Bool-cases (ltb i max_size)) [
      | inl a ↦
          loop_round f i op ops oid pre post e h.0 (omega (arith, ltb→lt i max_size a))
            (ltb→lt i max_size a)
          ∙ loop_overrun ops f (i + 1) (split_first i (set oid i op)) (pre ++ subid_octets op) post
              e h.1 (omega (arith, length-split_first i (set oid i op), length-set oid i op))
              (omega arith) (omega (arith, ltb→lt i max_size a)) (omega arith)
              (omega (arith, length-content_octets_pos op ops h.0))
      | inr b ↦
          ap (λ n. dec_oid_loop (suc f) n i oid (at pre (content_octets (op ∷ ops) ++ post) e))
            positive
          ∙ dec_oid_loop_overrun f (length (content_octets (op ∷ ops)) - 1) i oid _
              (omega (arith, ltb→ge i max_size b))
    ]
  where
    positive : length (content_octets (op ∷ ops)) ≡ suc (length (content_octets (op ∷ ops)) - 1)
    positive = omega (arith, length-content_octets_pos op ops h.0)

-- The header of an identifier, up to the loop.
dec_oid_header :
    (n : ℕ) (oid pre post : List ℕ) (e : Message)
    → 0 < n
    → n < 0x1_0000
    → dec_oid oid (at pre (6 ∷ (length_octets n ++ post)) e)
      ≡ dec_oid_loop n n 1 oid (at ((pre ++ 6 ∷ []) ++ length_octets n) post e)
unfolding dec_oid
dec_oid_header n oid pre post e h0 h =
    rw (expect_tag-at 6 pre (length_octets n ++ post) e, ◌>>◌)
      (rw (dec_length-length_octets (pre ++ 6 ∷ []) n post e (omega arith), ◌>>=◌)
        (rw (same, not_zero)))
  where
    same : n % 2 ^ 16 ≡ n
    same = omega arith

    not_zero : (n == 0) ≡ false
    not_zero = ground arith

-- The first sub-identifier is taken apart into two components.
split_first_pair :
    (x y a b : ℕ) (rest : List ℕ)
    → x ≤ 2
    → (x ≡ 2) ⊎ (y < 40)
    → split_first 1 (a ∷ (y + x * 40) ∷ rest) ≡ x ∷ y ∷ rest
unfolding split_first
split_first_pair x y a b rest hx h = ground arith

length-subid_octets : (op : ℕ) → length (subid_octets op) ≤ 5
unfolding subid_octets
length-subid_octets op = ground arith

pub length-content_octets : (ops : List ℕ) → length (content_octets ops) ≤ 5 * length ops
unfolding content_octets
length-content_octets [] = omega arith
length-content_octets (op ∷ ops) = omega (
  arith,
  length-append (subid_octets op) (content_octets ops),
  length-subid_octets op,
  length-content_octets ops,
)

-- What TnmBerDecOID reads of a packed identifier that fits the array.
pub dec_oid-packed :
    (x y : ℕ) (ops : List ℕ) (a b : ℕ) (slots rest pre post : List ℕ) (e : Message)
    → x ≤ 2
    → (x ≡ 2) ⊎ (y < 40)
    → All IsSubid ((y + x * 40) ∷ ops)
    → length slots ≡ length ops
    → length ops + 2 ≤ max_size
    → dec_oid (a ∷ b ∷ (slots ++ rest)) (at pre (packed_encoding ((y + x * 40) ∷ ops) ++ post) e)
      ≡ ok
          (x ∷ y ∷ (ops ++ rest), length ops + 2)
          (at (pre ++ packed_encoding ((y + x * 40) ∷ ops)) post e)
dec_oid-packed x y ops a b slots rest pre post e hx hy h hs hm =
    ap (λ w. dec_oid oid (at pre (6 ∷ w) e)) (append_assoc (length_octets n) content post)
    ∙ dec_oid_header n oid pre (content ++ post) e
        (omega (arith, length-content_octets_pos op ops h.0))
        (omega (arith, length-content_octets (op ∷ ops)))
    ∙ ap (λ f. dec_oid_loop f n 1 oid (at head (content ++ post) e)) positive
    ∙ loop_round (n - 1) 1 op ops oid head post e h.0 (omega arith) (omega arith)
    ∙ ap
        (λ o.
          dec_oid_loop (n - 1) (length (content_octets ops)) 2 o
            (at (head ++ subid_octets op) (content_octets ops ++ post) e))
        (split_first_pair x y a b (slots ++ rest) hx hy)
    ∙ loop_tail ops (n - 1) 2 (x ∷ y ∷ []) slots rest (head ++ subid_octets op) post e h.1 hs refl
        (omega arith) (omega arith) (omega (arith, length-content_octets_pos op ops h.0))
    ∙ ap
        (λ k.
          ok (x ∷ y ∷ (ops ++ rest), k)
            (at ((head ++ subid_octets op) ++ content_octets ops) post e))
        (omega arith)
    ∙ ap (λ w. ok (x ∷ y ∷ (ops ++ rest), length ops + 2) (at w post e)) regroup
  where
    op : ℕ
    op = y + x * 40

    content : List ℕ
    content = content_octets (op ∷ ops)

    n : ℕ
    n = length content

    oid : List ℕ
    oid = a ∷ b ∷ (slots ++ rest)

    head : List ℕ
    head = (pre ++ 6 ∷ []) ++ length_octets n

    positive : n ≡ suc (n - 1)
    positive = omega (arith, length-content_octets_pos op ops h.0)

    regroup :
        (head ++ subid_octets op) ++ content_octets ops ≡ pre ++ 6 ∷ (length_octets n ++ content)
    regroup =
        append_assoc head (subid_octets op) (content_octets ops)
        ∙ ap (λ w. head ++ w) (sym (content_octets-cons op ops))
        ∙ append_assoc (pre ++ 6 ∷ []) (length_octets n) content
        ∙ append_assoc pre (6 ∷ []) (length_octets n ++ content)

-- An identifier written into a buffer with room and read back from any packet into an array that
-- has room for it, where its first two components can be told apart.
pub dec_oid-enc_oid :
    (x y : ℕ) (ops : List ℕ) (a b : ℕ) (slots rest pre gap post pre' post' : List ℕ)
    (e e' : Message)
    → x ≤ 2
    → (x ≡ 2) ⊎ (y < 40)
    → All IsSubid ((y + x * 40) ∷ ops)
    → length slots ≡ length ops
    → length ops + 2 ≤ max_size
    → length gap
      ≡ length (content_octets ((y + x * 40) ∷ ops))
        + extra_octets (length (content_octets ((y + x * 40) ∷ ops)))
        + 2
    → (0 < extra_octets (length (content_octets ((y + x * 40) ∷ ops))) → 0 < length post)
    → let w = packed_encoding ((y + x * 40) ∷ ops) in
      (enc_oid (x ∷ y ∷ ops) (at pre (gap ++ post) e) ≡ ok tt (at (pre ++ w) post e))
      × (dec_oid (a ∷ b ∷ (slots ++ rest)) (at pre' (w ++ post') e')
          ≡ ok (x ∷ y ∷ (ops ++ rest), length ops + 2) (at (pre' ++ w) post' e'))
dec_oid-enc_oid x y ops a b slots rest pre gap post pre' post' e e' hx hy h hs hm hg hp = (
  enc_oid-at x y ops pre gap post e hx h (omega (arith, length-content_octets ((y + x * 40) ∷ ops)))
      hg hp,
  dec_oid-packed x y ops a b slots rest pre' post' e' hx hy h hs hm,
)

-- An encoding with as many sub-identifiers as the array has elements, or more, makes the decoder
-- store behind the array: the check on `*oidLen` comes after the store.
pub dec_oid_overrun :
    (ops oid pre post : List ℕ) (e : Message)
    → All IsSubid ops
    → length oid ≡ max_size
    → max_size ≤ length ops
    → length (content_octets ops) < 0x1_0000
    → dec_oid oid (at pre (packed_encoding ops ++ post) e) ≡ fault
dec_oid_overrun [] oid pre post e h hl ho hn = absurd (omega arith)
dec_oid_overrun (op ∷ ops) oid pre post e h hl ho hn =
    let n = length (content_octets (op ∷ ops)) in
    ap (λ w. dec_oid oid (at pre (6 ∷ w) e))
      (append_assoc (length_octets n) (content_octets (op ∷ ops)) post)
    ∙ dec_oid_header n oid pre (content_octets (op ∷ ops) ++ post) e
        (omega (arith, length-content_octets_pos op ops h.0)) hn
    ∙ loop_overrun (op ∷ ops) n 1 oid ((pre ++ 6 ∷ []) ++ length_octets n) post e h hl (omega arith)
        (omega arith) (omega arith) (omega arith)
