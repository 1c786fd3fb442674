-- ===== src/Ber/Oid/Encode.antt =====
-- The octets that TnmBerEncOID writes.
use tkined_remix.Prelude.{
  ℕ, zero, suc, ◌+◌, ◌-◌, ◌*◌, ◌/◌, ◌%◌, ◌^◌, ◌≤◌, ◌<◌, List, [], ◌∷◌, ◌++◌, ◌≡◌, refl, ap, ◌∙◌,
  arith, length, length-append, append_assoc, append-nil, if◌then◌else◌, ltb, leb, inl, inr,
  Bool-cases, true, false, ltb→lt, ltb→ge, ge→ltb, leb→le, leb→gt, All, split_at,
}
use tkined_remix.Ber.Stream.{Message, ok, ◌>>=◌, ◌>>◌}
use tkined_remix.Ber.At.{at, enc_byte-at}
use tkined_remix.Ber.Length.Encode.{length_octets, extra_octets, enc_length-at}
use tkined_remix.Ber.Oid.{
  count_bits, enc_groups, enc_long_subid, enc_subids, enc_oid_content, enc_oid,
}

-- A sub-identifier in base 128, with the top bit set on every octet but the last.
unfoldable pub subid_octets : ℕ → List ℕ
subid_octets op =
    if ltb op (2 ^ 7)
    then op ∷ []
    else if ltb op (2 ^ 14)
    then (op / 2 ^ 7 + 128) ∷ op % 128 ∷ []
    else if ltb op (2 ^ 21)
    then (op / 2 ^ 14 + 128) ∷ (op / 2 ^ 7 % 128 + 128) ∷ op % 128 ∷ []
    else if ltb op (2 ^ 28)
    then (op / 2 ^ 21 + 128) ∷ (op / 2 ^ 14 % 128 + 128) ∷ (op / 2 ^ 7 % 128 + 128) ∷ op % 128 ∷ []
    else (op / 2 ^ 28 + 128)
      ∷ (op / 2 ^ 21 % 128 + 128)
      ∷ (op / 2 ^ 14 % 128 + 128)
      ∷ (op / 2 ^ 7 % 128 + 128)
      ∷ op % 128
      ∷ []

-- The number of groups of seven bits.
groups_two : (op : ℕ) → 2 ^ 7 ≤ op → op < 2 ^ 14 → (count_bits 32 op + 6) / 7 ≡ 2
unfolding count_bits
groups_two op h k = ground arith

groups_three : (op : ℕ) → 2 ^ 14 ≤ op → op < 2 ^ 21 → (count_bits 32 op + 6) / 7 ≡ 3
unfolding count_bits
groups_three op h k = ground arith

groups_four : (op : ℕ) → 2 ^ 21 ≤ op → op < 2 ^ 28 → (count_bits 32 op + 6) / 7 ≡ 4
unfolding count_bits
groups_four op h k = ground arith

groups_five : (op : ℕ) → 2 ^ 28 ≤ op → op < 2 ^ 32 → (count_bits 32 op + 6) / 7 ≡ 5
unfolding count_bits
groups_five op h k = ground arith

-- What the loop over the groups writes.
group_octets : ℕ → ℕ → List ℕ
group_octets zero op = op % 2 ^ 7 ∷ []
group_octets (suc k) op = (op % 2 ^ (7 * (k + 2)) / 2 ^ (7 * (k + 1)) + 0x80) ∷ group_octets k op

enc_groups-at :
    (k op len : ℕ) (pre gap post : List ℕ) (e : Message)
    → length gap ≡ suc k
    → enc_groups k op len (at pre (gap ++ post) e)
      ≡ ok (len + suc k) (at (pre ++ group_octets k op) post e)
unfolding enc_groups group_octets
enc_groups-at k op len pre [] post e h = absurd (omega arith)
enc_groups-at zero op len pre (g ∷ x ∷ gap) post e h = absurd (omega arith)
enc_groups-at zero op len pre (g ∷ []) post e h = rw (enc_byte-at pre (op % 2 ^ 7) g post e, ◌>>◌)
enc_groups-at (suc k) op len pre (g ∷ gap) post e h =
    rw (enc_byte-at pre (op % 2 ^ (7 * (k + 2)) / 2 ^ (7 * (k + 1)) + 0x80) g (gap ++ post) e, ◌>>◌)
      (enc_groups-at k op (len + 1) (pre ++ b ∷ []) gap post e (omega arith)
        ∙ ap (λ n. ok n (at ((pre ++ b ∷ []) ++ group_octets k op) post e)) (omega arith)
        ∙ ap (λ t. ok (len + suc (suc k)) (at t post e))
            (append_assoc pre (b ∷ []) (group_octets k op)))
  where
    b : ℕ
    b = op % 2 ^ (7 * (k + 2)) / 2 ^ (7 * (k + 1)) + 0x80

length-group_octets : (k op : ℕ) → length (group_octets k op) ≡ suc k
unfolding group_octets
length-group_octets zero op = refl
length-group_octets (suc k) op = ap suc (length-group_octets k op)

-- Up to four groups are written by the loop alone.
enc_long_subid_loop :
    (k op len : ℕ) (pre gap post : List ℕ) (e : Message)
    → (count_bits 32 op + 6) / 7 ≡ suc k
    → k ≤ 3
    → subid_octets op ≡ group_octets k op
    → length gap ≡ length (subid_octets op)
    → enc_long_subid op len (at pre (gap ++ post) e)
      ≡ ok (len + length (subid_octets op)) (at (pre ++ subid_octets op) post e)
unfolding enc_long_subid
enc_long_subid_loop k op len pre gap post e hk h4 q hg =
    rw (hk, q)
      (rw (small k h4, less k, length-group_octets k op)
        (enc_groups-at k op len pre gap post e
          (hg ∙ ap (length {A = ℕ}) q ∙ length-group_octets k op)))
  where
    small : (j : ℕ) → j ≤ 3 → ltb 32 (suc j * 7) ≡ false
    small j h = ground arith

    less : (j : ℕ) → suc j - 1 ≡ j
    less j = omega arith

-- The fifth group is written before the loop.
enc_long_subid_five :
    (op len : ℕ) (pre gap post : List ℕ) (e : Message)
    → (count_bits 32 op + 6) / 7 ≡ 5
    → subid_octets op ≡ (op / 2 ^ 28 % 2 ^ 7 + 0x80) ∷ group_octets 3 op
    → length gap ≡ length (subid_octets op)
    → enc_long_subid op len (at pre (gap ++ post) e)
      ≡ ok (len + length (subid_octets op)) (at (pre ++ subid_octets op) post e)
unfolding enc_long_subid
enc_long_subid_five op len pre [] post e hk q hg = absurd (omega (arith, ap (length {A = ℕ}) q))
enc_long_subid_five op len pre (g ∷ gap) post e hk q hg =
    rw (hk, q)
      (rw (enc_byte-at pre b g (gap ++ post) e, ◌>>◌, length-group_octets 3 op)
        (enc_groups-at 3 op (len + 1) (pre ++ b ∷ []) gap post e size
          ∙ ap (λ n. ok n (at ((pre ++ b ∷ []) ++ group_octets 3 op) post e)) (omega arith)
          ∙ ap (λ t. ok (len + 5) (at t post e)) (append_assoc pre (b ∷ []) (group_octets 3 op))))
  where
    b : ℕ
    b = op / 2 ^ 28 % 2 ^ 7 + 0x80

    size : length gap ≡ 4
    size = omega (arith, ap (length {A = ℕ}) q, length-group_octets 3 op)

octets_two : (op : ℕ) → 2 ^ 7 ≤ op → op < 2 ^ 14 → subid_octets op ≡ group_octets 1 op
unfolding subid_octets group_octets
octets_two op h k = ground arith

octets_three : (op : ℕ) → 2 ^ 14 ≤ op → op < 2 ^ 21 → subid_octets op ≡ group_octets 2 op
unfolding subid_octets group_octets
octets_three op h k = ground arith

octets_four : (op : ℕ) → 2 ^ 21 ≤ op → op < 2 ^ 28 → subid_octets op ≡ group_octets 3 op
unfolding subid_octets group_octets
octets_four op h k = ground arith

octets_five :
    (op : ℕ)
    → 2 ^ 28 ≤ op
    → op < 2 ^ 32
    → subid_octets op ≡ (op / 2 ^ 28 % 2 ^ 7 + 0x80) ∷ group_octets 3 op
unfolding subid_octets group_octets
octets_five op h k = ground arith

enc_long_subid-at :
    (op len : ℕ) (pre gap post : List ℕ) (e : Message)
    → 2 ^ 7 ≤ op
    → op < 2 ^ 32
    → length gap ≡ length (subid_octets op)
    → enc_long_subid op len (at pre (gap ++ post) e)
      ≡ ok (len + length (subid_octets op)) (at (pre ++ subid_octets op) post e)
enc_long_subid-at op len pre gap post e l h hg = elim (Bool-cases (ltb op (2 ^ 14))) [
  | inl a ↦
      let u = ltb→lt op (2 ^ 14) a in
      enc_long_subid_loop 1 op len pre gap post e (groups_two op l u) (omega arith)
        (octets_two op l u) hg
  | inr a ↦ elim (Bool-cases (ltb op (2 ^ 21))) [
    | inl b ↦
        let d = ltb→ge op (2 ^ 14) a in
        let u = ltb→lt op (2 ^ 21) b in
        enc_long_subid_loop 2 op len pre gap post e (groups_three op d u) (omega arith)
          (octets_three op d u) hg
    | inr b ↦ elim (Bool-cases (ltb op (2 ^ 28))) [
      | inl c ↦
          let d = ltb→ge op (2 ^ 21) b in
          let u = ltb→lt op (2 ^ 28) c in
          enc_long_subid_loop 3 op len pre gap post e (groups_four op d u) (omega arith)
            (octets_four op d u) hg
      | inr c ↦
          let d = ltb→ge op (2 ^ 28) c in
          enc_long_subid_five op len pre gap post e (groups_five op d h) (octets_five op d h) hg
    ]
  ]
]

-- The content octets of an identifier whose first two components are packed.
unfoldable pub content_octets : List ℕ → List ℕ
content_octets [] = []
content_octets (op ∷ ops) = subid_octets op ++ content_octets ops

abbrev pub IsSubid : ℕ → Type 0
IsSubid op = op < 2 ^ 32

subid_octets_small : (op : ℕ) → op ≤ 0x7f → subid_octets op ≡ op ∷ []
unfolding subid_octets
subid_octets_small op h = ground arith

-- One sub-identifier of either kind, and the rest.
enc_subids_step :
    (op : ℕ) (ops : List ℕ) (len : ℕ) (pre gap post : List ℕ) (e : Message)
    → IsSubid op
    → length gap ≡ length (subid_octets op)
    → enc_subids (op ∷ ops) len (at pre (gap ++ post) e)
      ≡ enc_subids ops (len + length (subid_octets op)) (at (pre ++ subid_octets op) post e)
unfolding enc_subids
enc_subids_step op ops len pre gap post e h hg = elim (Bool-cases (leb op 0x7f)) [
  | inl a ↦ small (subid_octets_small op (leb→le op 0x7f a)) a gap hg
  | inr a ↦ rw a (rw (enc_long_subid-at op len pre gap post e (leb→gt op 0x7f a) h hg, ◌>>=◌))
]
  where
    small :
        subid_octets op ≡ op ∷ []
        → leb op 0x7f ≡ true
        → (gap' : List ℕ) → length gap' ≡ length (subid_octets op)
        → enc_subids (op ∷ ops) len (at pre (gap' ++ post) e)
          ≡ enc_subids ops (len + length (subid_octets op)) (at (pre ++ subid_octets op) post e)
    small q a [] k = absurd (omega (arith, ap (length {A = ℕ}) q))
    small q a (g ∷ x ∷ gap') k = absurd (omega (arith, ap (length {A = ℕ}) q))
    small q a (g ∷ []) k = rw (a, q) (rw (enc_byte-at pre op g post e, ◌>>◌))

enc_subids-at :
    (ops : List ℕ) (len : ℕ) (pre gap post : List ℕ) (e : Message)
    → All IsSubid ops
    → length gap ≡ length (content_octets ops)
    → enc_subids ops len (at pre (gap ++ post) e)
      ≡ ok (len + length (content_octets ops)) (at (pre ++ content_octets ops) post e)
unfolding content_octets
enc_subids-at [] len pre [] post e h hg =
    unfold enc_subids in rw append-nil (ap (λ n. ok n (at pre post e)) (omega arith))
enc_subids-at [] len pre (g ∷ gap) post e h hg = absurd (omega arith)
enc_subids-at (op ∷ ops) len pre gap post e h hg =
    let w = subid_octets op in
    let rest = content_octets ops in
    let total = length-append w rest in
    let (front, back, hf, q) = split_at (length w) gap (omega (arith, total)) in
    ap (λ t. enc_subids (op ∷ ops) len (at pre (t ++ post) e)) q
    ∙ ap (λ t. enc_subids (op ∷ ops) len (at pre t e)) (append_assoc front back post)
    ∙ enc_subids_step op ops len pre front (back ++ post) e h.0 hf
    ∙ enc_subids-at ops (len + length w) (pre ++ w) back post e h.1
        (omega (arith, total, ap (length {A = ℕ}) q, length-append front back))
    ∙ ap (λ n. ok n (at ((pre ++ w) ++ rest) post e)) (omega (arith, total))
    ∙ ap (λ t. ok (len + length (w ++ rest)) (at t post e)) (append_assoc pre w rest)

-- The encoding of an identifier whose first two components are packed into the first of `ops`.
abbrev pub packed_encoding : List ℕ → List ℕ
packed_encoding ops = 6 ∷ (length_octets (length (content_octets ops)) ++ content_octets ops)

enc_oid_content-split :
    (ops pre : List ℕ) (a b : ℕ) (gap more post : List ℕ) (e : Message)
    → All IsSubid ops
    → length (content_octets ops) < 0x100_0000
    → length gap ≡ length (content_octets ops)
    → length more ≡ extra_octets (length (content_octets ops))
    → (0 < extra_octets (length (content_octets ops)) → 0 < length post)
    → enc_oid_content ops (at pre (a ∷ b ∷ gap ++ (more ++ post)) e)
      ≡ ok tt (at (pre ++ packed_encoding ops) post e)
unfolding enc_oid_content
enc_oid_content-split ops pre a b gap more post e h hn hg hm hp =
    let w = content_octets ops in
    rw (enc_byte-at pre 6 a (b ∷ gap ++ (more ++ post)) e, ◌>>◌)
      (rw (enc_byte-at (pre ++ 6 ∷ []) 0 b (gap ++ (more ++ post)) e, ◌>>◌)
        (rw (enc_subids-at ops 0 ((pre ++ 6 ∷ []) ++ 0 ∷ []) gap (more ++ post) e h hg, ◌>>=◌)
          (rw (append_assoc (pre ++ 6 ∷ []) (0 ∷ []) w, zero_add (length w))
            (enc_length-at (length w) (pre ++ 6 ∷ []) 0 w more post e hn hm hp
              ∙ ap (λ t. ok tt (at t post e))
                  (append_assoc pre (6 ∷ []) (length_octets (length w) ++ w))))))
  where
    zero_add : (n : ℕ) → 0 + n ≡ n
    zero_add n = omega arith

-- In a buffer with room TnmBerEncOID writes that encoding and nothing else.
pub enc_oid-at :
    (x y : ℕ) (ops pre gap post : List ℕ) (e : Message)
    → x ≤ 2
    → All IsSubid ((y + x * 40) ∷ ops)
    → length (content_octets ((y + x * 40) ∷ ops)) < 0x100_0000
    → length gap
      ≡ length (content_octets ((y + x * 40) ∷ ops))
        + extra_octets (length (content_octets ((y + x * 40) ∷ ops)))
        + 2
    → (0 < extra_octets (length (content_octets ((y + x * 40) ∷ ops))) → 0 < length post)
    → enc_oid (x ∷ y ∷ ops) (at pre (gap ++ post) e)
      ≡ ok tt (at (pre ++ packed_encoding ((y + x * 40) ∷ ops)) post e)
unfolding enc_oid
enc_oid-at x y ops pre [] post e hx h hn hg hp = absurd (omega arith)
enc_oid-at x y ops pre (a ∷ []) post e hx h hn hg hp = absurd (omega arith)
enc_oid-at x y ops pre (a ∷ b ∷ gap) post e hx h hn hg hp =
    let w = content_octets ((y + x * 40) ∷ ops) in
    let (front, back, hf, q) = split_at (length w) gap (omega arith) in
    let fits : (y + x * 40) % 2 ^ 32 ≡ y + x * 40 = omega (arith, h.0) in
    rw (ge→ltb 2 x hx, fits)
      (ap (λ t. enc_oid_content ((y + x * 40) ∷ ops) (at pre (a ∷ b ∷ t ++ post) e)) q
        ∙ ap (λ t. enc_oid_content ((y + x * 40) ∷ ops) (at pre (a ∷ b ∷ t) e))
            (append_assoc front back post)
        ∙ enc_oid_content-split ((y + x * 40) ∷ ops) pre a b front back post e h hn hf
            (omega (arith, ap (length {A = ℕ}) q, length-append front back)) hp)
