-- ===== src/Snmp/OidObj/Space.antt =====
-- The memory of an object identifier in tnm/snmp/tnmOidObj.c, and what it holds.
use tkined_remix.Prelude.{
  ℕ, zero, suc, ◌+◌, ◌*◌, ◌/◌, ◌≤◌, ◌<◌, List, [], ◌∷◌, ◌++◌, true, false, ◌≡◌, refl, sym, ap, ◌∙◌,
  arith, some, ltb, ◌==◌, Bool-cases, inl, inr, length, take, set, length-set, append_assoc, lt→ltb,
  append-nil,
}
use tkined_remix.Ber.Oid.{max_size}
use tkined_remix.Snmp.OidObj.{
  TnmOid, empty_oid, subids, static_size, move_elements, set_length, set_element, append, copy_loop,
  copy,
}

-- The length is within the space, and the space within the memory.
pub record IsRoomy (o : TnmOid) : Type 0 where
  pub used_le : o.used ≤ o.space_avl
  pub space_le : o.space_avl ≤ length o.elements

length-move_elements : (room count : ℕ) (es : List ℕ) → length (move_elements room count es) ≡ room
unfolding move_elements
length-move_elements zero count es = refl
length-move_elements (suc room) zero es = omega (arith, length-move_elements room zero es)
length-move_elements (suc room) (suc count) [] = omega (arith, length-move_elements room count [])
length-move_elements (suc room) (suc count) (e ∷ es) =
    omega (arith, length-move_elements room count es)

take-move_elements :
    (room count : ℕ) (es : List ℕ)
    → count ≤ room
    → count ≤ length es
    → take count (move_elements room count es) ≡ take count es
unfolding move_elements
take-move_elements room zero es hr he = refl
take-move_elements zero (suc count) es hr he = absurd (omega arith)
take-move_elements (suc room) (suc count) [] hr he = absurd (omega arith)
take-move_elements (suc room) (suc count) (e ∷ es) hr he =
    ap (λ t. e ∷ t) (take-move_elements room count es (omega arith) (omega arith))

-- A longer length: there is room for it, and the old sub-identifiers are kept.
pub set_length-IsRoomy :
    (o : TnmOid) (n : ℕ)
    → IsRoomy o
    → o.used ≤ n
    → IsRoomy (set_length o n)
      × ((set_length o n).used ≡ n)
      × (take o.used (set_length o n).elements ≡ subids o)
unfolding set_length
set_length-IsRoomy o n h hn = elim (Bool-cases (ltb o.space_avl n)) [
  | inl more ↦
      let space = (n / static_size + 1) * static_size in
      rw (more, set_length)
        (
          record {
            used_le = omega arith;
            space_le = omega (arith, length-move_elements (space + 1) o.used o.elements);
          },
          refl,
          take-move_elements (space + 1) o.used o.elements (omega arith)
              (omega (arith, h.used_le, h.space_le)),
        )
  | inr fits ↦
      rw (fits, set_length) (record { used_le = ground arith; space_le = h.space_le }, refl, refl)
]

take-set :
    (xs : List ℕ) (i v : ℕ) → i < length xs → take (suc i) (set xs i v) ≡ take i xs ++ (v ∷ [])
take-set [] i v h = absurd (omega arith)
take-set (x ∷ xs) zero v h = refl
take-set (x ∷ xs) (suc i) v h = ap (λ t. x ∷ t) (take-set xs i v (omega arith))

-- An identifier of less than 128 sub-identifiers with room for them is extended by append at its
-- end, and there is room for the longer one.
pub append-subids :
    (o : TnmOid) (v : ℕ)
    → IsRoomy o
    → o.used < max_size
    → (o' : TnmOid) × (append o v ≡ some (true, o'))
      × IsRoomy o'
      × (subids o' ≡ subids o ++ (v ∷ []))
unfolding append set_element
append-subids o v h hm =
    let (r, n, k) = set_length-IsRoomy o (o.used + 1) h (omega arith) in
    let long = set_length o (o.used + 1) in
    let inside : o.used < length long.elements = omega (arith, r.used_le, r.space_le) in
    let small : (o.used == max_size) ≡ false = ground arith in
    let fits : ltb o.used (length long.elements) ≡ true = lt→ltb _ _ inside in
    let next : o.used + 1 ≡ suc o.used = omega arith in
    (
      record long { elements = set long.elements o.used v },
      rw (small, fits, append) refl,
      record {
        used_le = r.used_le;
        space_le = omega (arith, r.space_le, length-set long.elements o.used v);
      },
      ap (λ m. take m (set long.elements o.used v)) (n ∙ next)
          ∙ (take-set long.elements o.used v inside ∙ ap (λ t. t ++ (v ∷ [])) k),
    )

copy_loop-take :
    (i : ℕ) (vs : List ℕ) (dst : TnmOid)
    → IsRoomy dst
    → i + length vs ≤ length dst.elements
    → (dst' : TnmOid) × (copy_loop i vs dst ≡ some dst')
      × IsRoomy dst'
      × (dst'.used ≡ dst.used)
      × (take (i + length vs) dst'.elements ≡ take i dst.elements ++ vs)
unfolding copy_loop set_element
copy_loop-take i [] dst h hl =
    (dst, refl, h, refl, ap (λ m. take m dst.elements) (omega arith) ∙ sym (append-nil _))
copy_loop-take i (v ∷ vs) dst h hl =
    let fits : ltb i (length dst.elements) ≡ true = lt→ltb _ _ (omega arith) in
    let l = length-set dst.elements i v in
    let (dst', c, r, u, t) =
      copy_loop-take (i + 1) vs (record dst { elements = set dst.elements i v })
        (record { used_le = h.used_le; space_le = omega (arith, h.space_le) }) (omega arith) in
    let next : i + 1 ≡ suc i = omega arith in
    (
      dst',
      rw (fits, copy_loop) c,
      r,
      u,
      ap (λ m. take m dst'.elements) (omega arith)
          ∙ (t
              ∙ (ap (λ m. take m (set dst.elements i v) ++ vs) next
                  ∙ (ap (λ xs. xs ++ vs) (take-set dst.elements i v (omega arith))
                      ∙ append_assoc (take i dst.elements) (v ∷ []) vs))),
    )

pub length-take : (n : ℕ) (es : List ℕ) → n ≤ length es → length (take n es) ≡ n
length-take zero es h = refl
length-take (suc n) [] h = absurd (omega arith)
length-take (suc n) (e ∷ es) h = omega (arith, length-take n es (omega arith))

pub empty_oid-IsRoomy : IsRoomy empty_oid
empty_oid-IsRoomy = record { used_le = omega arith; space_le = omega arith }

-- The copy of an identifier with room for its sub-identifiers has the same ones, and room for them.
pub copy-subids :
    (src : TnmOid)
    → IsRoomy src
    → (dst : TnmOid) × (copy src ≡ some dst) × IsRoomy dst × (subids dst ≡ subids src)
unfolding copy
copy-subids src h =
    let (r, n, k) = set_length-IsRoomy empty_oid src.used empty_oid-IsRoomy (omega arith) in
    let l = length-take src.used src.elements (omega (arith, h.used_le, h.space_le)) in
    let (dst, c, r', u, t) =
      copy_loop-take 0 (subids src) (set_length empty_oid src.used) r
        (omega (arith, r.used_le, r.space_le)) in
    (dst, c, r', ap (λ m. take m dst.elements) (u ∙ (n ∙ omega arith)) ∙ t)
