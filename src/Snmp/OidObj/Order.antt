-- ===== src/Snmp/OidObj/Order.antt =====
-- TnmOidCompare and TnmOidInTree of tnm/snmp/tnmOidObj.c against the lexicographic order and the
-- prefixes of lists.
use tkined_remix.Prelude.{
  ℕ, ◌≤◌, ◌<◌, List, [], ◌∷◌, ◌++◌, true, false, ◌≡◌, refl, sym, ap, ◌∙◌, arith, ltb, ◌==◌,
  Bool-cases, inl, inr, length, length-append, ==→eq, ltb→lt, ltb→ge, lt→ltb, ge→ltb, eq→==,
}
use mathlib.Core.Path.{ap₂}
use tkined_remix.Snmp.OidObj.{
  TnmOid, subids, Sign, minus_one, plus_zero, plus_one, compare_elements, compare_oids, starts_with,
  in_tree,
}
use tkined_remix.Snmp.OidObj.Space.{IsRoomy, length-take}

-- The lexicographic order, in which a proper prefix comes first.
pub data Lex : List ℕ → List ℕ → Type 0 where
  shorter : (y : ℕ) (ys : List ℕ) → Lex [] (y ∷ ys)
  smaller : (x y : ℕ) (xs ys : List ℕ) → x < y → Lex (x ∷ xs) (y ∷ ys)
  behind : (x : ℕ) (xs ys : List ℕ) → Lex xs ys → Lex (x ∷ xs) (x ∷ ys)

-- What a result of the comparison says.
abbrev pub Says : Sign → List ℕ → List ℕ → Type 0
Says minus_one xs ys = Lex xs ys
Says plus_zero xs ys = xs ≡ ys
Says plus_one xs ys = Lex ys xs

behind_eq : (x y : ℕ) (xs ys : List ℕ) → x ≡ y → Lex xs ys → Lex (x ∷ xs) (y ∷ ys)
behind_eq x y xs ys e h = rw e (behind y xs ys h)

Says-cons : (s : Sign) (x y : ℕ) (xs ys : List ℕ) → x ≡ y → Says s xs ys → Says s (x ∷ xs) (y ∷ ys)
Says-cons minus_one x y xs ys e h = behind_eq x y xs ys e h
Says-cons plus_zero x y xs ys e h = ap₂ (λ a l. a ∷ l) e h
Says-cons plus_one x y xs ys e h = behind_eq y x ys xs (sym e) h

compare_elements-Says : (xs ys : List ℕ) → Says (compare_elements xs ys) xs ys
unfolding compare_elements
compare_elements-Says [] [] = refl
compare_elements-Says [] (y ∷ ys) = shorter y ys
compare_elements-Says (x ∷ xs) [] = shorter x xs
compare_elements-Says (x ∷ xs) (y ∷ ys) = elim (Bool-cases (ltb x y)) [
  | inl l ↦ rw (l, compare_elements) (smaller x y xs ys (ltb→lt x y l))
  | inr n ↦ elim (Bool-cases (ltb y x)) [
    | inl g ↦ rw (n, g, compare_elements) (smaller y x ys xs (ltb→lt y x g))
    | inr m ↦
        rw (n, m, compare_elements)
          (Says-cons (compare_elements xs ys) x y xs ys (omega (arith, ltb→ge x y n, ltb→ge y x m))
            (compare_elements-Says xs ys))
  ]
]

Lex-smaller : {xs ys : List ℕ} → Lex xs ys → compare_elements xs ys ≡ minus_one
unfolding compare_elements
Lex-smaller (shorter y ys) = refl
Lex-smaller (smaller x y xs ys l) = (let b = lt→ltb x y l in rw (b, compare_elements) refl)
Lex-smaller (behind x xs ys h) =
    (let n = ge→ltb x x (omega arith) in rw (n, n, compare_elements) (Lex-smaller h))

Lex-larger : {xs ys : List ℕ} → Lex xs ys → compare_elements ys xs ≡ plus_one
unfolding compare_elements
Lex-larger (shorter y ys) = refl
Lex-larger (smaller x y xs ys l) =
    (let n = ge→ltb y x (omega arith) in let b = lt→ltb x y l in rw (n, b, compare_elements) refl)
Lex-larger (behind x xs ys h) =
    (let n = ge→ltb x x (omega arith) in rw (n, n, compare_elements) (Lex-larger h))

compare_same : (xs : List ℕ) → compare_elements xs xs ≡ plus_zero
unfolding compare_elements
compare_same [] = refl
compare_same (x ∷ xs) =
    (let n = ge→ltb x x (omega arith) in rw (n, n, compare_elements) (compare_same xs))

Says-only : (s : Sign) (xs ys : List ℕ) → Says s xs ys → compare_elements xs ys ≡ s
Says-only minus_one xs ys h = Lex-smaller h
Says-only plus_zero xs ys h = ap (compare_elements xs) (sym h) ∙ compare_same xs
Says-only plus_one xs ys h = Lex-larger h

-- compare_oids returns -1 exactly when the first identifier is lexicographically before the second,
-- 1 exactly when it is behind it, and 0 exactly when they are the same.
pub compare_oids-Lex :
    (a b : TnmOid)
    → Says (compare_oids a b) (subids a) (subids b)
      × ((s : Sign) → Says s (subids a) (subids b) → compare_oids a b ≡ s)
unfolding compare_oids
compare_oids-Lex a b =
    (compare_elements-Says (subids a) (subids b), λ s. Says-only s (subids a) (subids b))

starts_with-prefix :
    (ts es : List ℕ)
    → length ts ≤ length es
    → starts_with ts es ≡ true
    → (rest : List ℕ) × (es ≡ ts ++ rest)
unfolding starts_with
starts_with-prefix [] es l h = (es, refl)
starts_with-prefix (t ∷ ts) [] l h = absurd (omega arith)
starts_with-prefix (t ∷ ts) (e ∷ es) l h = elim (Bool-cases (e == t)) [
  | inl q ↦
      let (rest, p) = starts_with-prefix ts es (omega arith) (ground arith) in
      (rest, ap₂ (λ a l. a ∷ l) (==→eq e t q) p)
  | inr n ↦ absurd (ground arith)
]

prefix-starts_with : (ts rest : List ℕ) → starts_with ts (ts ++ rest) ≡ true
unfolding starts_with
prefix-starts_with [] rest = refl
prefix-starts_with (t ∷ ts) rest =
    (let q = eq→== t t refl in rw (q, starts_with) (prefix-starts_with ts rest))

-- For identifiers with room for their sub-identifiers, in_tree says exactly whether the second
-- begins with the first.
pub in_tree-prefix :
    (tree oid : TnmOid)
    → IsRoomy tree
    → IsRoomy oid
    → (in_tree tree oid ≡ true → (rest : List ℕ) × (subids oid ≡ subids tree ++ rest))
      × ((rest : List ℕ) → subids oid ≡ subids tree ++ rest → in_tree tree oid ≡ true)
unfolding in_tree
in_tree-prefix tree oid ht ho = (
  λ h. elim (Bool-cases (ltb oid.used tree.used)) [
    | inl short ↦ absurd (let q : false ≡ true = (rw short at h) in cc)
    | inr long ↦
        starts_with-prefix (subids tree) (subids oid)
          (omega (arith, lt, lo, ltb→ge oid.used tree.used long)) (rw long at h)
  ],
  λ rest h.
      (let long : ltb oid.used tree.used ≡ false =
          ge→ltb _ _ (omega (arith, lt, lo, ap length h, length-append (subids tree) rest)) in
        rw (long, h) (prefix-starts_with (subids tree) rest)),
)
  where
    lt : length (subids tree) ≡ tree.used
    lt = length-take tree.used tree.elements (omega (arith, ht.used_le, ht.space_le))

    lo : length (subids oid) ≡ oid.used
    lo = length-take oid.used oid.elements (omega (arith, ho.used_le, ho.space_le))
