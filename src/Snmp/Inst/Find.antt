-- ===== src/Snmp/Inst/Find.antt =====
-- FindNode of tnm/snmp/tnmSnmpInst.c finds exactly the nodes that stand in the tree.
use tkined_remix.Prelude.{
  ℕ, List, [], ◌∷◌, ◌≡◌, ◌≢◌, ◌⊎◌, refl, sym, ap, ◌∙◌, arith, ◌==◌, Bool-cases, inl, inr, ==→eq,
  eq→==,
}
use mathlib.Core.Path.{ap₂, subst}
use tkined_remix.Snmp.Inst.{Node, null, node, Instance, find_sibling, child, walk, find_node}
use tkined_remix.Snmp.Inst.Order.{
  IsSorted, IsTree, At, here, down, along, At-IsAbove, At-cons, At-ne-null,
}

-- A search down from the children.
abbrev pub find_below : List ℕ → Node → Node
find_below [] c = null
find_below (k ∷ []) c = find_sibling k c
find_below (k ∷ l ∷ ks) c = find_below (l ∷ ks) (child (find_sibling k c))

pub walk-below :
    (k : ℕ) (ks : List ℕ) (p q : Node) → walk (k ∷ ks) p q ≡ find_below (k ∷ ks) (child p)
unfolding walk
walk-below k [] p q = refl
walk-below k (l ∷ ks) p q = walk-below l ks (find_sibling k (child p)) (find_sibling k (child p))

find_sibling_self :
    (k s : ℕ) (i : Instance) (c n : Node) → s ≡ k → find_sibling k (node i s c n) ≡ node i s c n
unfolding find_sibling
find_sibling_self k s i c n e = (let q = eq→== s k e in rw (q, find_sibling) refl)

pub find_sibling-ne :
    (k s : ℕ) (i : Instance) (c n : Node) → s ≢ k → find_sibling k (node i s c n) ≡ find_sibling k n
unfolding find_sibling
find_sibling-ne k s i c n d = elim (Bool-cases (s == k)) [
  | inl q ↦ absurd (d (==→eq s k q))
  | inr q ↦ rw (q, find_sibling) refl
]

find_below-ne :
    (k : ℕ) (ks : List ℕ) (s : ℕ) (i : Instance) (c n : Node)
    → s ≢ k
    → find_below (k ∷ ks) (node i s c n) ≡ find_below (k ∷ ks) n
find_below-ne k [] s i c n d = find_sibling-ne k s i c n d
find_below-ne k (l ∷ ks) s i c n d =
    ap (λ q. find_below (l ∷ ks) (child q)) (find_sibling-ne k s i c n d)

find_below_self :
    (s l : ℕ) (ks : List ℕ) (i : Instance) (c n : Node)
    → find_below (s ∷ l ∷ ks) (node i s c n) ≡ find_below (l ∷ ks) c
find_below_self s l ks i c n =
    ap (λ q. find_below (l ∷ ks) (child q)) (find_sibling_self s s i c n refl)

pub find_below-At : {t : Node} {p : List ℕ} {r : Node} → IsSorted t → At t p r → find_below p t ≡ r
find_below-At o (here i s c n) = find_sibling_self s s i c n refl
find_below-At o (down i s c n p r h) =
    let (l, ks, e) = At-cons h in
    ap (λ q. find_below (s ∷ q) (node i s c n)) e
    ∙ find_below_self s l ks i c n
    ∙ sym (ap (λ q. find_below q c) e)
    ∙ find_below-At o.1 h
find_below-At o (along i s c n p r h) =
    let (k, ks, e, l) = At-IsAbove s o.0 h in
    ap (λ q. find_below q (node i s c n)) e
    ∙ find_below-ne k ks s i c n (λ d. omega arith)
    ∙ sym (ap (λ q. find_below q n) e)
    ∙ find_below-At o.2 h

At-find_sibling :
    (k : ℕ) (t : Node)
    → (find_sibling k t ≡ null)
      ⊎ ((p : List ℕ) (r : Node) → (At (child (find_sibling k t)) p r → At t (k ∷ p) r))
        × At t (k ∷ []) (find_sibling k t)
unfolding find_sibling
At-find_sibling k null = inl refl
At-find_sibling k (node i s c n) = elim (Bool-cases (s == k)) [
  | inl q ↦ inr (
      rw (q, find_sibling)
        (let e : s ≡ k = ==→eq s k q in
          (λ p r h. rw (← e) (down i s c n p r h), rw (← e) (here i s c n))))
  | inr q ↦
      rw (q, find_sibling)
        (elim (At-find_sibling k n) [
          | inl z ↦ inl z
          | inr (f, g) ↦ inr (λ p r h. along i s c n (k ∷ p) r (f p r h), along i s c n _ _ g)
        ])
]

find_below-null : (p : List ℕ) → find_below p null ≡ null
unfolding find_sibling
find_below-null [] = refl
find_below-null (k ∷ []) = refl
find_below-null (k ∷ l ∷ ks) = find_below-null (l ∷ ks)

At-find_below : (p : List ℕ) (t : Node) → (find_below p t ≡ null) ⊎ At t p (find_below p t)
At-find_below [] t = inl refl
At-find_below (k ∷ []) t = elim (At-find_sibling k t) [ inl z ↦ inl z | inr (f, g) ↦ inr g ]
At-find_below (k ∷ l ∷ ks) t = elim (At-find_sibling k t) [
  | inl z ↦ inl (ap (λ q. find_below (l ∷ ks) (child q)) z ∙ find_below-null (l ∷ ks))
  | inr (f, g) ↦ elim (At-find_below (l ∷ ks) (child (find_sibling k t))) [
    | inl z ↦ inl z
    | inr h ↦ inr (f (l ∷ ks) _ h)
  ]
]

pub find_node-below :
    (i : Instance) (c : Node) (k : ℕ) (ks : List ℕ)
    → find_node (node i 1 c null) (1 ∷ k ∷ ks) ≡ find_below (k ∷ ks) c
unfolding find_node
find_node-below i c k ks = walk-below k ks (node i 1 c null) null

At-below :
    {t : Node} {p : List ℕ} {r : Node} (k : ℕ) (ks : List ℕ)
    → IsTree t
    → At t p r
    → p ≡ 1 ∷ k ∷ ks
    → find_node t p ≡ r
At-below k ks o (here i s c n) e = absurd cc
At-below k ks o (down i s c n p r h) e =
    let tail : p ≡ k ∷ ks = cc in
    ap (find_node (node i s c n)) e
    ∙ ap₂ (λ a b. find_node (node i a c b) (1 ∷ k ∷ ks)) o.0 o.1
    ∙ find_node-below i c k ks
    ∙ ap (λ q. find_below q c) (sym tail)
    ∙ find_below-At o.2 h
At-below k ks o (along i s c n p r h) e = absurd (At-ne-null h o.1)

At-find_node :
    (t : Node) (k : ℕ) (ks : List ℕ)
    → IsTree t
    → (find_node t (1 ∷ k ∷ ks) ≡ null) ⊎ At t (1 ∷ k ∷ ks) (find_node t (1 ∷ k ∷ ks))
unfolding find_node
At-find_node null k ks o = inl (walk-below k ks null null ∙ find_below-null (k ∷ ks))
At-find_node (node i s c n) k ks o = elim (At-find_below (k ∷ ks) c) [
  | inl z ↦ inl (walk-below k ks (node i s c n) null ∙ z)
  | inr h ↦ inr (
      rw (walk-below k ks (node i s c n) null) (
        subst (λ a. At (node i s c n) (a ∷ k ∷ ks) (find_below (k ∷ ks) c)) o.0
          (down i s c n (k ∷ ks) _ h)))
]

-- In a tree that is sorted, for an identifier of two sub-identifiers or more that begins with 1,
-- find_node finds exactly the node that stands at it: that node if there is one, and otherwise no
-- node.
pub find_node-At :
    (t : Node) (k : ℕ) (ks : List ℕ)
    → IsTree t
    → ((r : Node) → At t (1 ∷ k ∷ ks) r → find_node t (1 ∷ k ∷ ks) ≡ r)
      × (find_node t (1 ∷ k ∷ ks) ≢ null → At t (1 ∷ k ∷ ks) (find_node t (1 ∷ k ∷ ks)))
find_node-At t k ks o = (
  λ r h. At-below k ks o h refl,
  λ d. elim (At-find_node t k ks o) [ inl z ↦ absurd (d z) | inr h ↦ h ],
)
