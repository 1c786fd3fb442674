-- ===== src/Snmp/Inst/Remove/Kept.antt =====
-- What FindNode of tnm/snmp/tnmSnmpInst.c finds after RemoveNode.
use tkined_remix.Prelude.{
  ℕ, ◌≤◌, List, [], ◌∷◌, ◌++◌, Option, none, some, true, false, ◌≡◌, ◌⊎◌, refl, sym, ap, ◌∙◌, arith,
  ◌==◌, Bool-cases, inl, inr, ==→eq, Option-cases,
}
use mathlib.Core.Path.{subst}
use tkined_remix.Snmp.Inst.{
  Node, null, node, Instance, has_var, unlink_head, remove_node, find_node,
}
use tkined_remix.Snmp.Inst.Order.{IsAbove, IsSorted, IsTree}
use tkined_remix.Snmp.Inst.Remove.{remove_node-IsSorted, remove_node-IsAbove}
use tkined_remix.Snmp.Inst.Add.Lookup.{look, changed}
use tkined_remix.Snmp.Inst.Add.Found.{get, get-null, fields_of, fields_in, child_in}
use tkined_remix.Snmp.Inst.Add.Tree.{fields-find_node, level}

look-IsAbove : (k s : ℕ) (n : Node) → IsAbove s n → k ≤ s → look k n ≡ none
look-IsAbove k s null a h = refl
look-IsAbove k s (node i t c n) a h = ground (arith, look-IsAbove k s n a.1 h)

-- What becomes of the children.
abbrev below : List ℕ → Node → Node
below v t = unlink_head v (remove_node v t)

-- A node is found as before, or it had the variable and is gone.
abbrev IsLeft : List ℕ → ℕ → Node → Node → Type 0
IsLeft v k t u =
    (look k u ≡ changed (λ i. i) (below v) (look k t))
    ⊎ (look k u ≡ none)
      × ((i : Instance) × (d : Node) × (look k t ≡ some (i, d)) × (has_var v i ≡ true))

look-ne :
    (k : ℕ) (i : Instance) (s : ℕ) (c n : Node)
    → (s == k) ≡ false
    → look k (node i s c n) ≡ look k n
look-ne k i s c n h = rw (h, look) refl

look-eq :
    (k : ℕ) (i : Instance) (s : ℕ) (c n : Node)
    → (s == k) ≡ true
    → look k (node i s c n) ≡ some (i, c)
look-eq k i s c n h = rw (h, look) refl

IsLeft-cons :
    (v : List ℕ) (k : ℕ) (i : Instance) (s : ℕ) (c n u : Node)
    → IsLeft v k n u
    → IsLeft v k (node i s c n) (node i s (below v c) u)
IsLeft-cons v k i s c n u h = elim (Bool-cases (s == k)) [
  | inl q ↦ inl (rw (look-eq k i s c n q, look-eq k i s (below v c) u q) refl)
  | inr q ↦ rw (look-ne k i s c n q, look-ne k i s (below v c) u q) h
]

IsLeft-gone :
    (v : List ℕ) (k : ℕ) (i : Instance) (s : ℕ) (c n u : Node)
    → has_var v i ≡ true
    → IsAbove s u
    → IsLeft v k n u
    → IsLeft v k (node i s c n) u
IsLeft-gone v k i s c n u g a h = elim (Bool-cases (s == k)) [
  | inl q ↦ inr (look-IsAbove k s u a (omega (arith, ==→eq s k q)), (i, c, look-eq k i s c n q, g))
  | inr q ↦ rw (look-ne k i s c n q) h
]

remove_node-IsLeft : (v : List ℕ) (k : ℕ) (t : Node) → IsSorted t → IsLeft v k t (remove_node v t)
unfolding remove_node
remove_node-IsLeft v k null o = inl refl
remove_node-IsLeft v k (node i s c null) o = IsLeft-cons v k i s c null null (inl refl)
remove_node-IsLeft v k (node i s c (node j t d m)) o = elim (Bool-cases (has_var v j)) [
  | inl h ↦
      rw (h, remove_node)
        (IsLeft-cons v k i s c (node j t d m) (remove_node v m) (
          IsLeft-gone v k j t d m (remove_node v m) h (remove_node-IsAbove v t m o.2.0)
            (remove_node-IsLeft v k m o.2.2)))
  | inr h ↦
      rw (h, remove_node)
        (IsLeft-cons v k i s c (node j t d m) (remove_node v (node j t d m))
          (remove_node-IsLeft v k (node j t d m) o.2))
]

-- The head of the list after remove_node.
head_kept :
    (v : List ℕ) (i : Instance) (s : ℕ) (c n : Node)
    → IsSorted (node i s c n)
    → (u : Node) × (remove_node v (node i s c n) ≡ node i s (below v c) u) × IsAbove s u
unfolding remove_node
head_kept v i s c null o = (null, refl, tt)
head_kept v i s c (node j t d m) o = elim (Bool-cases (has_var v j)) [
  | inl h ↦ (remove_node v m, rw (h, remove_node) refl, remove_node-IsAbove v s m o.0.1)
  | inr h ↦ (
    remove_node v (node j t d m),
    rw (h, remove_node) refl,
    remove_node-IsAbove v s (node j t d m) o.0,
  )
]

unlink_head-gone :
    (v : List ℕ) (i : Instance) (s : ℕ) (c n : Node)
    → has_var v i ≡ true
    → unlink_head v (node i s c n) ≡ n
unfolding unlink_head
unlink_head-gone v i s c n h = rw h refl

unlink_head-same :
    (v : List ℕ) (i : Instance) (s : ℕ) (c n : Node)
    → has_var v i ≡ false
    → unlink_head v (node i s c n) ≡ node i s c n
unfolding unlink_head
unlink_head-same v i s c n h = rw h refl

unlink_head-IsLeft :
    (v : List ℕ) (k : ℕ) (i : Instance) (s : ℕ) (c n d u : Node)
    → IsAbove s u
    → IsLeft v k (node i s c n) (node i s d u)
    → IsLeft v k (node i s c n) (unlink_head v (node i s d u))
unlink_head-IsLeft v k i s c n d u a h = elim (Bool-cases (has_var v i)) [
  | inr g ↦ rw (unlink_head-same v i s d u g) h
  | inl g ↦ rw (unlink_head-gone v i s d u g) (elim (Bool-cases (s == k)) [
    | inl q ↦
        inr (look-IsAbove k s u a (omega (arith, ==→eq s k q)), (i, c, look-eq k i s c n q, g))
    | inr q ↦
        subst
          (λ x.
            (x ≡ changed (λ i. i) (below v) (look k (node i s c n)))
            ⊎ (x ≡ none)
              × ((j : Instance) × (e : Node) × (look k (node i s c n) ≡ some (j, e))
                  × (has_var v j ≡ true)))
          (look-ne k i s d u q) h
  ])
]

below-IsLeft : (v : List ℕ) (k : ℕ) (t : Node) → IsSorted t → IsLeft v k t (below v t)
unfolding remove_node unlink_head
below-IsLeft v k null o = inl refl
below-IsLeft v k (node i s c n) o =
    let (u, e, a) = head_kept v i s c n o in
    subst (λ x. IsLeft v k (node i s c n) (unlink_head v x)) (sym e)
      (unlink_head-IsLeft v k i s c n (below v c) u a
        (subst (IsLeft v k (node i s c n)) e (remove_node-IsLeft v k (node i s c n) o)))

look-IsSorted :
    (k : ℕ) (t : Node) (i : Instance) (d : Node) → IsSorted t → look k t ≡ some (i, d) → IsSorted d
look-IsSorted k null i d o e = absurd cc
look-IsSorted k (node j s c n) i d o e = elim (Bool-cases (s == k)) [
  | inl q ↦
      let f : ◌≡◌ {A = Option (Instance × Node)} (some (j, c)) (some (i, d)) =
        sym (look-eq k j s c n q) ∙ e in
      let g : c ≡ d = cc in subst IsSorted g o.1
  | inr q ↦ look-IsSorted k n i d o.2 (sym (look-ne k j s c n q) ∙ e)
]

-- Some node on the path has the variable.
abbrev pub IsCrossed : List ℕ → List ℕ → Node → Type 0
IsCrossed v p t =
    (q : List ℕ) × (rest : List ℕ) × (i : Instance) × (p ≡ q ++ rest)
    × (get q t ≡ some i)
    × (has_var v i ≡ true)

fields_in-kept :
    (v : List ℕ) (x : Option (Instance × Node))
    → fields_in (changed (λ i. i) (below v) x) ≡ fields_in x
fields_in-kept v none = refl
fields_in-kept v (some (i, d)) = refl

get-child :
    (k : ℕ) (q : List ℕ) (t : Node) (i : Instance) (d : Node) (j : Instance)
    → look k t ≡ some (i, d)
    → get q d ≡ some j
    → get (k ∷ q) t ≡ some j
get-child k [] t i d j f b = absurd cc
get-child k (l ∷ ls) t i d j f b = ap (λ x. get (l ∷ ls) (child_in x)) f ∙ b

get-below :
    (v p : List ℕ) (t : Node)
    → IsSorted t
    → (get p (below v t) ≡ get p t) ⊎ (get p (below v t) ≡ none) × IsCrossed v p t
get-below v [] t o = inl refl
get-below v (k ∷ []) t o = elim (below-IsLeft v k t o) [
  | inl e ↦ inl (ap fields_in e ∙ fields_in-kept v (look k t))
  | inr (e, (i, d, f, g)) ↦ inr (ap fields_in e, (k ∷ [], [], i, refl, ap fields_in f, g))
]
get-below v (k ∷ l ∷ ks) t o = elim (below-IsLeft v k t o) [
  | inr (e, (i, d, f, g)) ↦ inr (
    ap (λ x. get (l ∷ ks) (child_in x)) e ∙ get-null (l ∷ ks),
    (k ∷ [], l ∷ ks, i, refl, ap fields_in f, g),
  )
  | inl e ↦ elim (Option-cases (look k t)) [
    | inl f ↦
        inl (ap (λ x. get (l ∷ ks) (child_in x)) (e ∙ ap (changed (λ i. i) (below v)) f ∙ sym f))
    | inr ((i, d), f) ↦
        let h = e ∙ ap (changed (λ i. i) (below v)) f in
        let after = ap (λ x. get (l ∷ ks) (child_in x)) h in
        let before = ap (λ x. get (l ∷ ks) (child_in x)) f in
        elim (get-below v (l ∷ ks) d (look-IsSorted k t i d o f)) [
          | inl z ↦ inl (after ∙ z ∙ sym before)
          | inr (z, (q, rest, j, a, b, c)) ↦
              inr (after ∙ z, (k ∷ q, rest, j, ap (λ x. k ∷ x) a, get-child k q t i d j f b, c))
        ]
  ]
]

level-remove_node : (v : List ℕ) (t : Node) → IsTree t → level (remove_node v t) ≡ below v (level t)
unfolding remove_node unlink_head
level-remove_node v null o = refl
level-remove_node v (node i s c null) o = refl
level-remove_node v (node i s c (node j t d m)) o = absurd (let e = o.1 in cc)

level-IsSorted : (t : Node) → IsTree t → IsSorted (level t)
level-IsSorted null o = tt
level-IsSorted (node i s c n) o = o.2

remove_node-IsTree : (v : List ℕ) (t : Node) → IsTree t → IsTree (remove_node v t)
unfolding remove_node
remove_node-IsTree v null o = tt
remove_node-IsTree v (node i s c null) o =
    (o.0, refl, (remove_node-IsSorted v (node i s c null) (tt, o.2, tt)).1)
remove_node-IsTree v (node i s c (node j t d m)) o = absurd (let e = o.1 in cc)

-- In a tree that is sorted, for an identifier of two sub-identifiers or more that begins with 1,
-- find_node finds after remove_node what it found before, or nothing more; in the second case a
-- node at the identifier or on the way to it had the variable. The tree stays sorted.
pub find_node-remove_node :
    (v : List ℕ) (t : Node) (k : ℕ) (ks : List ℕ)
    → IsTree t
    → IsTree (remove_node v t)
      × ((fields_of (find_node (remove_node v t) (1 ∷ k ∷ ks))
            ≡ fields_of (find_node t (1 ∷ k ∷ ks)))
          ⊎ (fields_of (find_node (remove_node v t) (1 ∷ k ∷ ks)) ≡ none)
            × IsCrossed v (k ∷ ks) (level t))
find_node-remove_node v t k ks o = (
  remove_node-IsTree v t o,
  elim (get-below v (k ∷ ks) (level t) (level-IsSorted t o)) [
    | inl e ↦ inl (after ∙ e ∙ sym (fields-find_node t k ks))
    | inr (e, h) ↦ inr (after ∙ e, h)
  ],
)
  where
    after : fields_of (find_node (remove_node v t) (1 ∷ k ∷ ks)) ≡ get (k ∷ ks) (below v (level t))
    after = fields-find_node (remove_node v t) k ks ∙ ap (get (k ∷ ks)) (level-remove_node v t o)
