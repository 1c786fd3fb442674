-- ===== src/Snmp/Inst/Next/Least.antt =====
-- What FindNextNode of tnm/snmp/tnmSnmpInst.c returns is the lexicographic successor: the first
-- instance behind the identifier.
use tkined_remix.Prelude.{
  ℕ, ◌<◌, List, [], ◌∷◌, true, false, ◌≡◌, ◌≢◌, ◌⊎◌, refl, arith, ltb, ◌==◌, Bool-cases, inl, inr,
  ==→eq, ltb→lt,
}
use mathlib.Core.Path.{subst}
use tkined_remix.Snmp.Inst.{Node, null, node, Instance, has_syntax, find_next_node}
use tkined_remix.Snmp.Inst.Order.{
  IsAbove, IsSorted, At, here, down, along, At-IsAbove, At-cons, At-root, At-ne-null, IsAbove-trans,
}
use tkined_remix.Snmp.Inst.Next.{or_else, first, next, next_loop-next}
use tkined_remix.Snmp.OidObj.Order.{Lex, shorter, smaller, behind}

-- A node with a syntax stands for an instance; the others are on the way to one, or have bindings.
abbrev pub IsInstance : Node → Type 0
IsInstance null = ⊥
IsInstance (node i s c n) = i.syntax ≢ 0

-- No instance of the tree stands at a path with the property, or the node is the one that stands
-- at the lexicographically least such path.
abbrev pub IsLeast : Node → (List ℕ → Type 0) → Node → Type 0
IsLeast t B q =
    ((q ≡ null) × ((p : List ℕ) (r : Node) → At t p r → IsInstance r → ¬ B p))
    ⊎ ((p : List ℕ) × At t p q
        × IsInstance q
        × B p
        × ((o : List ℕ) (r : Node) → At t o r → IsInstance r → B o → ¬ Lex o p))

Lex-cons :
    (x y : ℕ) (xs ys v w : List ℕ)
    → v ≡ x ∷ xs
    → w ≡ y ∷ ys
    → Lex v w
    → (x < y) ⊎ ((x ≡ y) × Lex xs ys)
Lex-cons x y xs ys v w e f (shorter z zs) = absurd cc
Lex-cons x y xs ys v w e f (smaller a b ms ns l) =
    let p : a ≡ x = cc in let q : b ≡ y = cc in inl (omega arith)
Lex-cons x y xs ys v w e f (behind a ms ns h) =
    let p : ms ≡ xs = cc in let q : ns ≡ ys = cc in let o : x ≡ y = cc in inr (o, rw (← p, ← q) h)

not_Lex-nil : (v w : List ℕ) → w ≡ [] → ¬ Lex v w
not_Lex-nil v w e (shorter z zs) = cc
not_Lex-nil v w e (smaller a b ms ns l) = cc
not_Lex-nil v w e (behind a ms ns h) = cc

pub not_Lex-lower : (x y : ℕ) (v w xs ys : List ℕ) → v ≡ x ∷ xs → w ≡ y ∷ ys → y < x → ¬ Lex v w
not_Lex-lower x y v w xs ys e f l h = elim (Lex-cons x y xs ys v w e f h) [
  | inl m ↦ omega arith
  | inr (m, g) ↦ omega arith
]

Lex-tail : (x y : ℕ) (xs ys : List ℕ) → y ≡ x → Lex (x ∷ xs) (y ∷ ys) → Lex xs ys
Lex-tail x y xs ys e h = elim (Lex-cons x y xs ys _ _ refl refl h) [
  | inl m ↦ absurd (omega arith)
  | inr (m, g) ↦ g
]

not_Lex-cons : (s : ℕ) (xs ys : List ℕ) → ¬ Lex xs ys → ¬ Lex (s ∷ xs) (s ∷ ys)
not_Lex-cons s xs ys n h = elim (Lex-cons s s xs ys _ _ refl refl h) [
  | inl m ↦ omega arith
  | inr (m, g) ↦ n g
]

-- The paths of a node's own level: the node, the nodes below it, and those behind it.
At-cases :
    {i : Instance} {s : ℕ} {c n : Node} {p : List ℕ} {r : Node}
    → At (node i s c n) p r
    → ((p ≡ s ∷ []) × (r ≡ node i s c n)) ⊎ ((q : List ℕ) × (p ≡ s ∷ q) × At c q r) ⊎ At n p r
At-cases (here i s c n) = inl (refl, refl)
At-cases (down i s c n p r h) = inr (inl (p, refl, h))
At-cases (along i s c n p r h) = inr (inr h)

IsLeast-weaken :
    (t : Node) (B C : List ℕ → Type 0) (q : Node)
    → ((p : List ℕ) (r : Node) → At t p r → B p → C p)
    → ((p : List ℕ) (r : Node) → At t p r → C p → B p)
    → IsLeast t B q
    → IsLeast t C q
IsLeast-weaken t B C q f g (inl (z, empty)) = inl (z, λ p r a h b. empty p r a h (g p r a b))
IsLeast-weaken t B C q f g (inr (p, a, h, b, least)) =
    inr (p, a, h, f p q a b, λ o r d k e. least o r d k (g o r d e))

or_else_node : {t : Node} {p : List ℕ} (u v : Node) → At t p u → or_else u v ≡ u
or_else_node u v a = let (i, s, c, n, e) = At-root a in rw e refl

-- The least of a node's children and the siblings behind it, if it is not meant itself.
IsLeast-or_else :
    (B C D : List ℕ → Type 0) (i : Instance) (s : ℕ) (c n u v : Node)
    → IsAbove s n
    → ((p : List ℕ) (r : Node) → At c p r → B (s ∷ p) → C p)
    → ((p : List ℕ) → C p → B (s ∷ p))
    → ((p : List ℕ) (r : Node) → At n p r → B p → D p)
    → ((p : List ℕ) (r : Node) → At n p r → D p → B p)
    → (i.syntax ≢ 0 → ¬ B (s ∷ []))
    → IsLeast c C u
    → IsLeast n D v
    → IsLeast (node i s c n) B (or_else u v)
IsLeast-or_else B C D i s c n u v above f g f' g' self (inl (z, empty)) (inl (w, empty')) = inl (
  rw (z, w) refl,
  λ p r a h b. elim (At-cases a) [
    | inl (e, d) ↦ self (subst IsInstance d h) (subst B e b)
    | inr (inl (q, e, a')) ↦ empty q r a' h (f q r a' (subst B e b))
    | inr (inr a') ↦ empty' p r a' h (f' p r a' b)
  ],
)
IsLeast-or_else B C D i s c n u v above f g f' g' self (inl (z, empty)) (inr (p, a, h, b, least)) =
    inr (
      rw z (
        p,
        along i s c n p v a,
        h,
        g' p v a b,
        λ o r d k x. elim (At-cases d) [
          | inl (e, m) ↦ absurd (self (subst IsInstance m k) (subst B e x))
          | inr (inl (q, e, a')) ↦ absurd (empty q r a' k (f q r a' (subst B e x)))
          | inr (inr a') ↦ least o r a' k (f' o r a' x)
        ],
      ))
IsLeast-or_else B C D i s c n u v above f g f' g' self (inr (p, a, h, b, least)) _ = inr (
    rw (or_else_node u v a) (
      s ∷ p,
      down i s c n p u a,
      h,
      g p b,
      λ o r d k x. elim (At-cases d) [
        | inl (e, m) ↦ absurd (self (subst IsInstance m k) (subst B e x))
        | inr (inl (q, e, a')) ↦ rw e (not_Lex-cons s q p (least q r a' k (f q r a' (subst B e x))))
        | inr (inr a') ↦
            let (t, ks, e, l) = At-IsAbove s above a' in not_Lex-lower t s o (s ∷ p) ks p e refl l
      ],
    ))

-- Nothing of a sorted list stands before its first node.
not_Lex-head :
    (i : Instance) (s : ℕ) (c n : Node) (o : List ℕ) (r : Node)
    → IsAbove s n
    → At (node i s c n) o r
    → ¬ Lex o (s ∷ [])
not_Lex-head i s c n o r above a = elim (At-cases a) [
  | inl (e, m) ↦ rw e (not_Lex-cons s [] [] (not_Lex-nil [] [] refl))
  | inr (inl (q, e, a')) ↦ rw e (not_Lex-cons s q [] (not_Lex-nil q [] refl))
  | inr (inr a') ↦
      let (t, ks, e, l) = At-IsAbove s above a' in not_Lex-lower t s o (s ∷ []) ks [] e refl l
]

first_self :
    (i : Instance) (s : ℕ) (c n : Node) → has_syntax i ≡ true → first (node i s c n) ≡ node i s c n
first_self i s c n h = rw (h, first) refl

first-later :
    (i : Instance) (s : ℕ) (c n : Node)
    → has_syntax i ≡ false
    → first (node i s c n) ≡ or_else (first c) (first n)
first-later i s c n h = rw (h, first) refl

module _ (i : Instance) (s : ℕ) (c n : Node) (k : ℕ) (ks : List ℕ) where
  next-below : ltb s k ≡ true → next (node i s c n) (k ∷ ks) ≡ next n (k ∷ ks)
  next-below h = rw (h, next) refl

  next-match :
      ltb s k ≡ false
      → (s == k) ≡ true
      → next (node i s c n) (k ∷ ks) ≡ or_else (next c ks) (first n)
  next-match g h = rw (g, h, next) refl

  next-past :
      ltb s k ≡ false → (s == k) ≡ false → next (node i s c n) (k ∷ ks) ≡ first (node i s c n)
  next-past g h = rw (g, h, next) refl

first-IsLeast : (t : Node) → IsSorted t → IsLeast t (λ p. Unit) (first t)
first-IsLeast null o = inl (refl, λ p r a h b. absurd (At-ne-null a refl))
first-IsLeast (node i s c n) o = elim (Bool-cases (has_syntax i)) [
  | inl y ↦
      rw (first_self i s c n y)
        (inr (s ∷ [], here i s c n, ground arith, tt, λ p r a h b. not_Lex-head i s c n p r o.0 a))
  | inr y ↦ rw (first-later i s c n y) (
      IsLeast-or_else (λ p. Unit) (λ p. Unit) (λ p. Unit) i s c n (first c) (first n) o.0
        (λ p r a b. tt) (λ p b. tt) (λ p r a b. tt) (λ p r a b. tt) (λ h b. ground arith)
        (first-IsLeast c o.1) (first-IsLeast n o.2))
]

next-IsLeast : (t : Node) (oid : List ℕ) → IsSorted t → IsLeast t (Lex oid) (next t oid)
next-IsLeast null oid o = inl (refl, λ p r a h b. absurd (At-ne-null a refl))
next-IsLeast (node i s c n) [] o =
    IsLeast-weaken (node i s c n) (λ p. Unit) (Lex []) (first (node i s c n))
      (λ p r a b. let (t, ks, e) = At-cons a in rw e (shorter t ks)) (λ p r a b. tt)
      (first-IsLeast (node i s c n) o)
next-IsLeast (node i s c n) (k ∷ ks) o = elim (Bool-cases (ltb s k)) [
  | inl l ↦ rw (next-below i s c n k ks l) (
      IsLeast-or_else (Lex (k ∷ ks)) (λ p. ⊥) (Lex (k ∷ ks)) i s c n null (next n (k ∷ ks)) o.0
        (λ p r a b. not_Lex-lower k s (k ∷ ks) (s ∷ p) ks p refl refl (ltb→lt s k l) b)
        (λ p b. absurd b) (λ p r a b. b) (λ p r a b. b)
        (λ h b. not_Lex-lower k s (k ∷ ks) (s ∷ []) ks [] refl refl (ltb→lt s k l) b)
        (inl (refl, λ p r a h b. b)) (next-IsLeast n (k ∷ ks) o.2))
  | inr g ↦ elim (Bool-cases (s == k)) [
    | inl q ↦
        let e : s ≡ k = ==→eq s k q in
        rw (next-match i s c n k ks g q) (
          IsLeast-or_else (Lex (k ∷ ks)) (Lex ks) (λ p. Unit) i s c n (next c ks) (first n) o.0
            (λ p r a b. Lex-tail k s ks p e b) (λ p b. rw e (behind k ks p b)) (λ p r a b. tt)
            (λ p r a b.
              let (t, ts, f, l) = At-IsAbove s o.0 a in rw f (smaller k t ks ts (omega arith)))
            (λ h b. not_Lex-nil ks [] refl (Lex-tail k s ks [] e b)) (next-IsLeast c ks o.1)
            (first-IsLeast n o.2))
    | inr q ↦
        let l : k < s = ground arith in
        rw (next-past i s c n k ks g q) (
          IsLeast-weaken (node i s c n) (λ p. Unit) (Lex (k ∷ ks)) (first (node i s c n))
            (λ p r a b.
              let (t, ts, f, m) = At-IsAbove k (l, IsAbove-trans k s n l o.0) a in
              rw f (smaller k t ks ts m))
            (λ p r a b. tt) (first-IsLeast (node i s c n) o))
  ]
]

-- In a tree that is sorted find_next_node finds the lexicographic successor of any identifier:
-- it returns no node if no instance stands behind the identifier, and otherwise the instance at
-- the least path behind it.
pub find_next_node-IsLeast :
    (t : Node) (oid : List ℕ) → IsSorted t → IsLeast t (Lex oid) (find_next_node t oid)
unfolding find_next_node
find_next_node-IsLeast t oid o = rw (next_loop-next t oid o) (next-IsLeast t oid o)
