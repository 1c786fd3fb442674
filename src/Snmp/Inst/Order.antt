-- ===== src/Snmp/Inst/Order.antt =====
-- The order of the children in the tree of tnm/snmp/tnmSnmpInst.c, and the paths of its nodes.
use tkined_remix.Prelude.{ℕ, ◌<◌, List, [], ◌∷◌, ◌≡◌, ◌≢◌, refl, arith}
use tkined_remix.Snmp.Inst.{Node, null, node, Instance}

-- Every node of the list has a subid above the bound.
abbrev pub IsAbove : ℕ → Node → Type 0
IsAbove k null = Unit
IsAbove k (node i s c n) = (k < s) × IsAbove k n

-- Siblings stand in the order of their subids, each subid once, at every level.
abbrev pub IsSorted : Node → Type 0
IsSorted null = Unit
IsSorted (node i s c n) = IsAbove s n × IsSorted c × IsSorted n

-- A node stands at a path: from the siblings on, down the tree.
pub data At : Node → List ℕ → Node → Type 0 where
  here : (i : Instance) (s : ℕ) (c n : Node) → At (node i s c n) (s ∷ []) (node i s c n)
  down :
      (i : Instance) (s : ℕ) (c n : Node) (p : List ℕ) (r : Node)
      → At c p r
      → At (node i s c n) (s ∷ p) r
  along :
      (i : Instance) (s : ℕ) (c n : Node) (p : List ℕ) (r : Node) → At n p r → At (node i s c n) p r

pub IsAbove-trans : (j k : ℕ) (t : Node) → j < k → IsAbove k t → IsAbove j t
IsAbove-trans j k null h a = tt
IsAbove-trans j k (node i s c n) h a = (omega (arith, a.0), IsAbove-trans j k n h a.1)

-- What a path below siblings above a bound begins with.
pub At-IsAbove :
    (k : ℕ) {t : Node} {p : List ℕ} {r : Node}
    → IsAbove k t
    → At t p r
    → (s : ℕ) × (ks : List ℕ) × (p ≡ s ∷ ks) × (k < s)
At-IsAbove k a (here i s c n) = (s, [], refl, a.0)
At-IsAbove k a (down i s c n p r h) = (s, p, refl, a.0)
At-IsAbove k a (along i s c n p r h) = At-IsAbove k a.1 h

pub At-cons : {t : Node} {p : List ℕ} {r : Node} → At t p r → (s : ℕ) × (ks : List ℕ) × (p ≡ s ∷ ks)
At-cons (here i s c n) = (s, [], refl)
At-cons (down i s c n p r h) = (s, p, refl)
At-cons (along i s c n p r h) = At-cons h

pub At-root :
    {t : Node} {p : List ℕ} {r : Node}
    → At t p r
    → (i : Instance) × (s : ℕ) × (c : Node) × (n : Node) × (r ≡ node i s c n)
At-root (here i s c n) = (i, s, c, n, refl)
At-root (down i s c n p r h) = At-root h
At-root (along i s c n p r h) = At-root h

-- The whole tree: one node for `1`, if any.
abbrev pub IsTree : Node → Type 0
IsTree null = Unit
IsTree (node i s c n) = (s ≡ 1) × (n ≡ null) × IsSorted c

pub At-ne-null : {t : Node} {p : List ℕ} {r : Node} → At t p r → t ≢ null
At-ne-null (here i s c n) e = cc
At-ne-null (down i s c n p r h) e = cc
At-ne-null (along i s c n p r h) e = cc
