-- ===== src/Snmp/Inst/Next.antt =====
-- FindNextNode of tnm/snmp/tnmSnmpInst.c returns the lexicographic successor: the first instance
-- behind the identifier, or NULL if there is none.
pub mod Least
use tkined_remix.Prelude.{
  ℕ, ◌<◌, ◌≤◌, List, [], ◌∷◌, Bool, true, false, ◌≡◌, ◌≢◌, ◌⊎◌, refl, sym, ap, ◌∙◌, arith, ltb,
  ◌==◌, not, ◌&&◌, ◌||◌, Bool-cases, inl, inr, ==→eq, eq→==, ltb→lt, ltb→ge, lt→ltb, ge→ltb,
}
use tkined_remix.Snmp.Inst.{
  Node, null, node, Instance, is_null, is_below, is_match, at_end, has_syntax, rest_of, next_loop,
  find_next_node,
}
use tkined_remix.Snmp.Inst.Order.{
  IsAbove, IsAbove-trans, IsSorted, At, here, down, along, At-IsAbove, At-cons, At-root,
}
use tkined_remix.Snmp.OidObj.Order.{Lex, shorter, smaller, behind}

abbrev pub or_else : Node → Node → Node
or_else null u = u
or_else (node i s c n) u = node i s c n

-- The first instance of the nodes, and the first one behind an identifier.
abbrev pub first : Node → Node
first null = null
first (node i s c n) = elim (has_syntax i) [
  | true ↦ node i s c n
  | false ↦ or_else (first c) (first n)
]

abbrev pub next : Node → List ℕ → Node
next null oid = null
next (node i s c n) [] = first (node i s c n)
next (node i s c n) (k ∷ ks) = elim (ltb s k) [
  | true ↦ next n (k ∷ ks)
  | false ↦ elim (s == k) [ true ↦ or_else (next c ks) (first n) | false ↦ first (node i s c n) ]
]

abbrev IsPast : List ℕ → Node → Type 0
IsPast [] t = Unit
IsPast (k ∷ ks) t = IsAbove k t

IsPast-next :
    (i : Instance) (s : ℕ) (c n : Node) (oid : List ℕ)
    → IsPast oid (node i s c n)
    → (is_below s oid ≡ false) × (is_match s oid ≡ false) × IsPast oid n
IsPast-next i s c n [] h = (refl, refl, tt)
IsPast-next i s c n (k ∷ ks) h = (ground arith, ground arith, h.1)

-- What is done with the result of the recursive call.
or_else_lem :
    (found : Node × Bool) (after : Node × Bool) (t u : Node)
    → found.0 ≡ t
    → after.0 ≡ u
    → (elim (is_null found.0) as (λ _. Node × Bool) [ true ↦ after | false ↦ found ]).0
      ≡ or_else t u
or_else_lem (null, f) after t u e h = rw (← e) h
or_else_lem (node i s c n, f) after t u e h = rw (← e) refl

-- Behind the identifier the flag does not matter.
next_loop-first :
    (b : Bool) (t : Node) (oid : List ℕ) (force : Bool)
    → IsPast oid t
    → (next_loop b t oid force).0 ≡ first t
unfolding next_loop
next_loop-first b null oid force h = refl
next_loop-first b (node i s null n) oid force h =
    let (below, match, past) = IsPast-next i s null n oid h in
    ground (arith, below, match, next_loop-first false n oid true past)
next_loop-first b (node i s (node j t d m) n) oid force h =
    let (below, match, past) = IsPast-next i s (node j t d m) n oid h in
    let found = next_loop true (node j t d m) [] true in
    ground (
      arith,
      below,
      match,
      or_else_lem found (next_loop false n oid found.1) (first (node j t d m)) (first n)
          (next_loop-first true (node j t d m) [] true tt)
          (next_loop-first false n oid found.1 past),
    )

IsPast-below : (s k : ℕ) (ks : List ℕ) (n : Node) → IsAbove s n → k ≤ s → IsPast (k ∷ ks) n
IsPast-below s k ks null a h = tt
IsPast-below s k ks (node i t c n) a h = (omega (arith, a.0), IsPast-below s k ks n a.1 h)

next_loop-match :
    (i : Instance) (s : ℕ) (c n : Node) (k : ℕ) (ks : List ℕ)
    → s ≡ k
    → IsAbove s n
    → ((next_loop true c ks false).0 ≡ next c ks)
    → (next_loop true (node i s c n) (k ∷ ks) false).0 ≡ or_else (next c ks) (first n)
unfolding next_loop
next_loop-match i s null n k ks e a h =
    ground (arith, next_loop-first false n (k ∷ ks) true (IsPast-below s k ks n a (omega arith)))
next_loop-match i s (node j t d m) n k ks e a h =
    let found = next_loop true (node j t d m) ks false in
    ground (
      arith,
      or_else_lem found (next_loop false n (k ∷ ks) found.1) (next (node j t d m) ks) (first n) h
          (next_loop-first false n (k ∷ ks) found.1 (IsPast-below s k ks n a (omega arith))),
    )

pub next_loop-next :
    (t : Node) (oid : List ℕ) → IsSorted t → (next_loop true t oid false).0 ≡ next t oid
unfolding next_loop
next_loop-next null oid o = refl
next_loop-next (node i s c n) [] o = next_loop-first true (node i s c n) [] false tt
next_loop-next (node i s c n) (k ∷ ks) o = elim (Bool-cases (ltb s k)) [
  | inl l ↦ ground (arith, next_loop-next n (k ∷ ks) o.2)
  | inr g ↦ elim (Bool-cases (s == k)) [
    | inl q ↦
        ground (arith, next_loop-match i s c n k ks (==→eq s k q) o.0 (next_loop-next c ks o.1))
    | inr q ↦
        let past : k < s = ground arith in
        ground (
          arith,
          next_loop-first true (node i s c n) (k ∷ ks) false
              (past, IsPast-below s k ks n o.0 (omega arith)),
        )
  ]
]
