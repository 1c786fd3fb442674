-- ===== src/Snmp/Inst/Add.antt =====
-- AddNode of tnm/snmp/tnmSnmpInst.c keeps the children in order.
pub mod Lookup
pub mod Found
pub mod Path
pub mod Fits
pub mod Tree
use tkined_remix.Prelude.{
  ℕ, ◌<◌, ◌≤◌, List, [], ◌∷◌, ◌++◌, true, false, ◌≡◌, ◌≢◌, refl, arith, ltb, ◌==◌, Bool-cases, inl,
  inr, ==→eq, ltb→lt, ltb→ge, if◌then◌else◌,
}
use tkined_remix.Snmp.Inst.{
  Node, null, node, Instance, is_null, find_sibling, insert_behind, insert_child, ensure_child,
  at_sibling, at_path, make_path, with_root, under, add_oid, intermediate,
}
use tkined_remix.Snmp.Inst.Order.{IsAbove, IsAbove-trans, IsSorted, IsTree}

at_sibling-IsAbove :
    (k : ℕ) (f : Instance → Instance) (g : Node → Node) (j : ℕ) (c : Node)
    → IsAbove j c
    → IsAbove j (at_sibling k f g c)
unfolding at_sibling
at_sibling-IsAbove k f g j null a = tt
at_sibling-IsAbove k f g j (node i s c n) a = ground (arith, at_sibling-IsAbove k f g j n a.1)

at_sibling-IsSorted :
    (k : ℕ) (f : Instance → Instance) (g : Node → Node)
    → ((d : Node) → IsSorted d → IsSorted (g d))
    → (c : Node) → IsSorted c
    → IsSorted (at_sibling k f g c)
unfolding at_sibling
at_sibling-IsSorted k f g keep null o = tt
at_sibling-IsSorted k f g keep (node i s c n) o =
    ground
      (arith, keep c o.1, at_sibling-IsAbove k f g s n o.0, at_sibling-IsSorted k f g keep n o.2)

insert_behind-IsAbove :
    (f : Instance) (k j : ℕ) (c : Node) → j < k → IsAbove j c → IsAbove j (insert_behind f k c)
unfolding insert_behind
insert_behind-IsAbove f k j null l a = (l, tt)
insert_behind-IsAbove f k j (node i s c null) l a = (a.0, (l, tt))
insert_behind-IsAbove f k j (node i s c (node h t d m)) l a =
    ground (arith, insert_behind-IsAbove f k j (node h t d m) l a.1)

insert_behind-IsSorted :
    (f : Instance) (k s : ℕ) (i : Instance) (c n : Node)
    → s < k
    → find_sibling k n ≡ null
    → IsSorted (node i s c n)
    → IsSorted (insert_behind f k (node i s c n))
unfolding insert_behind find_sibling
insert_behind-IsSorted f k s i c null l e o = ((l, tt), o.1, (tt, tt, tt))
insert_behind-IsSorted f k s i c (node h t d m) l e o = elim (Bool-cases (ltb t k)) [
  | inl b ↦ ground (
    arith,
    insert_behind-IsAbove f k s (node h t d m) l o.0,
    insert_behind-IsSorted f k t h d m (ltb→lt t k b) (ground arith) o.2,
  )
  | inr b ↦ let above : k < t = ground arith in ground (arith, IsAbove-trans k t m above o.2.0)
]

insert_child-IsSorted :
    (f : Instance) (k : ℕ) (c : Node)
    → find_sibling k c ≡ null
    → IsSorted c
    → IsSorted (insert_child f k c)
unfolding insert_child find_sibling
insert_child-IsSorted f k null e o = (tt, tt, tt)
insert_child-IsSorted f k (node i s c n) e o = elim (Bool-cases (ltb k s)) [
  | inl b ↦ ground (arith, IsAbove-trans k s n (ltb→lt k s b) o.0)
  | inr b ↦
      let below : s < k = ground arith in
      ground (arith, insert_behind-IsSorted f k s i c n below (ground arith) o)
]

pub ensure_child-IsSorted :
    (f : Instance) (k : ℕ) (c : Node) → IsSorted c → IsSorted (ensure_child f k c)
unfolding ensure_child
ensure_child-IsSorted f k c o = go (find_sibling k c) refl
  where
    go : (q : Node) → find_sibling k c ≡ q → IsSorted (if is_null q then insert_child f k c else c)
    go null e = insert_child-IsSorted f k c e o
    go (node i s d n) e = o

make_path-IsSorted :
    (offset : ℕ) (path ks : List ℕ) (c : Node) → IsSorted c → IsSorted (make_path offset path ks c)
unfolding make_path
make_path-IsSorted offset path [] c o = o
make_path-IsSorted offset path (k ∷ ks) c o =
    at_sibling-IsSorted k (λ i. i) (make_path offset (path ++ k ∷ []) ks)
      (make_path-IsSorted offset (path ++ k ∷ []) ks) _
      (ensure_child-IsSorted (intermediate offset (path ++ k ∷ [])) k c o)

pub at_path-IsSorted :
    (f : Instance → Instance) (ks : List ℕ) (c : Node) → IsSorted c → IsSorted (at_path f ks c)
unfolding at_path
at_path-IsSorted f [] c o = o
at_path-IsSorted f (k ∷ []) c o = at_sibling-IsSorted k f (λ d. d) (λ d h. h) c o
at_path-IsSorted f (k ∷ l ∷ ks) c o =
    at_sibling-IsSorted k (λ i. i) (at_path f (l ∷ ks)) (at_path-IsSorted f (l ∷ ks)) c o

with_root-IsTree : (t : Node) → IsTree t → IsTree (with_root t) × (with_root t ≢ null)
unfolding with_root
with_root-IsTree null o = ((refl, refl, tt), λ e. cc)
with_root-IsTree (node i s c n) o = (o, λ e. cc)

pub under-IsTree :
    (g : Node → Node)
    → ((c : Node) → IsSorted c → IsSorted (g c))
    → (t : Node) → IsTree t × (t ≢ null)
    → IsTree (under g t) × (under g t ≢ null)
under-IsTree g keep null (o, d) = absurd (d refl)
under-IsTree g keep (node i s c n) (o, d) = ((o.0, o.1, keep c o.2), λ e. cc)

-- add_oid keeps the tree in order, for every identifier, and makes its root if there is none.
pub add_oid-IsTree :
    (oid : List ℕ) (offset : ℕ) (f : Instance → Instance) (t : Node)
    → IsTree t
    → IsTree (add_oid oid offset f t).0 × ((add_oid oid offset f t).0 ≢ null)
unfolding add_oid
add_oid-IsTree [] offset f t o = with_root-IsTree t o
add_oid-IsTree (k ∷ ks) offset f t o = elim (Bool-cases (k == 1)) [
  | inl q ↦
      rw (q, add_oid)
        (under-IsTree (λ c. at_path f ks (make_path offset (1 ∷ []) ks c))
          (λ c h. at_path-IsSorted f ks _ (make_path-IsSorted offset (1 ∷ []) ks c h)) (with_root t)
          (with_root-IsTree t o))
  | inr q ↦ rw (q, add_oid) (with_root-IsTree t o)
]
