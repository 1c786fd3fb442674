-- ===== src/Snmp/Inst/Remove.antt =====
-- RemoveNode of tnm/snmp/tnmSnmpInst.c: the tree stays in order, the nodes with the variable are
-- gone if no two of them are neighbours, and other nodes stay.
pub mod Kept
use tkined_remix.Prelude.{
  ℕ, ◌<◌, List, [], ◌∷◌, Bool, true, false, ◌≡◌, ◌≢◌, refl, arith, Bool-cases, inl, inr,
}
use tkined_remix.Snmp.Inst.{Node, null, node, Instance, has_var, unlink_head, remove_node}
use tkined_remix.Snmp.Inst.Order.{IsAbove, IsAbove-trans, IsSorted, IsTree}

unlink_head-IsSorted : (v : List ℕ) (t : Node) → IsSorted t → IsSorted (unlink_head v t)
unfolding unlink_head
unlink_head-IsSorted v null o = tt
unlink_head-IsSorted v (node i s c n) o = ground (arith, o.2)

pub remove_node-IsAbove :
    (v : List ℕ) (k : ℕ) (t : Node) → IsAbove k t → IsAbove k (remove_node v t)
unfolding remove_node
remove_node-IsAbove v k null a = tt
remove_node-IsAbove v k (node i s c null) a = (a.0, tt)
remove_node-IsAbove v k (node i s c (node j t d m)) a =
    ground (arith, remove_node-IsAbove v k m a.1.1, remove_node-IsAbove v k (node j t d m) a.1)

pub remove_node-IsSorted : (v : List ℕ) (t : Node) → IsSorted t → IsSorted (remove_node v t)
unfolding remove_node
remove_node-IsSorted v null o = tt
remove_node-IsSorted v (node i s c null) o =
    (tt, unlink_head-IsSorted v (remove_node v c) (remove_node-IsSorted v c o.1), tt)
remove_node-IsSorted v (node i s c (node j t d m)) o =
    let kids = unlink_head-IsSorted v (remove_node v c) (remove_node-IsSorted v c o.1) in
    elim (Bool-cases (has_var v j)) [
      | inl h ↦
          ground (arith, kids, remove_node-IsAbove v s m o.0.1, remove_node-IsSorted v m o.2.2)
      | inr h ↦ ground (
        arith,
        kids,
        remove_node-IsAbove v s (node j t d m) o.0,
        remove_node-IsSorted v (node j t d m) o.2,
      )
    ]

-- No node of the list, or below, has the variable.
abbrev pub IsFree : List ℕ → Node → Type 0
IsFree v null = Unit
IsFree v (node i s c n) = (has_var v i ≡ false) × IsFree v c × IsFree v n

abbrev pub head_var : List ℕ → Node → Bool
head_var v null = false
head_var v (node i s c n) = has_var v i

-- No two neighbours have the variable.
abbrev pub IsSparse : List ℕ → Node → Type 0
IsSparse v null = Unit
IsSparse v (node i s c n) =
    (has_var v i ≡ true → head_var v n ≡ false) × IsSparse v c × IsSparse v n

abbrev IsFreeBelow : List ℕ → Node → Type 0
IsFreeBelow v null = Unit
IsFreeBelow v (node i s c n) = IsFree v c × IsFree v n

unlink_head-IsFree : (v : List ℕ) (t : Node) → IsFreeBelow v t → IsFree v (unlink_head v t)
unfolding unlink_head
unlink_head-IsFree v null o = tt
unlink_head-IsFree v (node i s c n) o = ground (arith, o.0, o.1)

with_head :
    (v : List ℕ) (t : Node)
    → head_var v t ≡ false
    → IsFreeBelow v (remove_node v t)
    → IsFree v (remove_node v t)
unfolding remove_node
with_head v null e o = tt
with_head v (node i s c null) e o = (e, o.0, o.1)
with_head v (node i s c (node j t d m)) e o = ground arith

remove_node-IsFreeBelow : (v : List ℕ) (t : Node) → IsSparse v t → IsFreeBelow v (remove_node v t)
unfolding remove_node
remove_node-IsFreeBelow v null o = tt
remove_node-IsFreeBelow v (node i s c null) o =
    (unlink_head-IsFree v (remove_node v c) (remove_node-IsFreeBelow v c o.1), tt)
remove_node-IsFreeBelow v (node i s c (node j t d m)) o =
    let kids = unlink_head-IsFree v (remove_node v c) (remove_node-IsFreeBelow v c o.1) in
    elim (Bool-cases (has_var v j)) [
      | inl h ↦ ground (arith, kids, with_head v m (o.2.0 h) (remove_node-IsFreeBelow v m o.2.2))
      | inr h ↦
          ground (
            arith,
            kids,
            with_head v (node j t d m) h (remove_node-IsFreeBelow v (node j t d m) o.2),
          )
    ]

-- If no two neighbours have the variable, and the first node has another one, remove_node leaves
-- no node with the variable.
pub remove_node-IsFree :
    (v : List ℕ) (t : Node) → IsSparse v t → head_var v t ≡ false → IsFree v (remove_node v t)
remove_node-IsFree v t o e = with_head v t e (remove_node-IsFreeBelow v t o)
