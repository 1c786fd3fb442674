-- ===== src/Snmp/Inst/Tests.antt =====
-- Runs of the tree of tnm/snmp/tnmSnmpInst.c.
use tkined_remix.Prelude.{
  ℕ, zero, suc, List, [], ◌∷◌, none, some, true, false, ◌≡◌, ◌≢◌, ◌⊎◌, refl, arith,
}
use tkined_remix.Snmp.EncodePdu.{same_text}
use tkined_remix.Snmp.OidText.{
  str_to_oid, str_to_oid_loop, without_dot, cleared, oid_to_str, subids_text, subid_text, drop_last,
  grow, emit,
}
use tkined_remix.Snmp.OidObj.{TnmOid, to_string}
use tkined_remix.Snmp.OidObj.Order.{Lex}
use tkined_remix.Snmp.Inst.{
  Node, null, node, Instance, no_instance, find_node, walk, find_next_node, next_loop, add_node,
  path_fits, labels_fit, find_sibling, assigned, intermediate, remove_node, unlink_head, has_var,
}
use tkined_remix.Snmp.Inst.Order.{IsSorted, IsTree, At}
use tkined_remix.Snmp.Inst.Find.{find_node-At}
use tkined_remix.Snmp.Inst.Next.Least.{IsLeast, find_next_node-IsLeast}
use tkined_remix.Snmp.Inst.Add.Found.{fields_of}
use tkined_remix.Snmp.Inst.Add.Path.{or_new}
use tkined_remix.Snmp.Inst.Add.Tree.{level, IsUntouched, add_node-find_node}
use tkined_remix.Snmp.Inst.Remove.{IsFree, IsSparse, remove_node-IsFree}
use tkined_remix.Snmp.Inst.Remove.Kept.{IsCrossed, find_node-remove_node}
use tkined_remix.Snmp.Inst.Bindings.{set_node_binding}
use tkined_remix.Snmp.Inst.Bindings.ReadBack.{IsRebound, set_node_binding-IsRebound}

abbrev instance_of : List ℕ → Instance
instance_of var = record no_instance { syntax = 2; tcl_var = some var }

-- 1.3 with the instances 1.3.1, 1.3.2 and 1.3.5.7, in the variables a, b and c.
abbrev small : Node
small =
    node no_instance 1
      (node no_instance 3
        (node (instance_of (b'a' ∷ [])) 1 null (
          node (instance_of (b'b' ∷ [])) 2 null
            (node no_instance 5 (node (instance_of (b'c' ∷ [])) 7 null null) null)))
        null)
      null

small-IsTree : IsTree small
small-IsTree = (
  refl,
  refl,
  (tt, ((omega arith, (omega arith, tt)), tt, ((omega arith, tt), tt, (tt, (tt, tt, tt), tt))), tt),
)

small-IsSorted : IsSorted small
small-IsSorted = (tt, small-IsTree.2, tt)

abbrev third : Node
third = node (instance_of (b'c' ∷ [])) 7 null null

find_node-At_example :
    ((r : Node) → At small (1 ∷ 3 ∷ 5 ∷ 7 ∷ []) r → find_node small (1 ∷ 3 ∷ 5 ∷ 7 ∷ []) ≡ r)
    × (find_node small (1 ∷ 3 ∷ 5 ∷ 7 ∷ []) ≢ null
        → At small (1 ∷ 3 ∷ 5 ∷ 7 ∷ []) (find_node small (1 ∷ 3 ∷ 5 ∷ 7 ∷ [])))
find_node-At_example = find_node-At small 3 (5 ∷ 7 ∷ []) small-IsTree

next_run : find_next_node small (1 ∷ 3 ∷ 2 ∷ []) ≡ third
unfolding find_next_node next_loop
next_run = refl

find_next_node-IsLeast_example :
    IsLeast small (Lex (1 ∷ 3 ∷ 2 ∷ [])) (find_next_node small (1 ∷ 3 ∷ 2 ∷ []))
find_next_node-IsLeast_example = find_next_node-IsLeast small (1 ∷ 3 ∷ 2 ∷ []) small-IsSorted

-- 1.3.4
abbrev soid : List ℕ
soid = b'1' ∷ b'.' ∷ b'3' ∷ b'.' ∷ b'4' ∷ []

soid_converted : str_to_oid soid ≡ some (1 ∷ 3 ∷ 4 ∷ cleared 125, 3)
unfolding str_to_oid str_to_oid_loop without_dot
soid_converted = refl

add_node-find_node_example :
    (u : Node) × (add_node soid 4 2 1 (some (b'd' ∷ [])) small ≡ some (u, some (1 ∷ 3 ∷ 4 ∷ [])))
    × IsTree u
    × (fields_of (find_node u (1 ∷ 3 ∷ 4 ∷ []))
        ≡ some (
            assigned soid 4 2 1 (some (b'd' ∷ [])) (
              or_new
                (intermediate 4 (1 ∷ 3 ∷ 4 ∷ []))
                (fields_of (find_node small (1 ∷ 3 ∷ 4 ∷ []))))))
    × ((j : ℕ) (js : List ℕ)
        → (j ∷ js) ≢ (3 ∷ 4 ∷ [])
        → IsUntouched 4 (1 ∷ 3 ∷ 4 ∷ []) (1 ∷ j ∷ js) small u)
unfolding oid_to_str subids_text subid_text drop_last
add_node-find_node_example =
    add_node-find_node soid 4 2 1 (some (b'd' ∷ [])) small (1 ∷ 3 ∷ 4 ∷ cleared 125) 3 3 (4 ∷ [])
      soid soid_converted refl refl small-IsTree

-- 1.3 followed by 126 times 4294967295: the new nodes at its end have no texts.
abbrev times : ℕ → ℕ → List ℕ
times zero k = []
times (suc n) k = k ∷ times n k

overrun : path_fits (1 ∷ 3 ∷ times 126 4294967295) small ≡ false
unfolding labels_fit find_sibling oid_to_str subids_text subid_text drop_last grow emit
overrun = refl

small-IsSparse : IsSparse (b'c' ∷ []) small
unfolding has_var same_text
small-IsSparse = (
  λ e. refl,
  (λ e. refl, (λ e. refl, tt, (λ e. refl, tt, (λ e. refl, (λ e. refl, tt, tt), tt))), tt),
  tt,
)

remove_node-IsFree_example : IsFree (b'c' ∷ []) (remove_node (b'c' ∷ []) small)
unfolding has_var
remove_node-IsFree_example = remove_node-IsFree (b'c' ∷ []) small small-IsSparse refl

find_node-remove_node_example :
    IsTree (remove_node (b'b' ∷ []) small)
    × ((fields_of (find_node (remove_node (b'b' ∷ []) small) (1 ∷ 3 ∷ 2 ∷ []))
          ≡ fields_of (find_node small (1 ∷ 3 ∷ 2 ∷ [])))
        ⊎ (fields_of (find_node (remove_node (b'b' ∷ []) small) (1 ∷ 3 ∷ 2 ∷ [])) ≡ none)
          × IsCrossed (b'b' ∷ []) (3 ∷ 2 ∷ []) (level small))
find_node-remove_node_example = find_node-remove_node (b'b' ∷ []) small 3 (2 ∷ []) small-IsTree

-- Of three neighbours with one variable the last one is left.
abbrev twins : Node
twins =
    node no_instance 1
      (node (instance_of (b'a' ∷ [])) 1 null
        (node (instance_of (b'a' ∷ [])) 2 null (node (instance_of (b'a' ∷ [])) 3 null null)))
      null

twins_left :
    remove_node (b'a' ∷ []) twins
    ≡ node no_instance 1 (node (instance_of (b'a' ∷ [])) 3 null null) null
unfolding remove_node unlink_head has_var same_text
twins_left = refl

abbrev bound_oid : TnmOid
bound_oid = record { elements = 1 ∷ 3 ∷ 4 ∷ []; used = 3; space_avl = 3 }

set_node_binding-IsRebound_example :
    (u : Node) × (set_node_binding bound_oid 2 (some (b'x' ∷ [])) small ≡ some (u, true))
    × IsTree u
    × IsRebound 3 (4 ∷ []) 2 (b'x' ∷ []) small u
unfolding to_string oid_to_str subids_text subid_text drop_last
set_node_binding-IsRebound_example =
    set_node_binding-IsRebound bound_oid 2 (b'x' ∷ []) small soid (1 ∷ 3 ∷ 4 ∷ cleared 125) 3 3
      (4 ∷ []) refl refl soid_converted refl small-IsTree

-- The identifier 1 has no node that FindNode finds, and TnmStrToOid returns NULL for its text.
abbrev lone_oid : TnmOid
lone_oid = record { elements = 1 ∷ []; used = 1; space_avl = 1 }

lone_refused : set_node_binding lone_oid 2 (some (b'x' ∷ [])) small ≡ none
unfolding set_node_binding find_node walk to_string add_node str_to_oid str_to_oid_loop without_dot
    oid_to_str subids_text subid_text drop_last
lone_refused = refl
