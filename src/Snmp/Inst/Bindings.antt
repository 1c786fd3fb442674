-- ===== src/Snmp/Inst/Bindings.antt =====
-- TnmSnmpSetNodeBinding and TnmSnmpGetNodeBinding of tnm/snmp/tnmSnmpInst.c: the Tcl commands that
-- are bound to events at a node.
pub mod ReadBack
use tkined_remix.Prelude.{
  ℕ, List, [], ◌∷◌, Bool, true, false, Option, none, some, ◌==◌, if◌then◌else◌,
}
use tkined_remix.Snmp.OidObj.{TnmOid, subids, to_string}
use tkined_remix.Snmp.Inst.{
  Binding, Instance, Node, null, node, find_node, at_path, add_node, is_null,
}

-- `for (bindPtr = node->bindings; bindPtr; bindPtr = bindPtr->nextPtr) if (bindPtr->event == event)`
unfoldable pub has_event : ℕ → List Binding → Bool
has_event event [] = false
has_event event (b ∷ bs) = if b.event == event then true else has_event event bs

-- The command of the binding that the loop finds, NULL if there is none.
unfoldable pub command_of : ℕ → List Binding → Option (List ℕ)
command_of event [] = none
command_of event (b ∷ bs) = if b.event == event then b.command else command_of event bs

-- `if (*command != '\0') bindPtr->command = ckstrdup(command);`
abbrev pub stored : List ℕ → Option (List ℕ)
stored [] = none
stored (c ∷ cs) = some (c ∷ cs)

unfoldable pub overwrite : ℕ → List ℕ → List Binding → List Binding
overwrite event command [] = []
overwrite event command (b ∷ bs) =
    if b.event == event
    then record b { command = stored command } ∷ bs
    else b ∷ overwrite event command bs

-- The end of TnmSnmpSetNodeBinding, on the bindings of the node. `none` is the command NULL.
unfoldable pub bind : ℕ → Option (List ℕ) → List Binding → List Binding
bind event none bs = bs
bind event (some command) bs =
    if has_event event bs
    then overwrite event command bs
    else record { event = event; command = stored command } ∷ bs

abbrev pub bound : ℕ → Option (List ℕ) → Instance → Instance
bound event command i = record i { bindings = bind event command i.bindings }

-- A change to the fields of the node at an identifier.
unfoldable pub at_oid : (Instance → Instance) → List ℕ → Node → Node
at_oid f [] t = t
at_oid f (k ∷ ks) null = null
at_oid f (k ∷ []) (node i s c n) = node (f i) s c n
at_oid f (k ∷ l ∷ ks) (node i s c n) = node i s (at_path f (l ∷ ks) c) n

-- TnmSnmpSetNodeBinding: the tree, and whether it returns TCL_OK. `none` is a text that overruns
-- the buffer of TnmOidToString, or a fault of AddNode.
unfoldable pub set_node_binding : TnmOid → ℕ → Option (List ℕ) → Node → Option (Node × Bool)
set_node_binding oid event command t = elim (is_null (find_node t (subids oid))) [
  | false ↦ some (at_oid (bound event command) (subids oid) t, true)
  | true ↦ elim (to_string oid) [
    | none ↦ none
    | some soid ↦ elim (add_node soid 0 0 0 none t) [
      | none ↦ none
      | some (u, none) ↦ some (u, false)
      | some (u, some path) ↦ some (at_oid (bound event command) path u, true)
    ]
  ]
]

abbrev pub binding_of : ℕ → Node → Option (List ℕ)
binding_of event null = none
binding_of event (node i s c n) = command_of event i.bindings

-- TnmSnmpGetNodeBinding.
unfoldable pub get_node_binding : List ℕ → ℕ → Node → Option (List ℕ)
get_node_binding oid event t = binding_of event (find_node t oid)
