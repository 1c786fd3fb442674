-- ===== src/Snmp/Inst.antt =====
-- The tree of MIB instances and session bindings of tnm/snmp/tnmSnmpInst.c. A pointer to a node is
-- the node with what hangs on it, `null` the pointer NULL; a function that changes the tree returns
-- it. A text is the list of its characters. The Tcl variables, traces and the lookup of names in
-- the MIB are left out, and memory that is freed or lost is forgotten.
pub mod Order
pub mod Find
pub mod Next
pub mod Add
pub mod Remove
pub mod Bindings
mod Tests
use tkined_remix.Prelude.{
  ℕ, zero, suc, ◌+◌, List, [], ◌∷◌, ◌++◌, Bool, true, false, Option, none, some, ltb, ◌==◌, not,
  ◌&&◌, ◌||◌, if◌then◌else◌, take,
}
use tkined_remix.Snmp.EncodePdu.{same_text}
use tkined_remix.Snmp.OidText.{oid_to_str, str_to_oid}

pub record Binding : Type 0 where
  pub event : ℕ
  pub command : Option (List ℕ)

-- The fields of struct TnmSnmpNode but the sub-identifier and the links.
pub record Instance : Type 0 where
  pub label : Option (List ℕ)
  pub offset : ℕ
  pub syntax : ℕ
  pub access : ℕ
  pub tcl_var : Option (List ℕ)
  pub bindings : List Binding

-- A node is its fields, its subid, its childPtr and its nextPtr.
pub data Node : Type 0 where
  null : Node
  node : Instance → ℕ → Node → Node → Node

-- What memset leaves of the fields.
abbrev pub no_instance : Instance
no_instance = record {
  label = none;
  offset = 0;
  syntax = 0;
  access = 0;
  tcl_var = none;
  bindings = [];
}

abbrev pub is_null : Node → Bool
is_null null = true
is_null _ = false

-- `for (q = p->childPtr; q; q = q->nextPtr) if (q->subid == k) break;`
unfoldable pub find_sibling : ℕ → Node → Node
find_sibling k null = null
find_sibling k (node i s c n) = if s == k then node i s c n else find_sibling k n

abbrev pub child : Node → Node
child null = null
child (node i s c n) = c

-- The outer loop of FindNode from p on, with the value of q.
unfoldable pub walk : List ℕ → Node → Node → Node
walk [] p q = q
walk (k ∷ ks) p q = let r = find_sibling k (child p) in walk ks r r

-- FindNode.
unfoldable pub find_node : Node → List ℕ → Node
find_node root [] = null
find_node root (k ∷ ks) = if k == 1 then walk ks root null else null

-- `len && s < oid[0]`
abbrev pub is_below : ℕ → List ℕ → Bool
is_below s [] = false
is_below s (k ∷ ks) = ltb s k

-- `len > 0 && s == oid[0]`
abbrev pub is_match : ℕ → List ℕ → Bool
is_match s [] = false
is_match s (k ∷ ks) = s == k

abbrev pub has_syntax : Instance → Bool
has_syntax i = not (i.syntax == 0)

abbrev pub at_end : List ℕ → Bool
at_end [] = true
at_end _ = false

abbrev pub rest_of : List ℕ → List ℕ
rest_of [] = []
rest_of (k ∷ ks) = ks

-- The two loops of FindNextNode from a node on: the first one while `skipping`. The static flag is
-- handed on, and returned with the node.
unfoldable pub next_loop : Bool → Node → List ℕ → Bool → Node × Bool
next_loop skipping null oid force = (null, force)
next_loop skipping (node i s c n) oid force = elim (skipping && is_below s oid) [
  | true ↦ next_loop true n oid force
  | false ↦ elim (is_null c) [
    | true ↦
        elim (has_syntax i && (at_end oid || not (at_end oid) && not (is_match s oid) || force)) [
          | true ↦ (node i s c n, force)
          | false ↦ next_loop false n oid true
        ]
    | false ↦ elim (is_match s oid) [
      | true ↦
          let (inst, forced) = next_loop true c (rest_of oid) force in
          elim (is_null inst) [ true ↦ next_loop false n oid forced | false ↦ (inst, forced) ]
      | false ↦ elim (has_syntax i) [
        | true ↦ (node i s c n, force)
        | false ↦
            let (inst, forced) = next_loop true c [] true in
            elim (is_null inst) [ true ↦ next_loop false n oid forced | false ↦ (inst, forced) ]
      ]
    ]
  ]
]

-- FindNextNode from the root of the tree, which resets the flag.
unfoldable pub find_next_node : Node → List ℕ → Node
find_next_node root oid = (next_loop true root oid false).0

-- A new node behind the last one with a lower subid: the loop of AddNode and what follows it.
unfoldable pub insert_behind : Instance → ℕ → Node → Node
insert_behind f k null = node f k null null
insert_behind f k (node i s c null) = node i s c (node f k null null)
insert_behind f k (node i s c (node j t d m)) = elim (ltb t k) [
  | true ↦ node i s c (insert_behind f k (node j t d m))
  | false ↦ node i s c (node f k null (node j t d m))
]

-- The three places of a new node among the children.
unfoldable pub insert_child : Instance → ℕ → Node → Node
insert_child f k null = node f k null null
insert_child f k (node i s c n) =
    if ltb k s then node f k null (node i s c n) else insert_behind f k (node i s c n)

-- The search among the children, and a new one if there is none.
unfoldable pub ensure_child : Instance → ℕ → Node → Node
ensure_child f k c = if is_null (find_sibling k c) then insert_child f k c else c

-- A change to the fields and to the children of the first node with the subid.
unfoldable pub at_sibling : ℕ → (Instance → Instance) → (Node → Node) → Node → Node
at_sibling k f g null = null
at_sibling k f g (node i s c n) =
    if s == k then node (f i) s (g c) n else node i s c (at_sibling k f g n)

-- A change to the fields of the node at the path, among the children.
unfoldable pub at_path : (Instance → Instance) → List ℕ → Node → Node
at_path f [] c = c
at_path f (k ∷ []) c = at_sibling k f (λ d. d) c
at_path f (k ∷ l ∷ ks) c = at_sibling k (λ i. i) (at_path f (l ∷ ks)) c

-- A new node; its label is not NULL where the text fits the buffer of TnmOidToStr.
abbrev pub intermediate : ℕ → List ℕ → Instance
intermediate offset oid = record no_instance { label = oid_to_str oid; offset = offset }

-- The loop of AddNode that makes the nodes of the path; `done` is the path so far.
unfoldable pub make_path : ℕ → List ℕ → List ℕ → Node → Node
make_path offset done [] c = c
make_path offset done (k ∷ ks) c =
    at_sibling k (λ i. i) (make_path offset (done ++ k ∷ []) ks)
      (ensure_child (intermediate offset (done ++ k ∷ [])) k c)

-- Whether TnmOidToStr, which the loop calls for each node that it makes, stays inside its buffer.
unfoldable pub labels_fit : List ℕ → List ℕ → Node → Bool
labels_fit done [] c = true
labels_fit done (k ∷ ks) c = elim (is_null (find_sibling k c)) [
  | false ↦ labels_fit (done ++ k ∷ []) ks (child (find_sibling k c))
  | true ↦ elim (oid_to_str (done ++ k ∷ [])) [
    | none ↦ false
    | some s ↦ labels_fit (done ++ k ∷ []) ks null
  ]
]

abbrev pub path_fits : List ℕ → Node → Bool
path_fits [] t = true
path_fits (k ∷ ks) t = if k == 1 then labels_fit (1 ∷ []) ks (child t) else true

-- The node that stands for `1`, if there is none yet.
unfoldable pub with_root : Node → Node
with_root null = node (record no_instance { label = some (b'1' ∷ []) }) 1 null null
with_root t = t

abbrev pub under : (Node → Node) → Node → Node
under f null = null
under f (node i s c n) = node i s (f c) n

-- The fields that AddNode assigns.
abbrev pub assigned : List ℕ → ℕ → ℕ → ℕ → Option (List ℕ) → Instance → Instance
assigned label offset syntax access var i = record i {
  label = some label;
  offset = offset;
  syntax = syntax;
  access = access;
  tcl_var = var;
}

-- AddNode for a converted identifier: the tree, and the path of the node that it returns.
unfoldable pub add_oid : List ℕ → ℕ → (Instance → Instance) → Node → Node × Option (List ℕ)
add_oid [] offset f t = (with_root t, none)
add_oid (k ∷ ks) offset f t = elim (k == 1) [
  | true ↦ (under (λ c. at_path f ks (make_path offset (1 ∷ []) ks c)) (with_root t), some (k ∷ ks))
  | false ↦ (with_root t, none)
]

-- AddNode, and `none` when TnmStrToOid returns NULL, which AddNode reads through, or when
-- TnmOidToStr writes behind the end of its static buffer.
unfoldable pub add_node :
    List ℕ → ℕ → ℕ → ℕ → Option (List ℕ) → Node → Option (Node × Option (List ℕ))
add_node soid offset syntax access var t = elim (str_to_oid soid) [
  | none ↦ none
  | some (oid, len) ↦ elim (path_fits (take len oid) t) [
    | false ↦ none
    | true ↦ some (add_oid (take len oid) offset (assigned soid offset syntax access var) t)
  ]
]

-- `q->tclVarName && (strcmp(q->tclVarName, varName) == 0)`
unfoldable pub has_var : List ℕ → Instance → Bool
has_var name i = elim i.tcl_var [ none ↦ false | some var ↦ same_text var name ]

-- The first child is unlinked if it has the variable.
unfoldable pub unlink_head : List ℕ → Node → Node
unlink_head name null = null
unlink_head name (node i s c n) = if has_var name i then n else node i s c n

-- RemoveNode. The loop goes on behind a sibling that it unlinks.
unfoldable pub remove_node : List ℕ → Node → Node
remove_node name null = null
remove_node name (node i s c null) = node i s (unlink_head name (remove_node name c)) null
remove_node name (node i s c (node j t d m)) = elim (has_var name j) [
  | true ↦ node i s (unlink_head name (remove_node name c)) (remove_node name m)
  | false ↦ node i s (unlink_head name (remove_node name c)) (remove_node name (node j t d m))
]
