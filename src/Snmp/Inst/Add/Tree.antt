-- ===== src/Snmp/Inst/Add/Tree.antt =====
-- AddNode of tnm/snmp/tnmSnmpInst.c on the whole tree, seen by FindNode.
use tkined_remix.Prelude.{
  ℕ, List, [], ◌∷◌, Option, none, some, ◌≡◌, ◌≢◌, ◌⊎◌, refl, sym, ap, ◌∙◌, inl, inr, ◌++◌, take,
}
use tkined_remix.Snmp.Inst.{
  Node, null, node, Instance, find_node, at_path, make_path, with_root, add_oid, intermediate,
  assigned, add_node, child,
}
use tkined_remix.Snmp.OidText.{str_to_oid, oid_to_str}
use tkined_remix.Snmp.Inst.Order.{IsTree}
use tkined_remix.Snmp.Inst.Add.{add_oid-IsTree}
use tkined_remix.Snmp.Inst.Add.Fits.{labels_fit-oid_to_str}
use tkined_remix.Snmp.Inst.Find.{walk-below}
use tkined_remix.Snmp.Inst.Add.Found.{
  fields_of, get, find_below-get, mapped, get-at_path_self, get-at_path_ne,
}
use tkined_remix.Snmp.Inst.Add.Path.{or_new, get-make_path_self, make_path-IsKept}

-- The children of the root.
abbrev pub level : Node → Node
level null = null
level (node i s c n) = c

pub fields-find_node :
    (t : Node) (k : ℕ) (ks : List ℕ) → fields_of (find_node t (1 ∷ k ∷ ks)) ≡ get (k ∷ ks) (level t)
unfolding find_node
fields-find_node null k ks = ap fields_of (walk-below k ks null null) ∙ find_below-get (k ∷ ks) null
fields-find_node (node i s c n) k ks =
    ap fields_of (walk-below k ks (node i s c n) null) ∙ find_below-get (k ∷ ks) c

level-add_oid :
    (ks : List ℕ) (offset : ℕ) (f : Instance → Instance) (t : Node)
    → level (add_oid (1 ∷ ks) offset f t).0 ≡ at_path f ks (make_path offset (1 ∷ []) ks (level t))
unfolding add_oid with_root
level-add_oid ks offset f null = refl
level-add_oid ks offset f (node i s c n) = refl

-- What may stand at another identifier after add_oid: what stood there, or an intermediate node
-- without a syntax, if the other identifier is on the way.
abbrev pub IsUntouched : ℕ → List ℕ → List ℕ → Node → Node → Type 0
IsUntouched offset oid other t u =
    (fields_of (find_node u other) ≡ fields_of (find_node t other))
    ⊎ (fields_of (find_node t other) ≡ none)
      × (fields_of (find_node u other) ≡ some (intermediate offset other))
      × ((rest : List ℕ) × (oid ≡ other ++ rest))

add_oid-found :
    (k : ℕ) (ks : List ℕ) (offset : ℕ) (f : Instance → Instance) (t : Node)
    → fields_of (find_node (add_oid (1 ∷ k ∷ ks) offset f t).0 (1 ∷ k ∷ ks))
      ≡ some (f (or_new (intermediate offset (1 ∷ k ∷ ks)) (fields_of (find_node t (1 ∷ k ∷ ks)))))
add_oid-found k ks offset f t =
    fields-find_node (add_oid (1 ∷ k ∷ ks) offset f t).0 k ks
    ∙ ap (get (k ∷ ks)) (level-add_oid (k ∷ ks) offset f t)
    ∙ get-at_path_self f (k ∷ ks) (make_path offset (1 ∷ []) (k ∷ ks) (level t))
    ∙ ap (mapped f) (get-make_path_self offset (1 ∷ []) k ks (level t))
    ∙ ap (λ x. some (f (or_new (intermediate offset (1 ∷ k ∷ ks)) x)))
        (sym (fields-find_node t k ks))

add_oid-IsUntouched :
    (k : ℕ) (ks : List ℕ) (j : ℕ) (js : List ℕ) (offset : ℕ) (f : Instance → Instance) (t : Node)
    → (j ∷ js) ≢ (k ∷ ks)
    → IsUntouched offset (1 ∷ k ∷ ks) (1 ∷ j ∷ js) t (add_oid (1 ∷ k ∷ ks) offset f t).0
add_oid-IsUntouched k ks j js offset f t d =
    elim (make_path-IsKept offset (1 ∷ []) (k ∷ ks) (j ∷ js) (level t)) [
      | inl e ↦ inl (after ∙ e ∙ sym (fields-find_node t j js))
      | inr (e, g, (rest, h)) ↦
          inr (fields-find_node t j js ∙ e, after ∙ g, (rest, ap (λ x. 1 ∷ x) h))
    ]
  where
    after :
        fields_of (find_node (add_oid (1 ∷ k ∷ ks) offset f t).0 (1 ∷ j ∷ js))
        ≡ get (j ∷ js) (make_path offset (1 ∷ []) (k ∷ ks) (level t))
    after =
        fields-find_node (add_oid (1 ∷ k ∷ ks) offset f t).0 j js
        ∙ ap (get (j ∷ js)) (level-add_oid (k ∷ ks) offset f t)
        ∙ get-at_path_ne f (k ∷ ks) (j ∷ js) (make_path offset (1 ∷ []) (k ∷ ks) (level t)) d

-- For a text that TnmStrToOid converts to an identifier of two sub-identifiers or more that begins
-- with 1, and whose own text fits the buffer of TnmOidToStr, add_node returns the node at it and
-- keeps the tree in order. find_node then finds that node: the one that was there, or a new one,
-- with the fields assigned. At every other such identifier it finds what it found before, or, on
-- the way, an intermediate node without a syntax.
pub add_node-find_node :
    (soid : List ℕ) (offset syntax access : ℕ) (var : Option (List ℕ)) (t : Node) (oid : List ℕ)
    (len k : ℕ) (ks text : List ℕ)
    → str_to_oid soid ≡ some (oid, len)
    → take len oid ≡ 1 ∷ k ∷ ks
    → oid_to_str (1 ∷ k ∷ ks) ≡ some text
    → IsTree t
    → (u : Node) × (add_node soid offset syntax access var t ≡ some (u, some (1 ∷ k ∷ ks)))
      × IsTree u
      × (fields_of (find_node u (1 ∷ k ∷ ks))
          ≡ some (
              assigned soid offset syntax access var
                (or_new (intermediate offset (1 ∷ k ∷ ks)) (fields_of (find_node t (1 ∷ k ∷ ks))))))
      × ((j : ℕ) (js : List ℕ)
          → (j ∷ js) ≢ (k ∷ ks)
          → IsUntouched offset (1 ∷ k ∷ ks) (1 ∷ j ∷ js) t u)
unfolding add_node add_oid
add_node-find_node soid offset syntax access var t oid len k ks text e h fits o = (
  (add_oid (1 ∷ k ∷ ks) offset f t).0,
  rw (e, add_node, h, labels_fit-oid_to_str (1 ∷ []) (k ∷ ks) (child t) text fits) (rw h refl),
  (add_oid-IsTree (1 ∷ k ∷ ks) offset f t o).0,
  add_oid-found k ks offset f t,
  λ j js d. add_oid-IsUntouched k ks j js offset f t d,
)
  where
    f : Instance → Instance
    f = assigned soid offset syntax access var
