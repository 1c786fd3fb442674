-- ===== src/Snmp/Inst/Bindings/ReadBack.antt =====
-- A binding of tnm/snmp/tnmSnmpInst.c is read back as it was set, and no other one is touched.
use tkined_remix.Prelude.{
  ℕ, List, [], ◌∷◌, true, false, Option, none, some, ◌≡◌, ◌≢◌, ◌⊎◌, refl, sym, ap, ◌∙◌, arith, inl,
  inr, take,
}
use native.Mathlib.Decide.{ℕ_discrete}
use tkined_remix.Snmp.OidText.{str_to_oid, oid_to_str}
use tkined_remix.Snmp.OidObj.{TnmOid, subids, to_string}
use tkined_remix.Snmp.Inst.{
  Binding, Instance, Node, null, node, find_node, at_path, at_sibling, intermediate, assigned,
  is_null,
}
use tkined_remix.Snmp.Inst.Order.{IsTree}
use tkined_remix.Snmp.Inst.Add.{at_path-IsSorted}
use tkined_remix.Snmp.Inst.Add.Found.{fields_of, get, mapped, get-at_path_self, get-at_path_ne}
use tkined_remix.Snmp.Inst.Add.Path.{or_new}
use tkined_remix.Snmp.Inst.Add.Tree.{level, fields-find_node, IsUntouched, add_node-find_node}
use tkined_remix.Snmp.Inst.Bindings.{
  has_event, command_of, stored, overwrite, bind, bound, at_oid, set_node_binding, binding_of,
  get_node_binding,
}

command_of-overwrite_self :
    (e : ℕ) (c : List ℕ) (bs : List Binding)
    → has_event e bs ≡ true
    → command_of e (overwrite e c bs) ≡ stored c
unfolding command_of overwrite has_event
command_of-overwrite_self e c [] h = absurd cc
command_of-overwrite_self e c (b ∷ bs) h = ground (arith, command_of-overwrite_self e c bs)

command_of-overwrite_ne :
    (e d : ℕ) (c : List ℕ) (bs : List Binding)
    → d ≢ e
    → command_of d (overwrite e c bs) ≡ command_of d bs
unfolding command_of overwrite
command_of-overwrite_ne e d c [] n = refl
command_of-overwrite_ne e d c (b ∷ bs) n = ground (arith, command_of-overwrite_ne e d c bs n)

command_of-bind_self :
    (e : ℕ) (c : List ℕ) (bs : List Binding) → command_of e (bind e (some c) bs) ≡ stored c
unfolding bind command_of
command_of-bind_self e c bs = ground (arith, command_of-overwrite_self e c bs)

command_of-bind_ne :
    (e d : ℕ) (c : Option (List ℕ)) (bs : List Binding)
    → d ≢ e
    → command_of d (bind e c bs) ≡ command_of d bs
unfolding bind command_of
command_of-bind_ne e d none bs n = refl
command_of-bind_ne e d (some c) bs n = ground (arith, command_of-overwrite_ne e d c bs n)

binding_in : ℕ → Option Instance → Option (List ℕ)
binding_in event none = none
binding_in event (some i) = command_of event i.bindings

binding_of-fields : (e : ℕ) (q : Node) → binding_of e q ≡ binding_in e (fields_of q)
unfolding binding_in
binding_of-fields e null = refl
binding_of-fields e (node i s c n) = refl

level-at_oid :
    (f : Instance → Instance) (k : ℕ) (ks : List ℕ) (t : Node)
    → level (at_oid f (1 ∷ k ∷ ks) t) ≡ at_path f (k ∷ ks) (level t)
unfolding at_oid at_path at_sibling
level-at_oid f k [] null = refl
level-at_oid f k (l ∷ ls) null = refl
level-at_oid f k ks (node i s c n) = refl

module _ (f : Instance → Instance) (k : ℕ) (ks : List ℕ) (t : Node) where
  fields-at_oid_self :
      fields_of (find_node (at_oid f (1 ∷ k ∷ ks) t) (1 ∷ k ∷ ks))
      ≡ mapped f (fields_of (find_node t (1 ∷ k ∷ ks)))
  fields-at_oid_self =
      fields-find_node (at_oid f (1 ∷ k ∷ ks) t) k ks
      ∙ ap (get (k ∷ ks)) (level-at_oid f k ks t)
      ∙ get-at_path_self f (k ∷ ks) (level t)
      ∙ ap (mapped f) (sym (fields-find_node t k ks))

  fields-at_oid_ne :
      (j : ℕ) (js : List ℕ)
      → (j ∷ js) ≢ (k ∷ ks)
      → fields_of (find_node (at_oid f (1 ∷ k ∷ ks) t) (1 ∷ j ∷ js))
        ≡ fields_of (find_node t (1 ∷ j ∷ js))
  fields-at_oid_ne j js d =
      fields-find_node (at_oid f (1 ∷ k ∷ ks) t) j js
      ∙ ap (get (j ∷ js)) (level-at_oid f k ks t)
      ∙ get-at_path_ne f (k ∷ ks) (j ∷ js) (level t) d
      ∙ sym (fields-find_node t j js)

at_oid-IsTree :
    (f : Instance → Instance) (k : ℕ) (ks : List ℕ) (t : Node)
    → IsTree t
    → IsTree (at_oid f (1 ∷ k ∷ ks) t)
unfolding at_oid
at_oid-IsTree f k ks null o = tt
at_oid-IsTree f k ks (node i s c n) o = (o.0, o.1, at_path-IsSorted f (k ∷ ks) c o.2)

-- A binding of one event at one identifier is set, and every other one is as it was.
abbrev pub IsRebound : ℕ → List ℕ → ℕ → List ℕ → Node → Node → Type 0
IsRebound k ks event command t u =
    (get_node_binding (1 ∷ k ∷ ks) event u ≡ stored command)
    × ((d : ℕ) → d ≢ event → get_node_binding (1 ∷ k ∷ ks) d u ≡ get_node_binding (1 ∷ k ∷ ks) d t)
    × ((j : ℕ) (js : List ℕ) (d : ℕ)
        → (j ∷ js) ≢ (k ∷ ks)
        → get_node_binding (1 ∷ j ∷ js) d u ≡ get_node_binding (1 ∷ j ∷ js) d t)

get_node_binding-fields :
    (p : List ℕ) (d : ℕ) (t : Node)
    → get_node_binding p d t ≡ binding_in d (fields_of (find_node t p))
unfolding get_node_binding
get_node_binding-fields p d t = binding_of-fields d (find_node t p)

-- Binding at a node that is there, in a tree that has the bindings of another one.
at_oid-IsRebound :
    (k : ℕ) (ks : List ℕ) (event : ℕ) (command : List ℕ) (t u : Node) (i : Instance)
    → fields_of (find_node u (1 ∷ k ∷ ks)) ≡ some i
    → ((j : ℕ) (js : List ℕ) (d : ℕ)
        → get_node_binding (1 ∷ j ∷ js) d u ≡ get_node_binding (1 ∷ j ∷ js) d t)
    → IsRebound k ks event command t (at_oid (bound event (some command)) (1 ∷ k ∷ ks) u)
unfolding binding_in
at_oid-IsRebound k ks event command t u i e same = (
  found event ∙ command_of-bind_self event command i.bindings,
  λ d n.
      found d
      ∙ command_of-bind_ne event d (some command) i.bindings n
      ∙ sym (get_node_binding-fields (1 ∷ k ∷ ks) d u ∙ ap (binding_in d) e)
      ∙ same k ks d,
  λ j js d n.
      get_node_binding-fields (1 ∷ j ∷ js) d _
      ∙ ap (binding_in d) (fields-at_oid_ne (bound event (some command)) k ks u j js n)
      ∙ sym (get_node_binding-fields (1 ∷ j ∷ js) d u)
      ∙ same j js d,
)
  where
    found :
        (d : ℕ)
        → get_node_binding (1 ∷ k ∷ ks) d (at_oid (bound event (some command)) (1 ∷ k ∷ ks) u)
          ≡ command_of d (bind event (some command) i.bindings)
    found d =
        get_node_binding-fields (1 ∷ k ∷ ks) d _
        ∙ ap (binding_in d) (
            fields-at_oid_self (bound event (some command)) k ks u
            ∙ ap (mapped (bound event (some command))) e)

null_cases :
    (q : Node)
    → (is_null q ≡ true) ⊎ ((i : Instance) × (is_null q ≡ false) × (fields_of q ≡ some i))
null_cases null = inl refl
null_cases (node i s c n) = inr (i, refl, refl)

texts_discrete : Discrete (List ℕ)
texts_discrete = hlevel (ℕ_discrete)

reassigned :
    (d : ℕ) (soid : List ℕ) (f : Instance) (x : Option Instance)
    → f.bindings ≡ []
    → binding_in d (some (assigned soid 0 0 0 none (or_new f x))) ≡ binding_in d x
unfolding binding_in command_of
reassigned d soid f none e = ap (command_of d) e
reassigned d soid f (some i) e = refl

no_binding : (d : ℕ) (oid : List ℕ) → binding_in d (some (intermediate 0 oid)) ≡ binding_in d none
unfolding binding_in command_of
no_binding d oid = refl

-- What add_node leaves of the bindings: all of them, since new nodes have none.
kept_bindings :
    (k : ℕ) (ks : List ℕ) (soid : List ℕ) (t u : Node)
    → (fields_of (find_node u (1 ∷ k ∷ ks))
        ≡ some (
            assigned soid 0 0 0 none
              (or_new (intermediate 0 (1 ∷ k ∷ ks)) (fields_of (find_node t (1 ∷ k ∷ ks))))))
    → ((j : ℕ) (js : List ℕ) → (j ∷ js) ≢ (k ∷ ks) → IsUntouched 0 (1 ∷ k ∷ ks) (1 ∷ j ∷ js) t u)
    → (j : ℕ) (js : List ℕ) (d : ℕ)
    → get_node_binding (1 ∷ j ∷ js) d u ≡ get_node_binding (1 ∷ j ∷ js) d t
kept_bindings k ks soid t u e h j js d =
    get_node_binding-fields (1 ∷ j ∷ js) d u
    ∙ elim (texts_discrete (j ∷ js) (k ∷ ks)) [
      | yes q ↦
          ap (λ p. binding_in d (fields_of (find_node u (1 ∷ p)))) q
          ∙ ap (binding_in d) e
          ∙ reassigned d soid (intermediate 0 (1 ∷ k ∷ ks)) (fields_of (find_node t (1 ∷ k ∷ ks)))
              refl
          ∙ ap (λ p. binding_in d (fields_of (find_node t (1 ∷ p)))) (sym q)
      | no n ↦ elim (h j js n) [
        | inl same ↦ ap (binding_in d) same
        | inr (gone, new, way) ↦
            ap (binding_in d) new ∙ no_binding d (1 ∷ j ∷ js) ∙ sym (ap (binding_in d) gone)
      ]
    ]
    ∙ sym (get_node_binding-fields (1 ∷ j ∷ js) d t)

text_fits :
    (oid : TnmOid) (soid p : List ℕ)
    → subids oid ≡ p
    → to_string oid ≡ some soid
    → oid_to_str p ≡ some soid
unfolding to_string
text_fits oid soid p a b = ap oid_to_str (sym a) ∙ b

-- For an identifier of two sub-identifiers or more that begins with 1, whose text TnmStrToOid reads
-- as the same identifier, set_node_binding in a tree that is sorted returns TCL_OK and keeps the
-- tree sorted, whether or not there was a node. get_node_binding then returns the command for the
-- event, NULL if it is empty; every other event at the identifier, and every event at another such
-- identifier, has the command that it had.
pub set_node_binding-IsRebound :
    (oid : TnmOid) (event : ℕ) (command : List ℕ) (t : Node) (soid elements : List ℕ) (len k : ℕ)
    (ks : List ℕ)
    → subids oid ≡ 1 ∷ k ∷ ks
    → to_string oid ≡ some soid
    → str_to_oid soid ≡ some (elements, len)
    → take len elements ≡ 1 ∷ k ∷ ks
    → IsTree t
    → (u : Node) × (set_node_binding oid event (some command) t ≡ some (u, true))
      × IsTree u
      × IsRebound k ks event command t u
unfolding set_node_binding
set_node_binding-IsRebound oid event command t soid elements len k ks a b c d o =
    elim (null_cases (find_node t (1 ∷ k ∷ ks))) [
      | inl e ↦
          let (u, f, tree, found, others) =
            add_node-find_node soid 0 0 0 none t elements len k ks soid c d
              (text_fits oid soid (1 ∷ k ∷ ks) a b) o in
          (
            at_oid (bound event (some command)) (1 ∷ k ∷ ks) u,
            rw (a, set_node_binding, e, b, f) refl,
            at_oid-IsTree (bound event (some command)) k ks u tree,
            at_oid-IsRebound k ks event command t u _ found
                (kept_bindings k ks soid t u found others),
          )
      | inr (i, e, f) ↦ (
        at_oid (bound event (some command)) (1 ∷ k ∷ ks) t,
        rw (a, set_node_binding, e)
            (ap (λ p. some (at_oid (bound event (some command)) p t, true)) a),
        at_oid-IsTree (bound event (some command)) k ks t o,
        at_oid-IsRebound k ks event command t t i f (λ j js d. refl),
      )
    ]
