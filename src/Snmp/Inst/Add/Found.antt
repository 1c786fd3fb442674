-- ===== src/Snmp/Inst/Add/Found.antt =====
-- What FindNode of tnm/snmp/tnmSnmpInst.c finds after AddNode.
use tkined_remix.Prelude.{
  ℕ, List, [], ◌∷◌, Option, none, some, ◌≡◌, ◌≢◌, refl, sym, ap, ◌∙◌, arith, ◌==◌, Bool-cases, inl,
  inr, ==→eq, eq→==,
}
use mathlib.Core.Path.{ap₂, subst}
use tkined_remix.Snmp.Inst.{Node, null, node, Instance, child, find_sibling, at_sibling, at_path}
use tkined_remix.Snmp.Inst.Find.{find_below}
use tkined_remix.Snmp.Inst.Add.Lookup.{
  content, look, content-find_sibling, changed, look-at_sibling_self, look-at_sibling_ne,
}

-- The fields of the node that a pointer leads to.
abbrev pub fields_of : Node → Option Instance
fields_of null = none
fields_of (node i s c n) = some i

abbrev pub fields_in : Option (Instance × Node) → Option Instance
fields_in none = none
fields_in (some (i, d)) = some i

abbrev pub child_in : Option (Instance × Node) → Node
child_in none = null
child_in (some (i, d)) = d

-- The fields of the node at a path.
abbrev pub get : List ℕ → Node → Option Instance
get [] c = none
get (k ∷ []) c = fields_in (look k c)
get (k ∷ l ∷ ks) c = get (l ∷ ks) (child_in (look k c))

pub get-null : (p : List ℕ) → get p null ≡ none
get-null [] = refl
get-null (k ∷ []) = refl
get-null (k ∷ l ∷ ks) = get-null (l ∷ ks)

fields_of-content : (q : Node) → fields_of q ≡ fields_in (content q)
fields_of-content null = refl
fields_of-content (node i s c n) = refl

child-content : (q : Node) → child q ≡ child_in (content q)
child-content null = refl
child-content (node i s c n) = refl

pub find_below-get : (p : List ℕ) (c : Node) → fields_of (find_below p c) ≡ get p c
find_below-get [] c = refl
find_below-get (k ∷ []) c =
    fields_of-content (find_sibling k c) ∙ ap fields_in (content-find_sibling k c)
find_below-get (k ∷ l ∷ ks) c =
    find_below-get (l ∷ ks) (child (find_sibling k c))
    ∙ ap (get (l ∷ ks)) (child-content (find_sibling k c) ∙ ap child_in (content-find_sibling k c))

abbrev pub mapped : (Instance → Instance) → Option Instance → Option Instance
mapped f none = none
mapped f (some i) = some (f i)

fields_in-changed :
    (f : Instance → Instance) (g : Node → Node) (x : Option (Instance × Node))
    → fields_in (changed f g x) ≡ mapped f (fields_in x)
fields_in-changed f g none = refl
fields_in-changed f g (some (i, d)) = refl

get-child_in :
    (p : List ℕ) (f h : Instance → Instance) (g : Node → Node) (x : Option (Instance × Node))
    → ((d : Node) → get p (g d) ≡ mapped f (get p d))
    → get p (child_in (changed h g x)) ≡ mapped f (get p (child_in x))
get-child_in p f h g none e = rw (get-null p) refl
get-child_in p f h g (some (i, d)) e = e d

pub get-at_path_self :
    (f : Instance → Instance) (p : List ℕ) (c : Node) → get p (at_path f p c) ≡ mapped f (get p c)
unfolding at_path
get-at_path_self f [] c = refl
get-at_path_self f (k ∷ []) c =
    ap fields_in (look-at_sibling_self k f (λ d. d) c) ∙ fields_in-changed f (λ d. d) (look k c)
get-at_path_self f (k ∷ l ∷ ks) c =
    ap (λ x. get (l ∷ ks) (child_in x)) (look-at_sibling_self k (λ i. i) (at_path f (l ∷ ks)) c)
    ∙ get-child_in (l ∷ ks) f (λ i. i) (at_path f (l ∷ ks)) (look k c) (get-at_path_self f (l ∷ ks))

mapped-same : (x : Option Instance) → mapped (λ i. i) x ≡ x
mapped-same none = refl
mapped-same (some i) = refl

-- A change at one subid, seen from a path.
get-at_sibling_ne :
    (k j : ℕ) (f : Instance → Instance) (g : Node → Node) (js : List ℕ) (c : Node)
    → j ≢ k
    → get (j ∷ js) (at_sibling k f g c) ≡ get (j ∷ js) c
get-at_sibling_ne k j f g [] c d = ap fields_in (look-at_sibling_ne k j f g c d)
get-at_sibling_ne k j f g (l ∷ ls) c d =
    ap (λ x. get (l ∷ ls) (child_in x)) (look-at_sibling_ne k j f g c d)

get-at_sibling_child :
    (k : ℕ) (f : Instance → Instance) (g : Node → Node) (l : ℕ) (ls : List ℕ) (c : Node)
    → ((d : Node) → get (l ∷ ls) (g d) ≡ get (l ∷ ls) d)
    → get (k ∷ l ∷ ls) (at_sibling k f g c) ≡ get (k ∷ l ∷ ls) c
get-at_sibling_child k f g l ls c e =
    ap (λ x. get (l ∷ ls) (child_in x)) (look-at_sibling_self k f g c)
    ∙ get-child_in (l ∷ ls) (λ i. i) f g (look k c) (λ d. e d ∙ sym (mapped-same _))
    ∙ mapped-same _

get-at_sibling :
    (k j : ℕ) (f : Instance → Instance) (g : Node → Node) (js : List ℕ) (c : Node)
    → (j ≡ k → get (k ∷ js) (at_sibling k f g c) ≡ get (k ∷ js) c)
    → get (j ∷ js) (at_sibling k f g c) ≡ get (j ∷ js) c
get-at_sibling k j f g js c h = elim (Bool-cases (j == k)) [
  | inl q ↦
      let e = ==→eq j k q in
      subst (λ x. get (x ∷ js) (at_sibling k f g c) ≡ get (x ∷ js) c) (sym e) (h e)
  | inr q ↦ get-at_sibling_ne k j f g js c (λ e. ground (arith, eq→== j k e))
]

pub get-at_path_ne :
    (f : Instance → Instance) (p q : List ℕ) (c : Node) → q ≢ p → get q (at_path f p c) ≡ get q c
unfolding at_path
get-at_path_ne f [] q c n = refl
get-at_path_ne f (k ∷ []) [] c n = refl
get-at_path_ne f (k ∷ l ∷ ks) [] c n = refl
get-at_path_ne f (k ∷ []) (j ∷ []) c n =
    get-at_sibling k j f (λ d. d) [] c (λ e. absurd (n (ap (λ x. x ∷ []) e)))
get-at_path_ne f (k ∷ []) (j ∷ m ∷ ms) c n =
    get-at_sibling k j f (λ d. d) (m ∷ ms) c
      (λ e. get-at_sibling_child k f (λ d. d) m ms c (λ d. refl))
get-at_path_ne f (k ∷ l ∷ ks) (j ∷ []) c n =
    get-at_sibling k j (λ i. i) (at_path f (l ∷ ks)) [] c
      (λ e.
        ap fields_in (look-at_sibling_self k (λ i. i) (at_path f (l ∷ ks)) c)
        ∙ fields_in-changed (λ i. i) (at_path f (l ∷ ks)) (look k c)
        ∙ mapped-same _)
get-at_path_ne f (k ∷ l ∷ ks) (j ∷ m ∷ ms) c n =
    get-at_sibling k j (λ i. i) (at_path f (l ∷ ks)) (m ∷ ms) c
      (λ e.
        get-at_sibling_child k (λ i. i) (at_path f (l ∷ ks)) m ms c
          (λ d. get-at_path_ne f (l ∷ ks) (m ∷ ms) d (λ x. n (ap₂ (λ a b. a ∷ b) e x))))
