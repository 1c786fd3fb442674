-- ===== src/Snmp/Inst/Add/Path.antt =====
-- The nodes that the loop of AddNode of tnm/snmp/tnmSnmpInst.c makes.
use tkined_remix.Prelude.{
  ℕ, List, [], ◌∷◌, ◌++◌, append_assoc, Option, none, some, ◌≡◌, ◌≢◌, ◌⊎◌, refl, sym, ap, ◌∙◌,
  arith, ◌==◌, Bool-cases, inl, inr, ==→eq, eq→==,
}
use mathlib.Core.Path.{subst}
use tkined_remix.Snmp.Inst.{Node, Instance, ensure_child, make_path, intermediate}
use tkined_remix.Snmp.Inst.Add.Lookup.{
  look, changed, look-at_sibling_self, look-at_sibling_ne, made, look-ensure_child_self,
  look-ensure_child_ne,
}
use tkined_remix.Snmp.Inst.Add.Found.{fields_in, child_in, get}

module _ (offset : ℕ) (path : List ℕ) (k : ℕ) (ks : List ℕ) (c : Node) where
  abbrev new : Instance
  new = intermediate offset (path ++ k ∷ [])

  look-make_path_self :
      look k (make_path offset path (k ∷ ks) c)
      ≡ some ((made new (look k c)).0, make_path offset (path ++ k ∷ []) ks (made new (look k c)).1)
  unfolding make_path
  look-make_path_self =
      look-at_sibling_self k (λ i. i) (make_path offset (path ++ k ∷ []) ks) (ensure_child new k c)
      ∙ ap (changed (λ i. i) (make_path offset (path ++ k ∷ []) ks))
          (look-ensure_child_self new k c)

  look-make_path_ne : (j : ℕ) → j ≢ k → look j (make_path offset path (k ∷ ks) c) ≡ look j c
  unfolding make_path
  look-make_path_ne j d =
      look-at_sibling_ne k j (λ i. i) (make_path offset (path ++ k ∷ []) ks) (ensure_child new k c)
        d
      ∙ look-ensure_child_ne new k j c d

-- What was found, and otherwise a new node.
abbrev pub or_new : Instance → Option Instance → Instance
or_new f none = f
or_new f (some i) = i

made-fields : (f : Instance) (x : Option (Instance × Node)) → (made f x).0 ≡ or_new f (fields_in x)
made-fields f none = refl
made-fields f (some (i, d)) = refl

get-made :
    (f : Instance) (p : List ℕ) (x : Option (Instance × Node))
    → get p (made f x).1 ≡ get p (child_in x)
get-made f p none = refl
get-made f p (some (i, d)) = refl

pub get-make_path_self :
    (offset : ℕ) (path : List ℕ) (k : ℕ) (ks : List ℕ) (c : Node)
    → get (k ∷ ks) (make_path offset path (k ∷ ks) c)
      ≡ some (or_new (intermediate offset (path ++ k ∷ ks)) (get (k ∷ ks) c))
get-make_path_self offset path k [] c =
    ap fields_in (look-make_path_self offset path k [] c) ∙ ap some (made-fields _ (look k c))
get-make_path_self offset path k (l ∷ ls) c =
    let below = get (l ∷ ls) (made (new offset path k (l ∷ ls) c) (look k c)).1 in
    ap (λ x. get (l ∷ ls) (child_in x)) (look-make_path_self offset path k (l ∷ ls) c)
    ∙ get-make_path_self offset (path ++ k ∷ []) l ls _
    ∙ ap (λ x. some (or_new (intermediate offset x) below)) (append_assoc path (k ∷ []) (l ∷ ls))
    ∙ ap (λ x. some (or_new (intermediate offset (path ++ k ∷ l ∷ ls)) x))
        (get-made (new offset path k (l ∷ ls) c) (l ∷ ls) (look k c))

-- At any path the tree is as before, or there is a new node on the way.
abbrev pub IsKept : ℕ → List ℕ → List ℕ → List ℕ → Node → Node → Type 0
IsKept offset path p q c d =
    (get q d ≡ get q c)
    ⊎ (get q c ≡ none)
      × (get q d ≡ some (intermediate offset (path ++ q)))
      × ((rest : List ℕ) × (p ≡ q ++ rest))

IsKept-fields :
    (f : Instance) (x : Option (Instance × Node))
    → (some (made f x).0 ≡ fields_in x) ⊎ ((fields_in x ≡ none) × (some (made f x).0 ≡ some f))
IsKept-fields f none = inr (refl, refl)
IsKept-fields f (some (i, d)) = inl refl

IsKept-ne :
    (offset : ℕ) (path : List ℕ) (k : ℕ) (ks : List ℕ) (j : ℕ) (js : List ℕ) (c : Node)
    → j ≢ k
    → get (j ∷ js) (make_path offset path (k ∷ ks) c) ≡ get (j ∷ js) c
IsKept-ne offset path k ks j [] c d = ap fields_in (look-make_path_ne offset path k ks c j d)
IsKept-ne offset path k ks j (m ∷ ms) c d =
    ap (λ x. get (m ∷ ms) (child_in x)) (look-make_path_ne offset path k ks c j d)

module _ (offset : ℕ) (path : List ℕ) (k : ℕ) (ks : List ℕ) (c : Node) where
  abbrev made_child : Node
  made_child = (made (new offset path k ks c) (look k c)).1

  IsKept-first : IsKept offset path (k ∷ ks) (k ∷ []) c (make_path offset path (k ∷ ks) c)
  IsKept-first = elim (IsKept-fields (new offset path k ks c) (look k c)) [
    | inl e ↦ inl (ap fields_in (look-make_path_self offset path k ks c) ∙ e)
    | inr (e, f) ↦ inr (e, ap fields_in (look-make_path_self offset path k ks c) ∙ f, (ks, refl))
  ]

  IsKept-below :
      (m : ℕ) (ms : List ℕ)
      → IsKept offset
          (path ++ k ∷ [])
          ks
          (m ∷ ms)
          made_child
          (make_path offset (path ++ k ∷ []) ks made_child)
      → IsKept offset path (k ∷ ks) (k ∷ m ∷ ms) c (make_path offset path (k ∷ ks) c)
  IsKept-below m ms h =
      let found : get (k ∷ m ∷ ms) (make_path offset path (k ∷ ks) c)
          ≡ get (m ∷ ms) (make_path offset (path ++ k ∷ []) ks made_child) =
        ap (λ x. get (m ∷ ms) (child_in x)) (look-make_path_self offset path k ks c) in
      let before : get (m ∷ ms) made_child ≡ get (k ∷ m ∷ ms) c =
        get-made (new offset path k ks c) (m ∷ ms) (look k c) in
      elim h [
        | inl e ↦ inl (found ∙ e ∙ before)
        | inr (e, f, (rest, g)) ↦
            let whole = append_assoc path (k ∷ []) (m ∷ ms) in
            inr (
              sym before ∙ e,
              found ∙ f ∙ ap (λ x. some (intermediate offset x)) whole,
              (rest, ap (λ x. k ∷ x) g),
            )
      ]

make_path-nil : (offset : ℕ) (path : List ℕ) (c : Node) → make_path offset path [] c ≡ c
unfolding make_path
make_path-nil offset path c = refl

IsKept-cons :
    (offset : ℕ) (path : List ℕ) (k : ℕ) (ks : List ℕ) (j : ℕ) (js : List ℕ) (c : Node)
    → IsKept offset path (k ∷ ks) (k ∷ js) c (make_path offset path (k ∷ ks) c)
    → IsKept offset path (k ∷ ks) (j ∷ js) c (make_path offset path (k ∷ ks) c)
IsKept-cons offset path k ks j js c h = elim (Bool-cases (j == k)) [
  | inr q ↦ inl (IsKept-ne offset path k ks j js c (λ e. ground (arith, eq→== j k e)))
  | inl q ↦
      subst (λ x. IsKept offset path (k ∷ ks) (x ∷ js) c (make_path offset path (k ∷ ks) c))
        (sym (==→eq j k q)) h
]

pub make_path-IsKept :
    (offset : ℕ) (path p q : List ℕ) (c : Node)
    → IsKept offset path p q c (make_path offset path p c)
make_path-IsKept offset path [] q c = inl (ap (get q) (make_path-nil offset path c))
make_path-IsKept offset path (k ∷ ks) [] c = inl refl
make_path-IsKept offset path (k ∷ ks) (j ∷ []) c =
    IsKept-cons offset path k ks j [] c (IsKept-first offset path k ks c)
make_path-IsKept offset path (k ∷ ks) (j ∷ m ∷ ms) c =
    IsKept-cons offset path k ks j (m ∷ ms) c (
      IsKept-below offset path k ks c m ms (make_path-IsKept offset (path ++ k ∷ []) ks (m ∷ ms) _))
