-- ===== src/Snmp/Inst/Add/Lookup.antt =====
-- The search among siblings of tnm/snmp/tnmSnmpInst.c after the steps of AddNode.
use tkined_remix.Prelude.{ℕ, Option, none, some, ◌≡◌, ◌≢◌, refl, sym, arith, ◌==◌, if◌then◌else◌}
use tkined_remix.Snmp.Inst.{
  Node, null, node, Instance, is_null, find_sibling, insert_behind, insert_child, ensure_child,
  at_sibling,
}

-- What a pointer leads to, without the siblings behind it.
abbrev pub content : Node → Option (Instance × Node)
content null = none
content (node i s c n) = some (i, c)

-- The node with a subid, without its siblings.
abbrev pub look : ℕ → Node → Option (Instance × Node)
look k null = none
look k (node i s c n) = if s == k then some (i, c) else look k n

pub content-find_sibling : (k : ℕ) (c : Node) → content (find_sibling k c) ≡ look k c
unfolding find_sibling
content-find_sibling k null = refl
content-find_sibling k (node i s c n) = ground (arith, content-find_sibling k n)

abbrev pub changed :
    (Instance → Instance) → (Node → Node) → Option (Instance × Node) → Option (Instance × Node)
changed f g none = none
changed f g (some (i, c)) = some (f i, g c)

pub look-at_sibling_self :
    (k : ℕ) (f : Instance → Instance) (g : Node → Node) (c : Node)
    → look k (at_sibling k f g c) ≡ changed f g (look k c)
unfolding at_sibling
look-at_sibling_self k f g null = refl
look-at_sibling_self k f g (node i s c n) = ground (arith, look-at_sibling_self k f g n)

pub look-at_sibling_ne :
    (k j : ℕ) (f : Instance → Instance) (g : Node → Node) (c : Node)
    → j ≢ k
    → look j (at_sibling k f g c) ≡ look j c
unfolding at_sibling
look-at_sibling_ne k j f g null d = refl
look-at_sibling_ne k j f g (node i s c n) d = ground (arith, look-at_sibling_ne k j f g n d)

look-insert_behind_self :
    (f : Instance) (k : ℕ) (i : Instance) (s : ℕ) (c n : Node)
    → look k (node i s c n) ≡ none
    → look k (insert_behind f k (node i s c n)) ≡ some (f, null)
unfolding insert_behind
look-insert_behind_self f k i s c null e = ground arith
look-insert_behind_self f k i s c (node h t d m) e =
    ground (arith, look-insert_behind_self f k h t d m)

look-insert_behind_ne :
    (f : Instance) (k j : ℕ) (c : Node) → j ≢ k → look j (insert_behind f k c) ≡ look j c
unfolding insert_behind
look-insert_behind_ne f k j null d = ground arith
look-insert_behind_ne f k j (node i s c null) d = ground arith
look-insert_behind_ne f k j (node i s c (node h t e m)) d =
    ground (arith, look-insert_behind_ne f k j (node h t e m) d)

look-insert_child_self :
    (f : Instance) (k : ℕ) (c : Node)
    → look k c ≡ none
    → look k (insert_child f k c) ≡ some (f, null)
unfolding insert_child
look-insert_child_self f k null e = ground arith
look-insert_child_self f k (node i s c n) e = ground (arith, look-insert_behind_self f k i s c n e)

look-insert_child_ne :
    (f : Instance) (k j : ℕ) (c : Node) → j ≢ k → look j (insert_child f k c) ≡ look j c
unfolding insert_child
look-insert_child_ne f k j null d = ground arith
look-insert_child_ne f k j (node i s c n) d =
    ground (arith, look-insert_behind_ne f k j (node i s c n) d)

abbrev pub made : Instance → Option (Instance × Node) → Instance × Node
made f none = (f, null)
made f (some x) = x

pub look-ensure_child_self :
    (f : Instance) (k : ℕ) (c : Node) → look k (ensure_child f k c) ≡ some (made f (look k c))
unfolding ensure_child
look-ensure_child_self f k c = go (find_sibling k c) (content-find_sibling k c)
  where
    go :
        (q : Node)
        → content q ≡ look k c
        → look k (if is_null q then insert_child f k c else c) ≡ some (made f (look k c))
    go null e = rw (← e) (look-insert_child_self f k c (sym e))
    go (node i s d n) e = rw (← e) refl

pub look-ensure_child_ne :
    (f : Instance) (k j : ℕ) (c : Node) → j ≢ k → look j (ensure_child f k c) ≡ look j c
unfolding ensure_child
look-ensure_child_ne f k j c d = go (find_sibling k c)
  where
    go : (q : Node) → look j (if is_null q then insert_child f k c else c) ≡ look j c
    go null = look-insert_child_ne f k j c d
    go (node i s e n) = refl
