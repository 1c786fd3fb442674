-- ===== src/Snmp/Inst/Add/Fits.antt =====
-- The texts that AddNode of tnm/snmp/tnmSnmpInst.c makes for its intermediate nodes.
use tkined_remix.Prelude.{
  ℕ, ◌*◌, ◌≤◌, List, [], ◌∷◌, ◌++◌, true, Option, none, some, ◌≡◌, refl, sym, ap, ◌∙◌, arith, leb,
  leb→le, le→leb, Bool-cases, inl, inr, length, length-append, append_assoc,
}
use mathlib.Core.Path.{subst}
use tkined_remix.Ber.Oid.{max_size}
use tkined_remix.Snmp.OidText.{subid_text, subids_text, drop_last, oid_to_str}
use tkined_remix.Snmp.Inst.{Node, null, child, find_sibling, is_null, labels_fit}

subids_text-append : (p q : List ℕ) → subids_text (p ++ q) ≡ subids_text p ++ subids_text q
unfolding subids_text
subids_text-append [] q = refl
subids_text-append (e ∷ p) q =
    ap (λ t. subid_text e ++ (b'.' ∷ t)) (subids_text-append p q)
    ∙ sym (append_assoc (subid_text e) (b'.' ∷ subids_text p) (subids_text q))

length-oid_to_str :
    (oid text : List ℕ) → oid_to_str oid ≡ some text → length (subids_text oid) ≤ max_size * 8
unfolding oid_to_str
length-oid_to_str oid text e = elim (Bool-cases (leb (length (subids_text oid)) (max_size * 8))) [
  | inl y ↦ leb→le _ _ y
  | inr n ↦ absurd (let z : ◌≡◌ {A = Option (List ℕ)} none (some text) = ground arith in cc)
]

-- With the text of an identifier, the one of each of its prefixes fits.
oid_to_str-append :
    (p q text : List ℕ)
    → oid_to_str (p ++ q) ≡ some text
    → oid_to_str p ≡ some (drop_last (subids_text p))
unfolding oid_to_str
oid_to_str-append p q text e =
    let whole : length (subids_text p ++ subids_text q) ≤ max_size * 8 =
      subst (λ t. length t ≤ max_size * 8) (subids_text-append p q)
        (length-oid_to_str (p ++ q) text e) in
    let part : length (subids_text p) ≤ max_size * 8 =
      omega (arith, whole, length-append (subids_text p) (subids_text q)) in
    rw (le→leb _ _ part) refl

-- Where the text of the whole path fits, none of the texts on the way overruns the buffer.
pub labels_fit-oid_to_str :
    (path ks : List ℕ) (c : Node) (text : List ℕ)
    → oid_to_str (path ++ ks) ≡ some text
    → labels_fit path ks c ≡ true
unfolding labels_fit
labels_fit-oid_to_str path [] c text e = refl
labels_fit-oid_to_str path (k ∷ ks) c text e =
    let whole : oid_to_str ((path ++ k ∷ []) ++ ks) ≡ some text =
      ap oid_to_str (append_assoc path (k ∷ []) ks) ∙ e in
    elim (Bool-cases (is_null (find_sibling k c))) [
      | inl y ↦
          rw (y, labels_fit, oid_to_str-append (path ++ k ∷ []) ks text whole)
            (labels_fit-oid_to_str (path ++ k ∷ []) ks null text whole)
      | inr n ↦
          rw (n, labels_fit)
            (labels_fit-oid_to_str (path ++ k ∷ []) ks (child (find_sibling k c)) text whole)
    ]
