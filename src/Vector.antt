-- ===== src/Vector.antt =====
-- The vectors of tnm/generic/tnmUtil.c: struct TnmVector of tnm/generic/tnmInt.h, TnmVectorInit,
-- TnmVectorFree, TnmVectorAdd and TnmVectorDelete. An element is a pointer, that is, a number;
-- `elements` is the memory that the field of this name leads to, static or allocated.
pub mod Contents
mod Tests
use tkined_remix.Prelude.{
  ℕ, zero, suc, ◌+◌, List, [], ◌∷◌, Bool, true, false, Option, none, some, ltb, ◌-◌, ◌==◌,
  if◌then◌else◌, length, set,
}
use tkined_remix.Snmp.OidText.{cleared, put_front}

-- TNM_VECTOR_STATIC_SIZE
abbrev pub vector_static_size : ℕ
vector_static_size = 8

pub record TnmVector : Type 0 where
  pub elements : List ℕ
  pub size : ℕ
  pub space_avl : ℕ

-- TnmVectorInit, and what TnmVectorFree leaves.
abbrev pub empty_vector : TnmVector
empty_vector = record {
  elements = cleared (vector_static_size + 1);
  size = 0;
  space_avl = vector_static_size;
}

-- `dynamicSpace[i] = vPtr->elements[i]` for the first elements, in cleared memory.
unfoldable pub copy_elements : ℕ → ℕ → List ℕ → List ℕ
copy_elements zero n es = []
copy_elements (suc room) zero es = 0 ∷ copy_elements room zero es
copy_elements (suc room) (suc n) [] = 0 ∷ copy_elements room n []
copy_elements (suc room) (suc n) (e ∷ es) = e ∷ copy_elements room n es

unfoldable pub grown : TnmVector → TnmVector
grown v = elim (v.size == v.space_avl) [
  | true ↦
      let space = v.space_avl + vector_static_size in
      record v { elements = copy_elements (space + 1) v.size v.elements; space_avl = space }
  | false ↦ v
]

-- `none` is a store behind the memory.
unfoldable pub vector_add : TnmVector → ℕ → Option TnmVector
vector_add v x =
    let g = grown v in
    if ltb g.size (length g.elements)
    then some (record g { elements = set g.elements g.size x; size = g.size + 1 })
    else none

-- `vPtr->elements[i] = vPtr->elements[i+1];` for n elements from the first of the list on; a read
-- behind the memory gives none.
unfoldable pub shift : ℕ → List ℕ → Option (List ℕ)
shift zero es = some es
shift (suc n) [] = none
shift (suc n) (a ∷ []) = none
shift (suc n) (a ∷ b ∷ es) = put_front b (shift n (b ∷ es))

-- The two loops of TnmVectorDelete: the first n elements of the list are searched, and the result
-- holds the memory if one was found.
unfoldable pub delete_loop : ℕ → ℕ → List ℕ → Option (Bool × List ℕ)
delete_loop x zero es = some (false, es)
delete_loop x (suc n) [] = none
delete_loop x (suc n) (e ∷ es) = elim (e == x) [
  | true ↦ elim (shift (suc n) (e ∷ es)) [ none ↦ none | some moved ↦ some (true, moved) ]
  | false ↦ elim (delete_loop x n es) [ none ↦ none | some (found, rest) ↦ some (found, e ∷ rest) ]
]

unfoldable pub vector_delete : TnmVector → ℕ → Option TnmVector
vector_delete v x = elim (delete_loop x v.size v.elements) [
  | none ↦ none
  | some (true, es) ↦ some (record v { elements = es; size = v.size - 1 })
  | some (false, es) ↦ some (record v { elements = es })
]
