-- ===== src/Snmp/OidObj.antt =====
-- Object identifiers with their own memory: struct TnmOid of tnm/snmp/tnmMib.h, and TnmOidInit,
-- TnmOidFree, TnmOidSetLength, TnmOidAppend, TnmOidFromString, TnmOidToString, TnmOidCopy,
-- TnmOidCompare and TnmOidInTree of tnm/snmp/tnmOidObj.c. `elements` is the memory that the pointer
-- of this name leads to, static or allocated, and `used` is its field `length`. Lengths are not
-- negative and fit a short.
pub mod Space
pub mod Order
pub mod RoundTrip
pub mod Safety
mod Tests
use tkined_remix.Prelude.{
  ℕ, zero, suc, ◌+◌, ◌-◌, ◌*◌, ◌/◌, ◌%◌, ◌^◌, List, [], ◌∷◌, ◌++◌, Bool, true, false, Option, none,
  some, ltb, leb, ◌==◌, not, ◌&&◌, ◌||◌, if◌then◌else◌, length, take, get_or, set,
}
use tkined_remix.Ber.Oid.{max_size}
use tkined_remix.Snmp.OidText.{cleared, count_subids, convert, oid_to_str}

abbrev pub static_size : ℕ
static_size = 16

pub record TnmOid : Type 0 where
  pub elements : List ℕ
  pub used : ℕ
  pub space_avl : ℕ

-- TnmOidInit, and what TnmOidFree leaves.
abbrev pub empty_oid : TnmOid
empty_oid = record { elements = cleared static_size; used = 0; space_avl = static_size }

-- The sub-identifiers.
abbrev pub subids : TnmOid → List ℕ
subids o = take o.used o.elements

-- The loop that fills new memory of `room` elements with the first `count` of the old ones.
unfoldable pub move_elements : ℕ → ℕ → List ℕ → List ℕ
move_elements zero count es = []
move_elements (suc room) zero es = 0 ∷ move_elements room zero es
move_elements (suc room) (suc count) [] = 0 ∷ move_elements room count []
move_elements (suc room) (suc count) (e ∷ es) = e ∷ move_elements room count es

unfoldable pub set_length : TnmOid → ℕ → TnmOid
set_length o n = elim (ltb o.space_avl n) [
  | true ↦
      let space = (n / static_size + 1) * static_size in
      record { elements = move_elements (space + 1) o.used o.elements; used = n; space_avl = space }
  | false ↦ record o { used = n }
]

-- The macro TnmOidSet, and `none` for a store behind the memory.
unfoldable pub set_element : TnmOid → ℕ → ℕ → Option TnmOid
set_element o i v =
    if ltb i (length o.elements) then some (record o { elements = set o.elements i v }) else none

-- TnmOidAppend, with the flag for TCL_OK.
unfoldable pub append : TnmOid → ℕ → Option (Bool × TnmOid)
append o v = elim (o.used == max_size) [
  | true ↦ some (false, o)
  | false ↦ elim (set_element (set_length o (o.used + 1)) o.used v) [
    | none ↦ none
    | some o' ↦ some (true, o')
  ]
]

-- The loop of TnmOidCopy: the elements from i on are still to be copied.
unfoldable pub copy_loop : ℕ → List ℕ → TnmOid → Option TnmOid
copy_loop i [] dst = some dst
copy_loop i (v ∷ vs) dst = elim (set_element dst i v) [
  | none ↦ none
  | some dst' ↦ copy_loop (i + 1) vs dst'
]

unfoldable pub copy : TnmOid → Option TnmOid
copy src = copy_loop 0 (subids src) (set_length empty_oid src.used)

-- The call of the second loop on the elements from the first one on.
unfoldable pub convert_all : List ℕ → List ℕ → Option (List ℕ)
convert_all s [] = none
convert_all s (e ∷ es) = convert 0 false s e es

-- TnmOidFromString, with the flag for TCL_OK, and `none` for a store behind the memory.
unfoldable pub from_string : List ℕ → Option (Bool × TnmOid)
from_string [] = some (true, empty_oid)
from_string (c ∷ s) = elim (count_subids 0 false 1 (c ∷ s)) [
  | none ↦ some (false, empty_oid)
  | some len ↦ elim (ltb max_size len) [
    | true ↦ some (false, empty_oid)
    | false ↦
        let o = if ltb static_size len then set_length empty_oid len else empty_oid in
        elim (convert_all (c ∷ s) o.elements) [
          | none ↦ none
          | some es ↦
              if ltb len 2 || ltb 2 (get_or es 0 0)
              then some (false, empty_oid)
              else some (true, record o { elements = es; used = len })
        ]
  ]
]

-- TnmOidToString, whose loop is the one of TnmOidToStr.
unfoldable pub to_string : TnmOid → Option (List ℕ)
to_string o = oid_to_str (subids o)

-- The results -1, 0 and 1 of TnmOidCompare.
pub data Sign : Type 0 where
  minus_one plus_zero plus_one : Sign

unfoldable pub compare_elements : List ℕ → List ℕ → Sign
compare_elements [] [] = plus_zero
compare_elements [] (y ∷ ys) = minus_one
compare_elements (x ∷ xs) [] = plus_one
compare_elements (x ∷ xs) (y ∷ ys) = elim (ltb x y) [
  | true ↦ minus_one
  | false ↦ elim (ltb y x) [ true ↦ plus_one | false ↦ compare_elements xs ys ]
]

unfoldable pub compare_oids : TnmOid → TnmOid → Sign
compare_oids a b = compare_elements (subids a) (subids b)

-- The loop of TnmOidInTree.
unfoldable pub starts_with : List ℕ → List ℕ → Bool
starts_with [] oid = true
starts_with (t ∷ ts) [] = true
starts_with (t ∷ ts) (e ∷ es) = elim (e == t) [ true ↦ starts_with ts es | false ↦ false ]

unfoldable pub in_tree : TnmOid → TnmOid → Bool
in_tree tree oid = if ltb oid.used tree.used then false else starts_with (subids tree) (subids oid)
