-- ===== src/Snmp/OidObj/Tests.antt =====
-- Object identifiers as texts and in memory, and the theorems about them on examples.
use tkined_remix.Prelude.{
  ℕ, zero, suc, ◌≤◌, List, [], ◌∷◌, ◌++◌, Bool, true, false, ◌≡◌, refl, arith, none, some,
}
use Prim.Native.String.{String}
use Prim.Native.Char.{code}
use tkined_remix.Ber.Oid.{max_size}
use tkined_remix.Snmp.OidText.{
  cleared, subids_text, subid_text, emit, grow, is_oid, is_oid_loop, is_hex_mark, count_subids,
  convert, with_digit, drop_last, oid_to_str, str_to_oid, str_to_oid_loop, without_dot,
}
use tkined_remix.Snmp.OidObj.{
  TnmOid, empty_oid, subids, Sign, compare_oids, in_tree, from_string, to_string, convert_all,
}
use tkined_remix.Snmp.OidObj.Space.{IsRoomy}
use tkined_remix.Snmp.OidObj.Order.{Says, compare_oids-Lex, in_tree-prefix}
use tkined_remix.Snmp.OidObj.RoundTrip.{from_string-to_string}
use tkined_remix.Snmp.OidObj.Safety.{from_string-IsRoomy}

abbrev text : String → List ℕ
text String.[] = []
text (String.◌∷◌ c s) = code c ∷ text s

-- enterprises, and the identifier of the extension below it
abbrev enterprises : TnmOid
enterprises = record { elements = 1 ∷ 3 ∷ 6 ∷ 1 ∷ 4 ∷ 1 ∷ cleared 10; used = 6; space_avl = 16 }

abbrev tnm : TnmOid
tnm = record { elements = 1 ∷ 3 ∷ 6 ∷ 1 ∷ 4 ∷ 1 ∷ 1575 ∷ cleared 9; used = 7; space_avl = 16 }

enterprises-IsRoomy : IsRoomy enterprises
enterprises-IsRoomy = record { used_le = omega arith; space_le = omega arith }

tnm-IsRoomy : IsRoomy tnm
tnm-IsRoomy = record { used_le = omega arith; space_le = omega arith }

tnm_printed : to_string tnm ≡ some (text "1.3.6.1.4.1.1575")
unfolding to_string oid_to_str subids_text subid_text emit grow drop_last
tnm_printed = refl

from_string-to_string_example :
    (s : List ℕ) × (o' : TnmOid) × (to_string tnm ≡ some s)
    × (from_string s ≡ some (true, o'))
    × IsRoomy o'
    × (subids o' ≡ subids tnm)
unfolding subids_text subid_text emit grow
from_string-to_string_example =
    from_string-to_string tnm 1 (3 ∷ 6 ∷ 1 ∷ 4 ∷ 1 ∷ 1575 ∷ []) refl
      (
        omega arith,
        (
          omega arith,
          (omega arith, (omega arith, (omega arith, (omega arith, (omega arith, tt))))),
        ),
      )
      (omega arith) (omega arith) (omega arith) (omega arith)

compare_oids-Lex_example :
    Says (compare_oids enterprises tnm) (subids enterprises) (subids tnm)
    × ((s : Sign) → Says s (subids enterprises) (subids tnm) → compare_oids enterprises tnm ≡ s)
compare_oids-Lex_example = compare_oids-Lex enterprises tnm

in_tree-prefix_example :
    (in_tree enterprises tnm ≡ true → (rest : List ℕ) × (subids tnm ≡ subids enterprises ++ rest))
    × ((rest : List ℕ) → subids tnm ≡ subids enterprises ++ rest → in_tree enterprises tnm ≡ true)
in_tree-prefix_example = in_tree-prefix enterprises tnm enterprises-IsRoomy tnm-IsRoomy

from_string-IsRoomy_example :
    (flag : Bool) × (o : TnmOid) × (from_string (text "1.3:a") ≡ some (flag, o))
    × IsRoomy o
    × (o.used ≤ max_size)
from_string-IsRoomy_example = from_string-IsRoomy (text "1.3:a")

-- A letter behind a hexadecimal number passes as a decimal digit: 'a' - '0' is 49.
letter_accepted : convert_all (text "1.0x1.a") empty_oid.elements ≡ some (1 ∷ 1 ∷ 49 ∷ cleared 13)
unfolding convert_all convert with_digit is_hex_mark
letter_accepted = refl

letter_counted : count_subids 0 false 1 (text "1.0x1.a") ≡ some 3
unfolding count_subids is_hex_mark
letter_counted = refl

letter_refused : is_oid (text "1.0x1.a") ≡ false
unfolding is_oid is_oid_loop is_hex_mark
letter_refused = refl

abbrev times : ℕ → ℕ → List ℕ
times zero v = []
times (suc n) v = v ∷ times n v

-- 128 large numbers do not fit into the buffer.
overflow : oid_to_str (1 ∷ 3 ∷ times 126 4294967295) ≡ none
unfolding oid_to_str subids_text subid_text emit grow
overflow = refl

parsed : str_to_oid (text "1.3.6") ≡ some (1 ∷ 3 ∷ 6 ∷ cleared 125, 3)
unfolding str_to_oid str_to_oid_loop without_dot
parsed = refl
