-- ===== src/Snmp/OidText.antt =====
-- Object identifiers as texts: TnmOidToStr and TnmStrToOid of tnm/snmp/tnmAsn1.c, and TnmIsOid and
-- the loops of TnmOidToString and TnmOidFromString of tnm/snmp/tnmOidObj.c. A text is the list of
-- its characters, in ASCII, without the terminating zero.
pub mod Digits
use tkined_remix.Prelude.{
  ℕ, zero, suc, ◌+◌, ◌-◌, ◌*◌, ◌/◌, ◌%◌, ◌^◌, List, [], ◌∷◌, ◌++◌, Bool, true, false, Option, none,
  some, ltb, leb, ◌==◌, not, ◌&&◌, ◌||◌, if◌then◌else◌, length, take, get_or, set,
}
use tkined_remix.Ber.Oid.{max_size}

-- `while (u / t) t *= 10;`
unfoldable pub grow : ℕ → ℕ → ℕ → ℕ
grow zero u t = t
grow (suc f) u t = elim (u / t == 0) [ true ↦ t | false ↦ grow f u (t * 10 % 2 ^ 32) ]

-- `while (t /= 10) *cp++ = '0'+ (u / t) % 10;`
unfoldable pub emit : ℕ → ℕ → ℕ → List ℕ
emit zero u t = []
emit (suc f) u t = elim (t / 10 == 0) [
  | true ↦ []
  | false ↦ (b'0' + u / (t / 10) % 10) ∷ emit f u (t / 10)
]

-- The characters of one sub-identifier.
unfoldable pub subid_text : ℕ → List ℕ
subid_text e =
    if ltb e 10
    then (b'0' + e) ∷ []
    else emit 10 (e / 10) (grow 10 (e / 10) 10) ++ ((b'0' + e % 10) ∷ [])

unfoldable pub subids_text : List ℕ → List ℕ
subids_text [] = []
subids_text (e ∷ es) = subid_text e ++ (b'.' ∷ subids_text es)

-- `*--cp = '\0';`
unfoldable pub drop_last : List ℕ → List ℕ
drop_last [] = []
drop_last (c ∷ []) = []
drop_last (c ∷ d ∷ s) = c ∷ drop_last (d ∷ s)

-- TnmOidToStr, and `none` when it writes behind the end of its static buffer.
unfoldable pub oid_to_str : List ℕ → Option (List ℕ)
oid_to_str oid =
    let s = subids_text oid in if leb (length s) (max_size * 8) then some (drop_last s) else none

abbrev pub is_digit : ℕ → Bool
is_digit c = leb b'0' c && leb c b'9'

abbrev pub is_xdigit : ℕ → Bool
is_xdigit c = is_digit c || leb b'a' c && leb c b'f' || leb b'A' c && leb c b'F'

-- `c[1] == '0' && c[2] == 'x'`, on the text behind c.
unfoldable pub is_hex_mark : List ℕ → Bool
is_hex_mark [] = false
is_hex_mark (c ∷ []) = false
is_hex_mark (c ∷ d ∷ s) = c == b'0' && d == b'x'

-- The characters that `c += 2` passes over.
abbrev pub mark_size : List ℕ → ℕ
mark_size s = if is_hex_mark s then 2 else 0

-- The loop of TnmIsOid; the first argument is the number of characters to pass over.
unfoldable pub is_oid_loop : ℕ → Bool → List ℕ → Bool
is_oid_loop k hex [] = true
is_oid_loop (suc k) hex (c ∷ s) = is_oid_loop k hex s
is_oid_loop zero hex (c ∷ s) = elim (c == b'.') [
  | true ↦ is_oid_loop (mark_size s) (is_hex_mark s) s
  | false ↦ elim (c == b':') [
    | true ↦ is_oid_loop 0 true s
    | false ↦
        let rest = is_oid_loop 0 hex s in
        if hex && not (is_xdigit c)
        then false
        else if not hex && not (is_digit c)
        then false
        else rest
  ]
]

unfoldable pub is_oid : List ℕ → Bool
is_oid s = is_oid_loop 0 false s

-- The first loop of TnmOidFromString: the number of sub-identifiers.
unfoldable pub count_subids : ℕ → Bool → ℕ → List ℕ → Option ℕ
count_subids k hex len [] = some len
count_subids (suc k) hex len (c ∷ s) = count_subids k hex len s
count_subids zero hex len (c ∷ s) = elim (c == b'.') [
  | true ↦ count_subids (mark_size s) (is_hex_mark s || hex) (len + 1) s
  | false ↦ elim (c == b':') [
    | true ↦ count_subids 0 true (len + 1) s
    | false ↦
        let rest = count_subids 0 hex len s in
        if hex && not (is_xdigit c)
        then none
        else if not hex && not (is_digit c)
        then none
        else rest
  ]
]

abbrev pub hex_value : ℕ → ℕ
hex_value c = if leb b'a' c then c - b'a' + 10 else if leb b'A' c then c - b'A' + 10 else c - b'0'

-- The element with one more digit.
unfoldable pub with_digit : Bool → ℕ → ℕ → ℕ
with_digit hex e c = if hex then (e * 16 + hex_value c) % 2 ^ 32 else (10 * e + c - b'0') % 2 ^ 32

abbrev pub put_front : ℕ → Option (List ℕ) → Option (List ℕ)
put_front e none = none
put_front e (some es) = some (e ∷ es)

-- The second loop: `cur` is `elements[i]`, and `es` the elements behind it. The result is the
-- elements from i on, and `none` is a store behind the last one.
unfoldable pub convert : ℕ → Bool → List ℕ → ℕ → List ℕ → Option (List ℕ)
convert k hex [] cur es = some (cur ∷ es)
convert (suc k) hex (c ∷ s) cur es = convert k hex s cur es
convert zero hex (c ∷ s) cur [] =
    let rest = convert 0 hex s (with_digit hex cur c) [] in
    if c == b'.' || c == b':' then none else rest
convert zero hex (c ∷ s) cur (e ∷ es) = elim (c == b'.') [
  | true ↦ put_front cur (convert (mark_size s) (is_hex_mark s) s 0 es)
  | false ↦ elim (c == b':') [
    | true ↦ put_front cur (convert 0 true s 0 es)
    | false ↦ convert 0 hex s (with_digit hex cur c) (e ∷ es)
  ]
]

-- The loop of TnmStrToOid with the index `len` into its static array.
unfoldable pub str_to_oid_loop : List ℕ → ℕ → List ℕ → Option (List ℕ × ℕ)
str_to_oid_loop [] len oid = some (oid, len)
str_to_oid_loop (c ∷ s) len oid = elim (is_digit c) [
  | true ↦ str_to_oid_loop s len (set oid len ((10 * get_or oid len 0 + c - b'0') % 2 ^ 32))
  | false ↦ elim (c == b'.' && ltb len (max_size - 1)) [
    | true ↦ str_to_oid_loop s (len + 1) oid
    | false ↦ none
  ]
]

abbrev pub cleared : ℕ → List ℕ
cleared zero = []
cleared (suc n) = 0 ∷ cleared n

-- `if (*str == '.') str++;`
unfoldable pub without_dot : List ℕ → List ℕ
without_dot [] = []
without_dot (c ∷ s) = if c == b'.' then s else c ∷ s

-- TnmStrToOid, with the array and the length.
unfoldable pub str_to_oid : List ℕ → Option (List ℕ × ℕ)
str_to_oid str = elim (without_dot str) [
  | [] ↦ some (cleared max_size, 0)
  | c ∷ s ↦ elim (str_to_oid_loop (c ∷ s) 0 (cleared max_size)) [
    | none ↦ none
    | some (oid, len) ↦
        if ltb (len + 1) 2 || ltb 2 (get_or oid 0 0) then none else some (oid, len + 1)
  ]
]
