-- ===== src/Snmp/OidObj/RoundTrip.antt =====
-- TnmOidFromString of tnm/snmp/tnmOidObj.c on the texts that TnmOidToString makes.
use tkined_remix.Prelude.{
  ℕ, zero, suc, ◌+◌, ◌-◌, ◌*◌, ◌/◌, ◌^◌, ◌≤◌, ◌<◌, List, [], ◌∷◌, ◌++◌, true, false, ◌≡◌, refl, sym,
  ap, ◌∙◌, arith, some, ltb, leb, ◌==◌, ◌||◌, if◌then◌else◌, Bool-cases, inl, inr, length,
  length-append, All, append_assoc, append-nil, take-append_length, ge→ltb, le→leb,
}
use mathlib.Core.Path.{subst}
use tkined_remix.Ber.Oid.{max_size}
use tkined_remix.Snmp.OidText.{
  subid_text, subids_text, drop_last, oid_to_str, is_digit, is_hex_mark, count_subids, with_digit,
  put_front, convert, cleared,
}
use tkined_remix.Snmp.OidText.Digits.{value, IsDigits, subid_text-value}
use tkined_remix.Snmp.OidObj.{
  TnmOid, empty_oid, static_size, subids, move_elements, set_length, convert_all, from_string,
  to_string,
}
use tkined_remix.Snmp.OidObj.Space.{IsRoomy}

-- The text of an identifier that is not empty.
abbrev joined : ℕ → List ℕ → List ℕ
joined e [] = subid_text e
joined e (f ∷ es) = subid_text e ++ b'.' ∷ joined f es

drop_last-snoc : (s : List ℕ) (c : ℕ) → drop_last (s ++ c ∷ []) ≡ s
unfolding drop_last
drop_last-snoc [] c = refl
drop_last-snoc (d ∷ []) c = refl
drop_last-snoc (d ∷ b ∷ s) c = ap (λ t. d ∷ t) (drop_last-snoc (b ∷ s) c)

subids_text-joined : (e : ℕ) (es : List ℕ) → subids_text (e ∷ es) ≡ joined e es ++ b'.' ∷ []
unfolding subids_text
subids_text-joined e [] = refl
subids_text-joined e (f ∷ es) =
    ap (λ t. subid_text e ++ b'.' ∷ t) (subids_text-joined f es)
    ∙ sym (append_assoc (subid_text e) (b'.' ∷ joined f es) (b'.' ∷ []))

-- Digits and dots are no mark of a hexadecimal number.
abbrev IsPlain : List ℕ → Type 0
IsPlain s = All (λ c. (is_digit c || c == b'.') ≡ true) s

IsPlain-digits : (ds s : List ℕ) → IsDigits ds → IsPlain s → IsPlain (ds ++ s)
IsPlain-digits [] s hd hs = hs
IsPlain-digits (d ∷ ds) s hd hs = (rw (hd.0) refl, IsPlain-digits ds s hd.1 hs)

plain-no_mark : (s : List ℕ) → IsPlain s → is_hex_mark s ≡ false
unfolding is_hex_mark
plain-no_mark [] h = refl
plain-no_mark (c ∷ []) h = refl
plain-no_mark (c ∷ d ∷ s) h = (let q = h.1.0 in ground (arith, q))

joined-IsPlain : (e : ℕ) (es : List ℕ) → All (λ v. v < 2 ^ 32) (e ∷ es) → IsPlain (joined e es)
joined-IsPlain e [] h =
    subst (λ t. IsPlain t) (append-nil (subid_text e))
      (IsPlain-digits (subid_text e) [] (subid_text-value e h.0).1 tt)
joined-IsPlain e (f ∷ es) h =
    IsPlain-digits (subid_text e) (b'.' ∷ joined f es) (subid_text-value e h.0).1
      (refl, joined-IsPlain f es h.1)

count-digits :
    (ds rest : List ℕ) (len : ℕ)
    → IsDigits ds
    → count_subids 0 false len (ds ++ rest) ≡ count_subids 0 false len rest
unfolding count_subids
count-digits [] rest len h = refl
count-digits (c ∷ ds) rest len h =
    let d : is_digit c ≡ true = h.0 in
    let dot : (c == b'.') ≡ false = ground (arith, d) in
    let colon : (c == b':') ≡ false = ground (arith, d) in
    rw (dot, colon, d, count_subids) (count-digits ds rest len h.1)

count-joined :
    (e : ℕ) (es : List ℕ) (len : ℕ)
    → All (λ v. v < 2 ^ 32) (e ∷ es)
    → count_subids 0 false len (joined e es) ≡ some (len + length es)
unfolding count_subids
count-joined e [] len h =
    ap (count_subids 0 false len) (sym (append-nil (subid_text e)))
    ∙ (count-digits (subid_text e) [] len (subid_text-value e h.0).1 ∙ ap some (omega arith))
count-joined e (f ∷ es) len h =
    let plain = plain-no_mark (joined f es) (joined-IsPlain f es h.1) in
    count-digits (subid_text e) (b'.' ∷ joined f es) len (subid_text-value e h.0).1
    ∙ rw (plain, count_subids) (count-joined f es (len + 1) h.1 ∙ ap some (omega arith))

convert-digits :
    (ds rest : List ℕ) (cur : ℕ) (es : List ℕ)
    → IsDigits ds
    → convert 0 false (ds ++ rest) cur es ≡ convert 0 false rest (value cur ds) es
unfolding convert
convert-digits [] rest cur es h = refl
convert-digits (c ∷ ds) rest cur [] h =
    let d : is_digit c ≡ true = h.0 in
    let dot : (c == b'.') ≡ false = ground (arith, d) in
    let colon : (c == b':') ≡ false = ground (arith, d) in
    rw (dot, colon, convert) (convert-digits ds rest (with_digit false cur c) [] h.1)
convert-digits (c ∷ ds) rest cur (e ∷ es) h =
    let d : is_digit c ≡ true = h.0 in
    let dot : (c == b'.') ≡ false = ground (arith, d) in
    let colon : (c == b':') ≡ false = ground (arith, d) in
    rw (dot, colon, convert) (convert-digits ds rest (with_digit false cur c) (e ∷ es) h.1)

convert-joined :
    (e : ℕ) (es : List ℕ) (m : ℕ)
    → All (λ v. v < 2 ^ 32) (e ∷ es)
    → convert 0 false (joined e es) 0 (cleared (length es + m)) ≡ some (e ∷ es ++ cleared m)
unfolding convert
convert-joined e [] m h =
    let (v, d) = subid_text-value e h.0 in
    let z : 0 + m ≡ m = omega arith in
    ap (λ n. convert 0 false (subid_text e) 0 (cleared n)) z
    ∙ (ap (λ t. convert 0 false t 0 (cleared m)) (sym (append-nil (subid_text e)))
        ∙ (convert-digits (subid_text e) [] 0 (cleared m) d ∙ ap (λ x. some (x ∷ cleared m)) v))
convert-joined e (f ∷ es) m h =
    let (v, d) = subid_text-value e h.0 in
    let plain = plain-no_mark (joined f es) (joined-IsPlain f es h.1) in
    let z : suc (length es) + m ≡ suc (length es + m) = omega arith in
    ap (λ n. convert 0 false (joined e (f ∷ es)) 0 (cleared n)) z
    ∙ (convert-digits (subid_text e) (b'.' ∷ joined f es) 0 (cleared (suc (length es + m))) d
        ∙ rw (plain, convert)
            (ap (put_front (value 0 (subid_text e))) (convert-joined f es m h.1)
              ∙ ap (λ x. some (x ∷ f ∷ es ++ cleared m)) v))

move-cleared : (room : ℕ) (es : List ℕ) → move_elements room 0 es ≡ cleared room
unfolding move_elements
move-cleared zero es = refl
move-cleared (suc room) es = ap (λ t. 0 ∷ t) (move-cleared room es)

-- The memory for an identifier of the given length.
unfoldable pub memory_for : ℕ → TnmOid
memory_for len = if ltb static_size len then set_length empty_oid len else empty_oid

pub memory_for-cleared :
    (n : ℕ)
    → (m : ℕ) × ((memory_for (suc n)).elements ≡ cleared (suc (n + m)))
      × (suc n ≤ (memory_for (suc n)).space_avl)
      × ((memory_for (suc n)).space_avl ≤ suc (n + m))
unfolding memory_for set_length
memory_for-cleared n = elim (Bool-cases (ltb static_size (suc n))) [
  | inl big ↦
      let space = (suc n / static_size + 1) * static_size in
      let q : space + 1 ≡ suc (n + (space - n)) = omega arith in
      (
        space - n,
        rw (big, set_length) (move-cleared (space + 1) (cleared static_size) ∙ ap cleared q),
        rw (big, set_length) (omega arith),
        rw (big, set_length) (omega arith),
      )
  | inr small ↦
      let q : 16 ≡ suc (n + (15 - n)) = ground arith in
      (15 - n, rw small (ap cleared q), rw small (ground arith), rw small (omega (arith, q)))
]

snoc_nonempty : (s : List ℕ) (x : ℕ) → (c : ℕ) × (t : List ℕ) × (s ++ x ∷ [] ≡ c ∷ t)
snoc_nonempty [] x = (x, [], refl)
snoc_nonempty (c ∷ s) x = (c, s ++ x ∷ [], refl)

subid_nonempty : (e : ℕ) → (c : ℕ) × (t : List ℕ) × (subid_text e ≡ c ∷ t)
unfolding subid_text
subid_nonempty e = elim (Bool-cases (ltb e 10)) [
  | inl small ↦ rw small (_, [], refl)
  | inr large ↦ rw large (snoc_nonempty _ _)
]

nonempty : (e : ℕ) (es : List ℕ) → (c : ℕ) × (t : List ℕ) × (joined e es ≡ c ∷ t)
nonempty e [] = subid_nonempty e
nonempty e (f ∷ es) =
    (let (c, t, p) = subid_nonempty e in
      (c, t ++ b'.' ∷ joined f es, ap (λ u. u ++ b'.' ∷ joined f es) p))

convert_all-joined :
    (e : ℕ) (es : List ℕ)
    → All (λ v. v < 2 ^ 32) (e ∷ es)
    → (m : ℕ) × (convert_all (joined e es) (memory_for (suc (length es))).elements
        ≡ some (e ∷ es ++ cleared m))
      × (suc (length es) ≤ (memory_for (suc (length es))).space_avl)
      × ((memory_for (suc (length es))).space_avl ≤ suc (length es + m))
unfolding convert_all
convert_all-joined e es h =
    let (m, c, low, high) = memory_for-cleared (length es) in
    (m, ap (convert_all (joined e es)) c ∙ convert-joined e es m h, low, high)

pub length-cleared : (n : ℕ) → length (cleared n) ≡ n
length-cleared zero = refl
length-cleared (suc n) = omega (arith, length-cleared n)

from_string-text :
    (e : ℕ) (es : List ℕ) (c : ℕ) (t : List ℕ)
    → joined e es ≡ c ∷ t
    → All (λ v. v < 2 ^ 32) (e ∷ es)
    → e ≤ 2
    → 1 ≤ length es
    → length es < max_size
    → (o : TnmOid) × (from_string (c ∷ t) ≡ some (true, o)) × IsRoomy o × (subids o ≡ e ∷ es)
unfolding from_string memory_for
from_string-text e es c t p h he h1 hm =
    let (m, v, low, high) = convert_all-joined e es h in
    let len = suc (length es) in
    let n : count_subids 0 false 1 (c ∷ t) ≡ some len =
      ap (count_subids 0 false 1) (sym p) ∙ (count-joined e es 1 h ∙ ap some (omega arith)) in
    let v' : convert_all (c ∷ t) (memory_for len).elements ≡ some (e ∷ es ++ cleared m) =
      ap (λ s. convert_all s (memory_for len).elements) (sym p) ∙ v in
    let fits : ltb max_size len ≡ false = ge→ltb _ _ (omega arith) in
    let long : ltb len 2 ≡ false = ge→ltb _ _ (omega arith) in
    let first : ltb 2 e ≡ false = ge→ltb _ _ he in
    (
      record (memory_for len) { elements = e ∷ es ++ cleared m; used = len },
      rw (n, fits, v', long, first, from_string) refl,
      record {
        used_le = low;
        space_le = omega (arith, high, length-append es (cleared m), length-cleared m);
      },
      ap (λ l. e ∷ l) (take-append_length es (cleared m)),
    )

-- An identifier of 2 up to 128 sub-identifiers below 2 ^ 32, of which the first is at most 2, and
-- whose text with a dot behind each number fits into the buffer of 1024 bytes: to_string makes its
-- text, and from_string makes of this text an identifier with the same sub-identifiers, without a
-- store behind its memory, and with room for them.
pub from_string-to_string :
    (o : TnmOid) (e : ℕ) (es : List ℕ)
    → subids o ≡ e ∷ es
    → All (λ v. v < 2 ^ 32) (e ∷ es)
    → e ≤ 2
    → 1 ≤ length es
    → length es < max_size
    → length (subids_text (e ∷ es)) ≤ max_size * 8
    → (s : List ℕ) × (o' : TnmOid) × (to_string o ≡ some s)
      × (from_string s ≡ some (true, o'))
      × IsRoomy o'
      × (subids o' ≡ subids o)
unfolding to_string oid_to_str
from_string-to_string o e es p h he h1 hm hs =
    let (c, t, q) = nonempty e es in
    let (o', f, r, u) = from_string-text e es c t q h he h1 hm in
    let fits : leb (length (subids_text (e ∷ es))) (max_size * 8) ≡ true = le→leb _ _ hs in
    let text : drop_last (subids_text (e ∷ es)) ≡ c ∷ t =
      ap drop_last (subids_text-joined e es) ∙ (drop_last-snoc (joined e es) b'.' ∙ q) in
    (c ∷ t, o', rw (p, fits) (ap some text), f, r, u ∙ sym p)
