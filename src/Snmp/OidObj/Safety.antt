-- ===== src/Snmp/OidObj/Safety.antt =====
-- TnmOidFromString of tnm/snmp/tnmOidObj.c stores inside its memory, whatever the text is.
use tkined_remix.Prelude.{
  ℕ, zero, suc, ◌+◌, ◌≤◌, List, [], ◌∷◌, Bool, true, false, ◌≡◌, refl, ap, ◌∙◌, arith, Option, some,
  ltb, ◌==◌, ◌||◌, Bool-cases, Option-cases, inl, inr, length, get_or, ltb→ge,
}
use tkined_remix.Ber.Oid.{max_size}
use tkined_remix.Snmp.OidText.{
  is_hex_mark, mark_size, count_subids, with_digit, put_front, convert, cleared,
}
use tkined_remix.Snmp.OidObj.{TnmOid, empty_oid, convert_all, from_string}
use tkined_remix.Snmp.OidObj.Space.{IsRoomy, empty_oid-IsRoomy}
use tkined_remix.Snmp.OidObj.RoundTrip.{memory_for, memory_for-cleared, length-cleared}

-- The count does not shrink.
count-le :
    (k : ℕ) (hex : Bool) (len : ℕ) (s : List ℕ) (n : ℕ)
    → count_subids k hex len s ≡ some n
    → len ≤ n
unfolding count_subids
count-le k hex len [] n h = ground (arith, h)
count-le (suc k) hex len (c ∷ s) n h = count-le k hex len s n h
count-le zero hex len (c ∷ s) n h = elim (Bool-cases (c == b'.')) [
  | inl dot ↦ omega (
    arith,
    count-le (mark_size s) (is_hex_mark s || hex) (len + 1) s n (rw (dot, count_subids) at h),
  )
  | inr e ↦ elim (Bool-cases (c == b':')) [
    | inl colon ↦ omega (arith, count-le 0 true (len + 1) s n (rw (e, colon, count_subids) at h))
    | inr d ↦ count-le 0 hex len s n (ground (arith, rw (e, d, count_subids) at h))
  ]
]

put_front-length :
    (e n : ℕ) (o : Option (List ℕ))
    → ((es : List ℕ) × (o ≡ some es) × (length es ≡ n))
    → (es : List ℕ) × (put_front e o ≡ some es) × (length es ≡ suc n)
put_front-length e n o (es, p, l) = (e ∷ es, ap (put_front e) p, ap suc l)

-- The second loop moves on as often as the first counts, with hexadecimal numbers or without.
convert-fits :
    (k : ℕ) (hex hex' : Bool) (len : ℕ) (s : List ℕ) (n cur : ℕ) (es : List ℕ)
    → count_subids k hex len s ≡ some n
    → n ≤ len + length es
    → (es' : List ℕ) × (convert k hex' s cur es ≡ some es') × (length es' ≡ suc (length es))
unfolding count_subids convert
convert-fits k hex hex' len [] n cur es h l = (cur ∷ es, refl, refl)
convert-fits (suc k) hex hex' len (c ∷ s) n cur es h l = convert-fits k hex hex' len s n cur es h l
convert-fits zero hex hex' len (c ∷ s) n cur [] h l = elim (Bool-cases (c == b'.')) [
  | inl dot ↦ absurd (
      omega (
        arith,
        count-le (mark_size s) (is_hex_mark s || hex) (len + 1) s n (rw (dot, count_subids) at h),
      ))
  | inr e ↦ elim (Bool-cases (c == b':')) [
    | inl colon ↦
        absurd (omega (arith, count-le 0 true (len + 1) s n (rw (e, colon, count_subids) at h)))
    | inr d ↦
        rw (e, d, convert)
          (convert-fits 0 hex hex' len s n (with_digit hex' cur c) []
            (ground (arith, rw (e, d, count_subids) at h)) l)
  ]
]
convert-fits zero hex hex' len (c ∷ s) n cur (f ∷ es) h l = elim (Bool-cases (c == b'.')) [
  | inl dot ↦
      rw (dot, convert)
        (put_front-length cur (suc (length es)) _ (
          convert-fits (mark_size s) (is_hex_mark s || hex) (is_hex_mark s) (len + 1) s n 0 es
            (rw (dot, count_subids) at h) (omega arith)))
  | inr e ↦ elim (Bool-cases (c == b':')) [
    | inl colon ↦
        rw (e, colon, convert)
          (put_front-length cur (suc (length es)) _ (
            convert-fits 0 true true (len + 1) s n 0 es (rw (e, colon, count_subids) at h)
              (omega arith)))
    | inr d ↦
        rw (e, d, convert)
          (convert-fits 0 hex hex' len s n (with_digit hex' cur c) (f ∷ es)
            (ground (arith, rw (e, d, count_subids) at h)) l)
  ]
]

convert_all-fits :
    (s : List ℕ) (n : ℕ)
    → count_subids 0 false 1 s ≡ some (suc n)
    → (es : List ℕ) × (convert_all s (memory_for (suc n)).elements ≡ some es)
      × (suc n ≤ (memory_for (suc n)).space_avl)
      × ((memory_for (suc n)).space_avl ≤ length es)
unfolding convert_all
convert_all-fits s n h =
    let (m, c, low, high) = memory_for-cleared n in
    let (es, v, l) =
      convert-fits 0 false false 1 s (suc n) 0 (cleared (n + m)) h
        (omega (arith, length-cleared (n + m))) in
    (es, ap (convert_all s) c ∙ v, low, omega (arith, l, high, length-cleared (n + m)))

-- On every text, from_string stores inside the memory of the identifier, which it makes large
-- enough before, and leaves an identifier of at most 128 sub-identifiers with room for them.
pub from_string-IsRoomy :
    (s : List ℕ)
    → (flag : Bool) × (o : TnmOid) × (from_string s ≡ some (flag, o))
      × IsRoomy o
      × (o.used ≤ max_size)
unfolding from_string memory_for
from_string-IsRoomy [] = (true, empty_oid, refl, empty_oid-IsRoomy, omega arith)
from_string-IsRoomy (c ∷ s) = elim (Option-cases (count_subids 0 false 1 (c ∷ s))) [
  | inl n ↦ (false, empty_oid, rw (n, from_string) refl, empty_oid-IsRoomy, omega arith)
  | inr (zero, n) ↦ absurd (omega (arith, count-le 0 false 1 (c ∷ s) 0 n))
  | inr (suc len, n) ↦ elim (Bool-cases (ltb max_size (suc len))) [
    | inl long ↦ (false, empty_oid, rw (n, long, from_string) refl, empty_oid-IsRoomy, omega arith)
    | inr fits ↦
        let (es, v, low, high) = convert_all-fits (c ∷ s) len n in
        elim (Bool-cases (ltb (suc len) 2 || ltb 2 (get_or es 0 0))) [
          | inl bad ↦ (
            false,
            empty_oid,
            rw (n, fits, v, bad, from_string) refl,
            empty_oid-IsRoomy,
            omega arith,
          )
          | inr good ↦ (
            true,
            record (memory_for (suc len)) { elements = es; used = suc len },
            rw (n, fits, v, good, from_string) refl,
            record { used_le = low; space_le = high },
            ltb→ge _ _ fits,
          )
        ]
  ]
]
