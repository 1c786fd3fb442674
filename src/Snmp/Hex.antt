-- ===== src/Snmp/Hex.antt =====
-- Octets as hexadecimal texts: TnmHexEnc and TnmHexDec of tnm/generic/tnmUtil.c.
mod Tests
use tkined_remix.Prelude.{
  ℕ, zero, suc, ◌+◌, ◌-◌, ◌*◌, ◌/◌, ◌%◌, ◌<◌, List, [], ◌∷◌, Bool, true, false, ◌≡◌, refl, ap, ◌∙◌,
  arith, Option, none, some, ltb, leb, ◌==◌, not, ◌&&◌, ◌||◌, if◌then◌else◌, Bool-cases, inl, inr,
  All,
}
use tkined_remix.Snmp.OidText.{is_digit, is_xdigit, put_front}

-- `if ((c1 += '0') > '9') c1 += 7;`
unfoldable pub hex_digit : ℕ → ℕ
hex_digit v = if ltb b'9' (v + b'0') then v + b'0' + 7 else v + b'0'

unfoldable pub hex_enc : List ℕ → List ℕ
hex_enc [] = []
hex_enc (c ∷ []) = hex_digit (c / 16) ∷ hex_digit (c % 16) ∷ []
hex_enc (c ∷ d ∷ s) = hex_digit (c / 16) ∷ hex_digit (c % 16) ∷ b':' ∷ hex_enc (d ∷ s)

-- `c >= 'a' ? c - 87 : (c >= 'A' ? c - 55 : c - 48)`
abbrev pub digit_value : ℕ → ℕ
digit_value c = if leb b'a' c then c - 87 else if leb b'A' c then c - 55 else c - 48

-- Where the loop of TnmHexDec is: before the first digit of an octet, behind it with its value, or
-- behind an octet.
pub data Place : Type 0 where
  first behind : Place
  second : ℕ → Place

unfoldable pub hex_dec_loop : Place → List ℕ → Option (List ℕ)
hex_dec_loop first [] = some []
hex_dec_loop behind [] = some []
hex_dec_loop (second v) [] = none
hex_dec_loop first (c ∷ s) = elim (is_xdigit c) [
  | true ↦ hex_dec_loop (second (digit_value c)) s
  | false ↦ none
]
hex_dec_loop (second v) (c ∷ s) = elim (is_xdigit c) [
  | true ↦ put_front (v * 16 + digit_value c) (hex_dec_loop behind s)
  | false ↦ none
]
hex_dec_loop behind (c ∷ s) = elim (c == b':') [
  | true ↦ hex_dec_loop first s
  | false ↦ elim (is_xdigit c) [ true ↦ hex_dec_loop (second (digit_value c)) s | false ↦ none ]
]

unfoldable pub hex_dec : List ℕ → Option (List ℕ)
hex_dec s = hex_dec_loop first s

hex_digit-value :
    (v : ℕ) → v < 16 → (is_xdigit (hex_digit v) ≡ true) × (digit_value (hex_digit v) ≡ v)
unfolding hex_digit
hex_digit-value v h = (ground arith, ground arith)

hex_dec_loop-first :
    (c : ℕ) (s : List ℕ)
    → is_xdigit c ≡ true
    → hex_dec_loop first (c ∷ s) ≡ hex_dec_loop (second (digit_value c)) s
unfolding hex_dec_loop
hex_dec_loop-first c s x = rw (x, hex_dec_loop) refl

hex_dec_loop-second :
    (v c : ℕ) (s : List ℕ)
    → is_xdigit c ≡ true
    → hex_dec_loop (second v) (c ∷ s) ≡ put_front (v * 16 + digit_value c) (hex_dec_loop behind s)
unfolding hex_dec_loop
hex_dec_loop-second v c s x = rw (x, hex_dec_loop) refl

-- An octet as two digits.
octet_read :
    (c : ℕ) (s : List ℕ)
    → c < 256
    → hex_dec_loop first (hex_digit (c / 16) ∷ hex_digit (c % 16) ∷ s)
      ≡ put_front c (hex_dec_loop behind s)
octet_read c s h =
    let (x, v) = hex_digit-value (c / 16) (omega arith) in
    let (y, u) = hex_digit-value (c % 16) (omega arith) in
    let q : digit_value (hex_digit (c / 16)) * 16 + digit_value (hex_digit (c % 16)) ≡ c =
      rw (v, u) (omega arith) in
    hex_dec_loop-first _ _ x
    ∙ (hex_dec_loop-second _ _ s y ∙ ap (λ n. put_front n (hex_dec_loop behind s)) q)

behind-colon : (s : List ℕ) → hex_dec_loop behind (b':' ∷ s) ≡ hex_dec_loop first s
unfolding hex_dec_loop
behind-colon s = refl

behind-nil : hex_dec_loop behind [] ≡ some []
unfolding hex_dec_loop
behind-nil = refl

-- The octets that hex_enc writes, at most 255 each, are read back by hex_dec.
pub hex_dec-hex_enc : (s : List ℕ) → All (λ c. c < 256) s → hex_dec (hex_enc s) ≡ some s
unfolding hex_dec hex_enc
hex_dec-hex_enc [] h = unfold hex_dec_loop in refl
hex_dec-hex_enc (c ∷ []) h = octet_read c [] h.0 ∙ ap (put_front c) behind-nil
hex_dec-hex_enc (c ∷ d ∷ s) h =
    octet_read c (b':' ∷ hex_enc (d ∷ s)) h.0
    ∙ ap (put_front c) (behind-colon (hex_enc (d ∷ s)) ∙ hex_dec-hex_enc (d ∷ s) h.1)
