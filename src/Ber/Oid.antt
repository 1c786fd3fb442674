-- ===== src/Ber/Oid.antt =====
-- TnmBerEncOID and TnmBerDecOID of tnm/snmp/tnmAsn1.c. A sub-identifier is a number below 2 ^ 32.
pub mod Encode
pub mod Decode
pub mod RoundTrip
pub mod Termination
use tkined_remix.Prelude.{
  ℕ, zero, suc, ◌+◌, ◌-◌, ◌*◌, ◌/◌, ◌%◌, ◌^◌, List, [], ◌∷◌, Bool, true, false, Option, none, some,
  ltb, leb, ◌==◌, if◌then◌else◌, ◌||◌, not, length, get_or, set,
}
use tkined_remix.Ber.Stream.{
  Ber, M, Outcome, ok, null, text, pure, fail_with, crash, ◌>>=◌, ◌>>◌, enc_byte, dec_byte,
  position, expect_tag, fail_wrong_value, spent,
}
use tkined_remix.Ber.Length.{enc_length, dec_length}

-- TNM_OID_MAX_SIZE
abbrev pub max_size : ℕ
max_size = 128

-- `for (bits = n; bits > 0; bits--, mask >>= 1) if (*op & mask) break;` The mask starts as the sign
-- bit of an int, so the shifts fill it with ones: it covers bit `bits - 1` and all above.
unfoldable pub count_bits : ℕ → ℕ → ℕ
count_bits zero op = 0
count_bits (suc b) op = elim (op / 2 ^ b == 0) [ true ↦ count_bits b op | false ↦ suc b ]

-- The loop over the groups of seven bits: `k` groups are still to come behind the first, and the
-- mask keeps the lowest 7 * (k + 1) bits. The last byte has no top bit. The number of bytes
-- written counts into `len`.
unfoldable pub enc_groups : ℕ → ℕ → ℕ → M ℕ
enc_groups zero op len = do enc_byte (op % 2 ^ 7); pure (len + 1)
enc_groups (suc k) op len = do
  enc_byte (op % 2 ^ (7 * (k + 2)) / 2 ^ (7 * (k + 1)) + 0x80)
  enc_groups k op (len + 1)

-- Two or more octets: `bits` rounded up to a multiple of seven; 35 bits do not fit the mask, so the
-- topmost group is written apart.
unfoldable pub enc_long_subid : ℕ → ℕ → M ℕ
unfolding count_bits
enc_long_subid op len =
    let groups = (count_bits 32 op + 6) / 7 in
    if ltb 32 (groups * 7)
    then (do
      enc_byte (op / 2 ^ ((groups - 1) * 7) % 2 ^ 7 + 0x80)
      enc_groups (groups - 2) op (len + 1))
    else enc_groups (groups - 1) op len

unfoldable pub enc_subids : List ℕ → ℕ → M ℕ
enc_subids [] len = pure len
enc_subids (op ∷ ops) len =
    if leb op 0x7f
    then (do enc_byte op; enc_subids ops (len + 1))
    else (do len' ← enc_long_subid op len; enc_subids ops len')

-- The bytes of the packet, behind the check of the identifier.
unfoldable pub enc_oid_content : List ℕ → M (Unit {0})
enc_oid_content ops = do
  enc_byte 6
  p ← position
  enc_byte 0
  len ← enc_subids ops 0
  enc_length p len

-- `oid[1] += oid[0] * 40` before the loop; the sum is taken back at the end, so the caller's array
-- is as it was.
unfoldable pub enc_oid : List ℕ → M (Unit {0})
enc_oid [] s = fail_with (text "illegal OBJECT IDENTIFIER value") s
enc_oid (x ∷ []) s = fail_with (text "illegal OBJECT IDENTIFIER value") s
enc_oid (x ∷ y ∷ ops) s =
    if ltb 2 x
    then fail_with (text "illegal OBJECT IDENTIFIER value") s
    else enc_oid_content ((y + x * 40) % 2 ^ 32 ∷ ops) s

-- A store into the caller's array; one behind its end is undefined.
unfoldable pub store : List ℕ → ℕ → ℕ → M (List ℕ)
store oid i v s = if ltb i (length oid) then ok (set oid i v) s else crash s

-- The octets of one sub-identifier, from `byte` on, which was read: the value of `oid[*oidLen]`
-- behind `acc` and the number of further bytes read.
unfoldable pub dec_subid : ℕ → ℕ → ℕ → ℕ → M (ℕ × ℕ)
dec_subid zero byte acc more = λ s. spent
dec_subid (suc f) byte acc more = elim (ltb 0x7f byte) [
  | false ↦ pure ((acc * 128 + byte) % 2 ^ 32, more)
  | true ↦ (do byte' ← dec_byte; dec_subid f byte' ((acc * 128 + byte % 128) % 2 ^ 32) (more + 1))
]

-- Each further byte is one of the packet, so their number is fuel enough.
unfoldable pub dec_rest_of_subid : ℕ → M (ℕ × ℕ)
unfolding dec_subid
dec_rest_of_subid byte s = dec_subid (suc (length s.mem)) byte 0 0 s

-- The first sub-identifier holds the first two components.
unfoldable pub split_first : ℕ → List ℕ → List ℕ
split_first i oid =
    if i == 1
    then (let v = get_or oid 1 0 in
        let x = if ltb 2 (v / 40) then 2 else v / 40 in set (set oid 0 x) 1 (v - x * 40))
    else oid

-- `while (len > 0)`: the array and `*oidLen`. The first octet of each sub-identifier lowers `len`,
-- so `len` rounds are enough; a negative `len` ends the loop as 0 does.
unfoldable pub dec_oid_loop : ℕ → ℕ → ℕ → List ℕ → M (List ℕ × ℕ)
dec_oid_loop f zero i oid = pure (oid, i)
dec_oid_loop zero (suc len) i oid = λ s. spent
dec_oid_loop (suc f) (suc len) i oid = do
  oid₀ ← store oid i 0
  byte ← dec_byte
  (v, more) ← dec_rest_of_subid byte
  if ltb max_size (i + 1)
      then fail_wrong_value 6
      else dec_oid_loop f (len - more) (i + 1) (split_first i (set oid₀ i v))

unfoldable pub dec_oid : List ℕ → M (List ℕ × ℕ)
dec_oid oid = do
  expect_tag 6
  len ← dec_length
  if len == 0 then fail_wrong_value 6 else dec_oid_loop len len 1 oid
