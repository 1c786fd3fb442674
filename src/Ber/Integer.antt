-- ===== src/Ber/Integer.antt =====
-- TnmBerEncInt, TnmBerDecInt and TnmBerDecUnsigned64 of tnm/snmp/tnmAsn1.c. An int is its bit
-- pattern, a number below 2 ^ 32.
pub mod Encode
pub mod Decode
pub mod RoundTrip
use tkined_remix.Prelude.{
  ℕ, zero, suc, ◌+◌, ◌-◌, ◌*◌, ◌/◌, ◌%◌, ◌^◌, List, Bool, true, false, ltb, leb, ◌==◌,
  if◌then◌else◌, ◌&&◌, ◌||◌, not,
}
use tkined_remix.Ber.Stream.{
  M, pure, ◌>>=◌, ◌>>◌, enc_byte, dec_byte, dec_peek, position, expect_tag, fail_wrong_length,
  fail_wrong_value,
}
use tkined_remix.Ber.Length.{enc_length, dec_length}

-- `value & mask` for the mask of the leftmost nine bits is 0 or the mask itself.
unfoldable pub top_nine_alike : ℕ → Bool
top_nine_alike value = value / 2 ^ 23 == 0 || value / 2 ^ 23 == 0x1ff

-- The loop that drops leading octets: the number of octets left, and the shifted value.
unfoldable pub strip_loop : ℕ → ℕ → ℕ × ℕ
strip_loop zero value = (zero, value)
strip_loop (suc zero) value = (1, value)
strip_loop (suc (suc k)) value = elim (top_nine_alike value) [
  | true ↦ strip_loop (suc k) (value * 256 % 2 ^ 32)
  | false ↦ (suc (suc k), value)
]

-- `(value & mask) >> 24` for the mask of the leftmost eight bits, and `value <<= 8`.
unfoldable pub emit_loop : ℕ → ℕ → M (Unit {0})
emit_loop zero value = pure tt
emit_loop (suc k) value = do enc_byte (value / 2 ^ 24); emit_loop k (value * 256 % 2 ^ 32)

-- `asnlen` counts the rounds of the second loop.
unfoldable pub enc_int : ℕ → ℕ → M (Unit {0})
enc_int tag value = do
  enc_byte tag
  len ← position
  enc_byte 0
  emit_loop (strip_loop 4 value).0 (strip_loop 4 value).1
  enc_length len (strip_loop 4 value).0

-- `*value << 8` has no low bits, so `|` adds the byte.
unfoldable pub dec_int_loop : ℕ → ℕ → M ℕ
dec_int_loop zero value = pure value
dec_int_loop (suc k) value = do byte ← dec_byte; dec_int_loop k (value * 256 % 2 ^ 32 + byte)

-- What follows the first look at the value: `byte` is its first octet.
unfoldable pub dec_int_value : ℕ → ℕ → ℕ → M ℕ
dec_int_value tag len byte =
    let negative = tag == 2 && leb 0x80 byte in
    if (not (byte == 0) && ltb 4 len) || (byte == 0 && ltb 4 (len - 1))
    then fail_wrong_length tag len
    else (do
      value ← dec_int_loop len (if negative then 2 ^ 32 - 1 else 0)
      if negative && not (tag == 2) then fail_wrong_value tag else pure value)

unfoldable pub dec_int : ℕ → M ℕ
dec_int tag = do
  expect_tag tag
  len ← dec_length
  if len == 0 then pure 0 else (do byte ← dec_peek; dec_int_value tag len byte)

-- The loop of TnmBerDecUnsigned64, with the value kept in 64 bits.
unfoldable pub dec_unsigned64_loop : ℕ → ℕ → M ℕ
dec_unsigned64_loop zero value = pure value
dec_unsigned64_loop (suc k) value = do
  byte ← dec_byte
  dec_unsigned64_loop k ((value * 256 + byte) % 2 ^ 64)

unfoldable pub dec_unsigned64 : M ℕ
dec_unsigned64 = do
  expect_tag 0x46
  len ← dec_length
  if ltb 9 len then fail_wrong_length 0x46 len else dec_unsigned64_loop len 0
