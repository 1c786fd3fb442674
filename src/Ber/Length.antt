-- ===== src/Ber/Length.antt =====
-- TnmBerEncLength and TnmBerDecLength of tnm/snmp/tnmAsn1.c. A length is a non-negative int, as
-- every caller passes it.
pub mod Shift
pub mod Encode
pub mod Decode
pub mod RoundTrip
use tkined_remix.Prelude.{
  ℕ, zero, suc, ◌+◌, ◌-◌, ◌*◌, ◌/◌, ◌%◌, ◌^◌, List, true, false, Option, none, some, ltb, leb, ◌==◌,
  if◌then◌else◌, length, get_or, set, ◌&&◌, not,
}
use tkined_remix.Ber.Stream.{Ber, M, text, ok, fail, fail_with, crash, pure, ◌>>=◌, dec_byte}

-- `for (d = 0; (length >> (d * 8)); d++);` A shift of an int by 32 is undefined: `none`.
unfoldable pub count_octets : ℕ → ℕ → ℕ → Option ℕ
count_octets zero d len = none
count_octets (suc f) d len = elim (ltb 3 d) [
  | true ↦ none
  | false ↦ elim (len / 2 ^ (d * 8) == 0) [ true ↦ some d | false ↦ count_octets f (d + 1) len ]
]

-- `for (i = ...; i > 0; i--) position[i + d] = position[i];` at `p`, the index of `position[0]`.
unfoldable pub shift_loop : ℕ → ℕ → ℕ → List ℕ → List ℕ
shift_loop zero d p mem = mem
shift_loop (suc i) d p mem = shift_loop i d p (set mem (p + suc i + d) (get_or mem (p + suc i) 0))

-- `for (; d > 0; d--) *position++ = d > 2 ? 0 : ((length >> (8 * (d - 1))) & 0xff);`
unfoldable pub length_loop : ℕ → ℕ → ℕ → List ℕ → List ℕ
length_loop zero p len mem = mem
length_loop (suc d) p len mem =
    length_loop d (p + 1) len (set mem p (if ltb 2 (suc d) then 0 else len / 2 ^ (8 * d) % 256))

-- The branch for lengths of `d` octets, once `d` is known.
unfoldable pub enc_long_length : ℕ → ℕ → ℕ → M (Unit {0})
enc_long_length p len d s =
    if leb (length s.mem) (s.current + d)
    then fail_with (text "BER buffer overflow") s
    else (let moved = shift_loop (s.current - p - 1) d p s.mem in
        ok tt (record s {
          mem = length_loop d (p + 1) len (set moved p (0x80 + d));
          current = s.current + d;
        }))

unfoldable pub enc_length : ℕ → ℕ → M (Unit {0})
enc_length p len s =
    if ltb len 0x80
    then ok tt (record s { mem = set s.mem p len })
    else if leb len 0x8000_0000
    then elim (count_octets 5 0 len) [ none ↦ crash s | some d ↦ enc_long_length p len d s ]
    else fail_with (text "ASN.1 length too long") s

-- The loop over the `k` octets that are left of a long length. `*length << 8` has no low bits, so
-- `|` adds the byte.
unfoldable pub dec_length_loop : ℕ → ℕ → M ℕ
dec_length_loop zero acc = pure acc
dec_length_loop (suc k) acc = do
  byte ← dec_byte
  elim (ltb 4 (suc k) && not (byte == 0)) [
    | true ↦ fail
    | false ↦ dec_length_loop k (acc * 256 % 2 ^ 32 + byte)
  ]

-- `byte & 0x80` is 128 ≤ byte, and `*length < 0` is bit 31.
unfoldable pub dec_length : M ℕ
dec_length = do
  byte ← dec_byte
  if leb 0x80 byte
      then (do len ← dec_length_loop (byte % 128) 0; if leb (2 ^ 31) len then fail else pure len)
      else pure byte
