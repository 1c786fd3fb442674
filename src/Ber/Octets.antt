-- ===== src/Ber/Octets.antt =====
-- OCTET STRING, NULL and values of unknown types, in tnm/snmp/tnmAsn1.c. A pointer into the packet
-- with a number of octets is the list of those octets.
pub mod RoundTrip
use tkined_remix.Prelude.{ℕ, ◌+◌, ◌-◌, List, [], ◌∷◌, ltb, if◌then◌else◌, ◌||◌, length, take, drop}
use tkined_remix.Ber.Stream.{
  Ber, M, text, ok, pure, fail, fail_with, ◌>>=◌, ◌>>◌, enc_byte, dec_byte, position, expect_tag,
}
use tkined_remix.Ber.Length.{enc_length, dec_length}

-- `for (i = 0; ber && i < octets_len; i++)`
unfoldable pub enc_octets_loop : List ℕ → M (Unit {0})
enc_octets_loop [] = pure tt
enc_octets_loop (b ∷ octets) = do enc_byte b; enc_octets_loop octets

unfoldable pub enc_octet_string : ℕ → List ℕ → M (Unit {0})
enc_octet_string tag octets = do
  enc_byte tag
  len ← position
  enc_byte 0
  enc_octets_loop octets
  enc_length len (length octets)

-- `*octets = ber->current; ber->current += len;`
unfoldable pub take_octets : ℕ → M (List ℕ)
take_octets len s = ok (take len (drop s.current s.mem)) (record s { current = s.current + len })

-- The check before it: at most 65535 octets, and all of them in the packet.
unfoldable pub dec_octet_string : ℕ → M (List ℕ)
dec_octet_string tag = do
  expect_tag tag
  len ← dec_length
  current ← position
  λ s.
      if ltb 65535 len || ltb (length s.mem) (current + len)
      then fail_with (text "BER buffer size exceeded") s
      else take_octets len s

unfoldable pub enc_null : ℕ → M (Unit {0})
enc_null tag = do enc_byte tag; enc_byte 0

unfoldable pub dec_null : ℕ → M ℕ
dec_null tag = do expect_tag tag; dec_length

-- TnmBerDecAny hands back the octets from the tag on, and sets no message.
unfoldable pub dec_any : M (List ℕ)
dec_any = do
  start ← position
  tag ← dec_byte
  len ← dec_length
  current ← position
  λ s.
      if ltb 65535 len || ltb (length s.mem) (current + len)
      then fail s
      else ok (take (len + (current - start)) (drop start s.mem))
          (record s { current = current + len })
