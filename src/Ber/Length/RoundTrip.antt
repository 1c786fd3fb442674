-- ===== src/Ber/Length/RoundTrip.antt =====
-- What TnmBerEncLength of tnm/snmp/tnmAsn1.c writes, read by TnmBerDecLength.
use tkined_remix.Prelude.{ℕ, ◌+◌, ◌%◌, ◌^◌, ◌<◌, List, ◌∷◌, ◌++◌, ◌≡◌, length}
use tkined_remix.Ber.Stream.{Message, ok}
use tkined_remix.Ber.At.{at}
use tkined_remix.Ber.Length.{enc_length, dec_length}
use tkined_remix.Ber.Length.Encode.{
  length_octets, extra_octets, enc_length-at, length-length_octets,
}
use tkined_remix.Ber.Length.Decode.{dec_length-length_octets}

-- In a buffer with room, enc_length writes a length below 2 ^ 24 into the byte that was kept for it
-- and the room behind, which the content makes by moving up: a byte, and as many more as the long
-- form needs. In any packet, dec_length reads what it wrote as the length modulo 2 ^ 16, and stands
-- behind it then.
pub dec_length-enc_length :
    (n : ℕ) (pre : List ℕ) (p : ℕ) (c gap post pre' post' : List ℕ) (e e' : Message)
    → n < 0x100_0000
    → length gap ≡ extra_octets n
    → (0 < extra_octets n → 0 < length post)
    → (w : List ℕ) × (length w ≡ extra_octets n + 1)
      × (enc_length (length pre) n (at (pre ++ p ∷ c) (gap ++ post) e)
          ≡ ok tt (at (pre ++ (w ++ c)) post e))
      × (dec_length (at pre' (w ++ post') e') ≡ ok (n % 2 ^ 16) (at (pre' ++ w) post' e'))
dec_length-enc_length n pre p c gap post pre' post' e e' h hg hp = (
  length_octets n,
  length-length_octets n h,
  enc_length-at n pre p c gap post e h hg hp,
  dec_length-length_octets pre' n post' e' h,
)
