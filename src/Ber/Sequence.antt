-- ===== src/Ber/Sequence.antt =====
-- SEQUENCE and SEQUENCE OF in tnm/snmp/tnmAsn1.c. A token is a position in the packet.
pub mod RoundTrip
use tkined_remix.Prelude.{ℕ, ◌+◌, ◌-◌, ltb, ◌==◌, if◌then◌else◌}
use tkined_remix.Ber.Stream.{
  M, pure, fail_with, ◌>>=◌, ◌>>◌, enc_byte, position, expect_tag, sequence_underflow,
  sequence_overflow,
}
use tkined_remix.Ber.Length.{enc_length, dec_length}

unfoldable pub enc_sequence_start : ℕ → M ℕ
enc_sequence_start tag = do enc_byte tag; token ← position; enc_byte 0; pure token

unfoldable pub enc_sequence_end : ℕ → M (Unit {0})
enc_sequence_end token = do current ← position; enc_length token (current - (token + 1))

-- The token and the length.
unfoldable pub dec_sequence_start : ℕ → M (ℕ × ℕ)
dec_sequence_start tag = do expect_tag tag; len ← dec_length; token ← position; pure (token, len)

unfoldable pub dec_sequence_end : ℕ → ℕ → M (Unit {0})
dec_sequence_end token length = do
  current ← position
  if length == current - token
      then pure tt
      else if ltb (current - token) length
      then fail_with (sequence_underflow current (length - (current - token)))
      else fail_with (sequence_overflow current (current - token - length))
