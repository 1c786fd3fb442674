-- ===== src/Ber/Tests.antt =====
-- Runs of the BER functions on concrete packets, and the theorems about them at concrete inputs.
use tkined_remix.Prelude.{ℕ, zero, suc, List, [], ◌∷◌, ◌++◌, ◌≡◌, ◌≢◌, inr, refl, arith, length}
use tkined_remix.Ber.Stream.{Ber, Message, ok, null, fault, no_message}
use tkined_remix.Ber.At.{at}
use tkined_remix.Ber.Length.{enc_length, dec_length}
use tkined_remix.Ber.Length.Encode.{length_octets, enc_length-at}
use tkined_remix.Ber.Length.Decode.{value_from, dec_length_large}
use tkined_remix.Ber.Length.RoundTrip.{dec_length-enc_length}
use tkined_remix.Ber.Integer.{enc_int, dec_int}
use tkined_remix.Ber.Integer.Encode.{int_encoding, int_size, int_octets, low_octets}
use tkined_remix.Ber.Integer.RoundTrip.{int_seen, dec_int-enc_int, dec_int-enc_int_lossy}
use tkined_remix.Ber.Octets.{enc_octet_string, dec_octet_string}
use tkined_remix.Ber.Octets.RoundTrip.{octets_encoding, dec_octet_string-enc_octet_string}
use tkined_remix.Ber.Sequence.{enc_sequence_end, dec_sequence_start, dec_sequence_end}
use tkined_remix.Ber.Sequence.RoundTrip.{sequence_framing}
use tkined_remix.Ber.Oid.{enc_oid, dec_oid}
use tkined_remix.Ber.Oid.Encode.{subid_octets, content_octets, packed_encoding}
use tkined_remix.Ber.Oid.RoundTrip.{dec_oid-enc_oid, dec_oid_overrun}

abbrev zeros : ℕ → List ℕ
zeros zero = []
zeros (suc n) = 0 ∷ zeros n

abbrev start : Message
start = no_message

dec_length_large_example :
    (t : Ber) × (dec_length (at [] (0x84 ∷ 0x80 ∷ 0 ∷ 0 ∷ 0 ∷ []) start) ≡ null t)
unfolding value_from
dec_length_large_example =
    dec_length_large [] (0x80 ∷ 0 ∷ 0 ∷ 0 ∷ []) [] start (omega arith) (omega arith) (omega arith)

enc_length-at_example :
    enc_length 0 200 (at (0 ∷ 7 ∷ []) (9 ∷ 8 ∷ []) start)
    ≡ ok tt (at (length_octets 200 ++ (7 ∷ [])) (8 ∷ []) start)
enc_length-at_example =
    enc_length-at 200 [] 0 (7 ∷ []) (9 ∷ []) (8 ∷ []) start (omega arith) refl (λ h. omega arith)

dec_length-enc_length_example :
    (w : List ℕ) × (length w ≡ 4)
    × (enc_length 0 0x1_0001 (at (0 ∷ 7 ∷ []) (9 ∷ 9 ∷ 9 ∷ 8 ∷ []) start)
        ≡ ok tt (at (w ++ (7 ∷ [])) (8 ∷ []) start))
    × (dec_length (at [] (w ++ (5 ∷ [])) start) ≡ ok 1 (at w (5 ∷ []) start))
dec_length-enc_length_example =
    dec_length-enc_length 0x1_0001 [] 0 (7 ∷ []) (9 ∷ 9 ∷ 9 ∷ []) (8 ∷ []) [] (5 ∷ []) start start
      (omega arith) refl (λ h. omega arith)

-- -129 takes two octets.
dec_int-enc_int_example :
    (enc_int 2 0xffff_ff7f (at [] (zeros 4 ++ []) start)
      ≡ ok tt (at (int_encoding 2 0xffff_ff7f) [] start))
    × (dec_int 2 (at [] (int_encoding 2 0xffff_ff7f ++ []) start)
        ≡ ok (int_seen 2 0xffff_ff7f) (at (int_encoding 2 0xffff_ff7f) [] start))
unfolding int_size
dec_int-enc_int_example =
    dec_int-enc_int 2 0xffff_ff7f [] (zeros 4) [] [] [] start start (omega arith) refl

-- The Counter32 4294967295 is sent as one octet.
dec_int-enc_int_lossy_example :
    (seen : ℕ) × (seen ≢ 0xffff_ffff)
    × (enc_int 0x41 0xffff_ffff (at [] (zeros 3 ++ []) start)
        ≡ ok tt (at (int_encoding 0x41 0xffff_ffff) [] start))
    × (dec_int 0x41 (at [] (int_encoding 0x41 0xffff_ffff ++ []) start)
        ≡ ok seen (at (int_encoding 0x41 0xffff_ffff) [] start))
unfolding int_size
dec_int-enc_int_lossy_example =
    dec_int-enc_int_lossy 0x41 0xffff_ffff [] (zeros 3) [] [] [] start start (λ q. omega arith)
      (omega arith) (omega arith) refl

counter_octets : int_encoding 0x41 0xffff_ffff ≡ 0x41 ∷ 1 ∷ 0xff ∷ []
unfolding int_octets int_size low_octets
counter_octets = refl

octet_string_example :
    (enc_octet_string 4 (1 ∷ 2 ∷ []) (at [] (zeros 4 ++ []) start)
      ≡ ok tt (at (octets_encoding 4 (1 ∷ 2 ∷ [])) [] start))
    × (dec_octet_string 4 (at [] (octets_encoding 4 (1 ∷ 2 ∷ []) ++ (7 ∷ [])) start)
        ≡ ok (1 ∷ 2 ∷ []) (at (octets_encoding 4 (1 ∷ 2 ∷ [])) (7 ∷ []) start))
octet_string_example =
    dec_octet_string-enc_octet_string 4 (1 ∷ 2 ∷ []) [] (zeros 4) [] [] (7 ∷ []) start start
      (omega arith) refl (λ h. absurd (omega arith))

sequence_example :
    let head = 0x30 ∷ length_octets 2 in
    let token = length head in
    (enc_sequence_end 1 (at (0x30 ∷ 0 ∷ 5 ∷ 0 ∷ []) ([] ++ []) start)
      ≡ ok tt (at (head ++ (5 ∷ 0 ∷ [])) [] start))
    × (dec_sequence_start 0x30 (at [] (head ++ ((5 ∷ 0 ∷ []) ++ [])) start)
        ≡ ok (token, 2) (at head (5 ∷ 0 ∷ []) start))
    × (dec_sequence_end token 2 (at (head ++ (5 ∷ 0 ∷ [])) [] start)
        ≡ ok tt (at (head ++ (5 ∷ 0 ∷ [])) [] start))
sequence_example =
    sequence_framing 0x30 (5 ∷ 0 ∷ []) [] [] [] [] [] start start (omega arith) refl
      (λ h. absurd (omega arith))

dec_oid-enc_oid_example :
    let w = packed_encoding (43 ∷ 6 ∷ 300 ∷ []) in
    (enc_oid (1 ∷ 3 ∷ 6 ∷ 300 ∷ []) (at [] (zeros 6 ++ []) start) ≡ ok tt (at w [] start))
    × (dec_oid (0 ∷ 0 ∷ 0 ∷ 0 ∷ 0 ∷ []) (at [] (w ++ []) start)
        ≡ ok (1 ∷ 3 ∷ 6 ∷ 300 ∷ 0 ∷ [], 4) (at w [] start))
unfolding content_octets subid_octets
dec_oid-enc_oid_example =
    dec_oid-enc_oid 1 3 (6 ∷ 300 ∷ []) 0 0 (0 ∷ 0 ∷ []) (0 ∷ []) [] (zeros 6) [] [] [] start start
      (omega arith) (inr (omega arith)) (omega arith) refl (omega arith) refl
      (λ h. absurd (omega arith))

dec_oid_overrun_example :
    dec_oid (zeros 128) (at [] (packed_encoding (zeros 128) ++ []) start) ≡ fault
unfolding content_octets subid_octets
dec_oid_overrun_example =
    dec_oid_overrun (zeros 128) (zeros 128) [] [] start (omega arith) refl (omega arith)
      (omega arith)
