-- ===== src/Ber/Integer/RoundTrip.antt =====
-- TnmBerEncInt followed by TnmBerDecInt.
use tkined_remix.Prelude.{
  ℕ, ◌+◌, ◌-◌, ◌%◌, ◌^◌, ◌≤◌, ◌<◌, List, [], ◌∷◌, ◌++◌, ◌≡◌, refl, arith, length, if◌then◌else◌,
  ◌==◌, true, All, ◌≢◌,
}
use tkined_remix.Ber.Stream.{Message, ok}
use tkined_remix.Ber.At.{at}
use tkined_remix.Ber.Length.Decode.{value_from, IsByte}
use tkined_remix.Ber.Integer.{enc_int, dec_int}
use tkined_remix.Ber.Integer.Encode.{
  int_size, low_octets, int_octets, int_encoding, enc_int-at, length-int_octets, int_size_cases,
}
use tkined_remix.Ber.Integer.Decode.{dec_int-fits, sign_fill, fits_int}

-- The pattern that the receiver sees: an INTEGER comes back, a value of another type keeps only
-- the octets that were sent.
unfoldable pub int_seen : ℕ → ℕ → ℕ
int_seen tag v = if tag == 2 then v else v % 256 ^ int_size v

int_octets-IsByte : (v : ℕ) → All IsByte (int_octets v)
unfolding int_octets int_size low_octets
int_octets-IsByte v = ground arith

int_octets-fits : (v b : ℕ) (w : List ℕ) → int_octets v ≡ b ∷ w → fits_int (length (b ∷ w)) b ≡ true
int_octets-fits v b w h = ground (arith, length-int_octets v, int_size_cases v)

int_octets-value :
    (tag v b : ℕ) (w : List ℕ)
    → v < 2 ^ 32
    → int_octets v ≡ b ∷ w
    → value_from (sign_fill tag b) (b ∷ w) % 2 ^ 32 ≡ int_seen tag v
unfolding int_octets int_size low_octets value_from int_seen
int_octets-value tag v b w hv h = ground arith

-- What TnmBerDecInt reads of what TnmBerEncInt wrote.
pub dec_int-encoding :
    (tag v : ℕ) (pre post : List ℕ) (e : Message)
    → v < 2 ^ 32
    → dec_int tag (at pre (int_encoding tag v ++ post) e)
      ≡ ok (int_seen tag v) (at (pre ++ int_encoding tag v) post e)
dec_int-encoding tag v pre post e hv = go (int_octets v) refl (length-int_octets v)
  where
    go :
        (w : List ℕ)
        → int_octets v ≡ w
        → length w ≡ int_size v
        → dec_int tag (at pre (tag ∷ int_size v ∷ w ++ post) e)
          ≡ ok (int_seen tag v) (at (pre ++ tag ∷ int_size v ∷ w) post e)
    go [] h l = absurd (omega (arith, int_size_cases v))
    go (b ∷ w) h l =
        rw (← l, ← int_octets-value tag v b w hv h)
          (dec_int-fits tag b w pre post e (rw h at (int_octets-IsByte v))
            (omega (arith, int_size_cases v)) (int_octets-fits v b w h))

-- Written into any buffer with room, and read back from any packet: the INTEGER as it was, a value
-- of an unsigned type as its lowest `int_size v` octets, the ones sent.
pub dec_int-enc_int :
    (tag v : ℕ) (pre gap post pre' post' : List ℕ) (e e' : Message)
    → v < 2 ^ 32
    → length gap ≡ int_size v + 2
    → (enc_int tag v (at pre (gap ++ post) e) ≡ ok tt (at (pre ++ int_encoding tag v) post e))
      × (dec_int tag (at pre' (int_encoding tag v ++ post') e')
          ≡ ok (int_seen tag v) (at (pre' ++ int_encoding tag v) post' e'))
dec_int-enc_int tag v pre gap post pre' post' e e' hv hg =
    (enc_int-at tag v pre gap post e hv hg, dec_int-encoding tag v pre' post' e' hv)

-- A value of an unsigned type whose pattern begins with nine ones, a Counter32 close to 2 ^ 32 for
-- one, is written in fewer than four octets and read back as another number.
pub dec_int-enc_int_lossy :
    (tag v : ℕ) (pre gap post pre' post' : List ℕ) (e e' : Message)
    → tag ≢ 2
    → 2 ^ 32 - 2 ^ 23 ≤ v
    → v < 2 ^ 32
    → length gap ≡ int_size v + 2
    → (seen : ℕ) × (seen ≢ v)
      × (enc_int tag v (at pre (gap ++ post) e) ≡ ok tt (at (pre ++ int_encoding tag v) post e))
      × (dec_int tag (at pre' (int_encoding tag v ++ post') e')
          ≡ ok seen (at (pre' ++ int_encoding tag v) post' e'))
dec_int-enc_int_lossy tag v pre gap post pre' post' e e' ht hl hv hg = (
  int_seen tag v,
  lossy,
  enc_int-at tag v pre gap post e hv hg,
  dec_int-encoding tag v pre' post' e' hv,
)
  where
    lossy : int_seen tag v ≢ v
    lossy = unfold int_seen int_size in ground arith
