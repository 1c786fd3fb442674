-- ===== src/Ber/Integer/Encode.antt =====
-- The octets that TnmBerEncInt writes: the shortest two's complement form of X.690.
use tkined_remix.Prelude.{
  ℕ, zero, suc, ◌+◌, ◌-◌, ◌*◌, ◌/◌, ◌%◌, ◌^◌, ◌≤◌, ◌<◌, List, [], ◌∷◌, ◌++◌, ◌≡◌, refl, ap, ◌∙◌,
  arith, length, append_assoc, append-nil, if◌then◌else◌, ltb, leb, ◌||◌,
}
use tkined_remix.Ber.Stream.{Message, ok, ◌>>◌}
use tkined_remix.Ber.At.{at, enc_byte-at}
use tkined_remix.Ber.Length.Encode.{enc_length-short}
use tkined_remix.Ber.Integer.{top_nine_alike, strip_loop, emit_loop, enc_int}

-- The number of octets that a pattern needs, by its value as a signed integer.
unfoldable pub int_size : ℕ → ℕ
int_size v =
    if ltb v (2 ^ 7) || leb (2 ^ 32 - 2 ^ 7) v
    then 1
    else if ltb v (2 ^ 15) || leb (2 ^ 32 - 2 ^ 15) v
    then 2
    else if ltb v (2 ^ 23) || leb (2 ^ 32 - 2 ^ 23) v
    then 3
    else 4

-- The last `k` octets of a pattern, the highest first.
unfoldable pub low_octets : ℕ → ℕ → List ℕ
low_octets zero v = []
low_octets (suc k) v = v / 256 ^ k % 256 ∷ low_octets k v

strip_loop-size : (v : ℕ) → v < 2 ^ 32 → (strip_loop 4 v).0 ≡ int_size v
unfolding strip_loop top_nine_alike int_size
strip_loop-size v h = ground arith

strip_loop-value : (v : ℕ) → v < 2 ^ 32 → (strip_loop 4 v).1 ≡ v * 256 ^ (4 - int_size v) % 2 ^ 32
unfolding strip_loop top_nine_alike int_size
strip_loop-value v h = ground arith

-- The octets that the second loop writes.
top_octets : ℕ → ℕ → List ℕ
top_octets zero v = []
top_octets (suc k) v = v / 2 ^ 24 ∷ top_octets k (v * 256 % 2 ^ 32)

emit_loop-at :
    (k v : ℕ) (pre gap post : List ℕ) (e : Message)
    → length gap ≡ k
    → emit_loop k v (at pre (gap ++ post) e) ≡ ok tt (at (pre ++ top_octets k v) post e)
unfolding emit_loop top_octets
emit_loop-at zero v pre [] post e h = rw append-nil
emit_loop-at zero v pre (g ∷ gap) post e h = absurd (omega arith)
emit_loop-at (suc k) v pre [] post e h = absurd (omega arith)
emit_loop-at (suc k) v pre (g ∷ gap) post e h =
    rw (enc_byte-at pre (v / 2 ^ 24) g (gap ++ post) e, ◌>>◌)
      (emit_loop-at k (v * 256 % 2 ^ 32) (pre ++ v / 2 ^ 24 ∷ []) gap post e (omega arith)
        ∙ ap (λ t. ok tt (at t post e)) (append_assoc pre (v / 2 ^ 24 ∷ []) _))

pub int_size_cases : (v : ℕ) → (1 ≤ int_size v) × (int_size v ≤ 4)
unfolding int_size
int_size_cases v = ground arith

top-low : (k v : ℕ) → 1 ≤ k → k ≤ 4 → top_octets k (v * 256 ^ (4 - k) % 2 ^ 32) ≡ low_octets k v
unfolding top_octets low_octets
top-low zero v h l = absurd (omega arith)
top-low (suc zero) v h l = ground arith
top-low (suc (suc zero)) v h l = ground arith
top-low (suc (suc (suc zero))) v h l = ground arith
top-low (suc (suc (suc (suc zero)))) v h l = ground arith
top-low (suc (suc (suc (suc (suc k))))) v h l = absurd (omega arith)

-- The content octets of an INTEGER, and the whole encoding.
unfoldable pub int_octets : ℕ → List ℕ
int_octets v = low_octets (int_size v) v

abbrev pub int_encoding : ℕ → ℕ → List ℕ
int_encoding tag v = tag ∷ int_size v ∷ int_octets v

length-low_octets : (k v : ℕ) → length (low_octets k v) ≡ k
unfolding low_octets
length-low_octets zero v = refl
length-low_octets (suc k) v = ap suc (length-low_octets k v)

pub length-int_octets : (v : ℕ) → length (int_octets v) ≡ int_size v
unfolding int_octets
length-int_octets v = length-low_octets (int_size v) v

emitted : (v : ℕ) → v < 2 ^ 32 → top_octets (strip_loop 4 v).0 (strip_loop 4 v).1 ≡ int_octets v
unfolding int_octets
emitted v h =
    rw (strip_loop-size v h, strip_loop-value v h)
      (top-low (int_size v) v (int_size_cases v).0 (int_size_cases v).1)

-- In a buffer with room TnmBerEncInt writes that encoding and nothing else.
pub enc_int-at :
    (tag v : ℕ) (pre gap post : List ℕ) (e : Message)
    → v < 2 ^ 32
    → length gap ≡ int_size v + 2
    → enc_int tag v (at pre (gap ++ post) e) ≡ ok tt (at (pre ++ int_encoding tag v) post e)
unfolding enc_int
enc_int-at tag v pre [] post e hv h = absurd (omega arith)
enc_int-at tag v pre (a ∷ []) post e hv h = absurd (omega (arith, int_size_cases v))
enc_int-at tag v pre (a ∷ b ∷ gap) post e hv h =
    rw (enc_byte-at pre tag a (b ∷ gap ++ post) e, ◌>>◌)
      (rw (enc_byte-at (pre ++ tag ∷ []) 0 b (gap ++ post) e, ◌>>◌)
        (rw
          (
            emit_loop-at (strip_loop 4 v).0 (strip_loop 4 v).1 ((pre ++ tag ∷ []) ++ 0 ∷ []) gap
                post e size,
            ◌>>◌,
          )
          (rw
            (append_assoc (pre ++ tag ∷ []) (0 ∷ [])
              (top_octets (strip_loop 4 v).0 (strip_loop 4 v).1))
            (rw (emitted v hv, strip_loop-size v hv)
              (enc_length-short (int_size v) (pre ++ tag ∷ []) 0 (int_octets v) post e
                  (omega (arith, int_size_cases v))
                ∙ ap (λ t. ok tt (at t post e))
                    (append_assoc pre (tag ∷ []) (int_size v ∷ int_octets v)))))))
  where
    size : length gap ≡ (strip_loop 4 v).0
    size = omega (arith, strip_loop-size v hv)
