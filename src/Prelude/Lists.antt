-- ===== src/Prelude/Lists.antt =====
-- Lists measured and indexed by native numbers: the memory of a buffer or an array.
use Prim.Native.Nat.{ℕ, zero, suc, ◌+◌, ◌≤◌}
use mathlib.Core.Path.{◌≡◌, refl, ap}
use mathlib.Core.List.{List, [], ◌∷◌, ◌++◌}
use native.Mathlib.Omega.{arith}

module _ {ℓ} {A : Type ℓ} where
  abbrev pub length : List A → ℕ
  length [] = 0
  length (x ∷ xs) = suc (length xs)

  abbrev pub get_or : List A → ℕ → A → A
  get_or [] i d = d
  get_or (x ∷ xs) zero d = x
  get_or (x ∷ xs) (suc i) d = get_or xs i d

  -- A write out of bounds changes nothing.
  abbrev pub set : List A → ℕ → A → List A
  set [] i v = []
  set (x ∷ xs) zero v = v ∷ xs
  set (x ∷ xs) (suc i) v = x ∷ set xs i v

  abbrev pub take : ℕ → List A → List A
  take zero xs = []
  take (suc n) [] = []
  take (suc n) (x ∷ xs) = x ∷ take n xs

  abbrev pub drop : ℕ → List A → List A
  drop zero xs = xs
  drop (suc n) [] = []
  drop (suc n) (x ∷ xs) = drop n xs

  pub length-append : (xs ys : List A) → length (xs ++ ys) ≡ length xs + length ys
  length-append [] ys = omega arith
  length-append (x ∷ xs) ys = omega (arith, length-append xs ys)

  pub length-set : (xs : List A) (i : ℕ) (v : A) → length (set xs i v) ≡ length xs
  length-set [] i v = refl
  length-set (x ∷ xs) zero v = refl
  length-set (x ∷ xs) (suc i) v = ap suc (length-set xs i v)

  abbrev pub All {κ} : (A → Type κ) → List A → Type κ
  All P [] = Unit {κ}
  All P (x ∷ xs) = P x × All P xs

module _ {ℓ} {A : Type ℓ} where
  pub get_or-append_length :
      (pre : List A) (x : A) (post : List A) (d : A) → get_or (pre ++ x ∷ post) (length pre) d ≡ x
  get_or-append_length [] x post d = refl
  get_or-append_length (y ∷ pre) x post d = get_or-append_length pre x post d

  pub set-append_length :
      (pre : List A) (x : A) (post : List A) (v : A)
      → set (pre ++ x ∷ post) (length pre) v ≡ pre ++ v ∷ post
  set-append_length [] x post v = refl
  set-append_length (y ∷ pre) x post v = ap (λ t. y ∷ t) (set-append_length pre x post v)

  pub take-append_length : (pre post : List A) → take (length pre) (pre ++ post) ≡ pre
  take-append_length [] post = refl
  take-append_length (y ∷ pre) post = ap (λ t. y ∷ t) (take-append_length pre post)

  pub drop-append_length : (pre post : List A) → drop (length pre) (pre ++ post) ≡ post
  drop-append_length [] post = refl
  drop-append_length (y ∷ pre) post = drop-append_length pre post

  -- A list that is not empty ends in an element.
  pub snoc_view :
      (xs : List A) (n : ℕ)
      → length xs ≡ suc n
      → (ys : List A) × (y : A) × (length ys ≡ n) × (xs ≡ ys ++ y ∷ [])
  snoc_view [] n h = absurd (omega arith)
  snoc_view (x ∷ []) n h = ([], x, omega arith, refl)
  snoc_view (x ∷ z ∷ xs) zero h = absurd (omega arith)
  snoc_view (x ∷ z ∷ xs) (suc n) h =
      let (ys, y, e, p) = snoc_view (z ∷ xs) n (omega arith) in
      (x ∷ ys, y, omega arith, ap (λ t. x ∷ t) p)

  -- The first n elements, and the rest, of a list that has them.
  pub split_at :
      (n : ℕ) (xs : List A)
      → n ≤ length xs
      → (ys : List A) × (zs : List A) × (length ys ≡ n) × (xs ≡ ys ++ zs)
  split_at zero xs h = ([], xs, refl, refl)
  split_at (suc n) [] h = absurd (omega arith)
  split_at (suc n) (x ∷ xs) h =
      let (ys, zs, e, p) = split_at n xs (omega arith) in
      (x ∷ ys, zs, omega arith, ap (λ t. x ∷ t) p)

  pub get_or-append :
      (pre : List A) (x : A) (post : List A) (d : A) (i : ℕ)
      → i ≡ length pre
      → get_or (pre ++ x ∷ post) i d ≡ x
  get_or-append pre x post d i h = rw h (get_or-append_length pre x post d)

  pub set-append :
      (pre : List A) (x : A) (post : List A) (v : A) (i : ℕ)
      → i ≡ length pre
      → set (pre ++ x ∷ post) i v ≡ pre ++ v ∷ post
  set-append pre x post v i h = rw h (set-append_length pre x post v)
