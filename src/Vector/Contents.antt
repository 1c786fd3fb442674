-- ===== src/Vector/Contents.antt =====
-- A vector as the list of its elements, with a null behind them.
use tkined_remix.Prelude.{
  ℕ, zero, suc, ◌+◌, ◌-◌, List, [], ◌∷◌, ◌++◌, Bool, true, false, some, ◌≡◌, refl, sym, ap, ◌∙◌,
  arith, ltb, ◌==◌, if◌then◌else◌, Bool-cases, inl, inr, length, length-append, set, set-append,
  append_assoc, lt→ltb,
}
use tkined_remix.Snmp.OidText.{cleared, put_front}
use tkined_remix.Snmp.OidObj.RoundTrip.{length-cleared}
use tkined_remix.Vector.{
  TnmVector, vector_static_size, copy_elements, grown, vector_add, shift, delete_loop,
  vector_delete,
}

-- The vector holds the list xs: behind its elements, the memory up to the space and one more is null.
pub record Holds (v : TnmVector) (xs : List ℕ) : Type 0 where
  pub free : ℕ
  pub memory : v.elements ≡ xs ++ cleared (suc free)
  pub sized : v.size ≡ length xs
  pub spaced : v.space_avl ≡ length xs + free

copy-nothing : (room : ℕ) (es : List ℕ) → copy_elements room 0 es ≡ cleared room
unfolding copy_elements
copy-nothing zero es = refl
copy-nothing (suc room) es = ap (λ t. 0 ∷ t) (copy-nothing room es)

copy-append :
    (xs es : List ℕ) (room : ℕ)
    → copy_elements (length xs + room) (length xs) (xs ++ es) ≡ xs ++ cleared room
unfolding copy_elements
copy-append [] es room =
    ap (λ n. copy_elements n 0 es) (let z : 0 + room ≡ room = omega arith in z)
    ∙ copy-nothing room es
copy-append (x ∷ xs) es room =
    let z : suc (length xs) + room ≡ suc (length xs + room) = omega arith in
    ap (λ n. copy_elements n (suc (length xs)) (x ∷ xs ++ es)) z
    ∙ ap (λ t. x ∷ t) (copy-append xs es room)

-- There is room for one more.
grown-Holds :
    (v : TnmVector) (xs : List ℕ)
    → Holds v xs
    → (k : ℕ) × ((grown v).elements ≡ xs ++ cleared (suc (suc k)))
      × ((grown v).size ≡ length xs)
      × ((grown v).space_avl ≡ length xs + suc k)
unfolding grown
grown-Holds v xs h = elim (Bool-cases (v.size == v.space_avl)) [
  | inl full ↦
      let room : v.space_avl + vector_static_size + 1 ≡ length xs + 9 = ground (arith, h.sized) in
      (
        7,
        rw (full, grown)
            (ap (λ n. copy_elements n v.size v.elements) room
              ∙ (ap (λ n. copy_elements (length xs + 9) n v.elements) h.sized
                  ∙ (ap (λ es. copy_elements (length xs + 9) (length xs) es) h.memory
                      ∙ copy-append xs (cleared (suc h.free)) 9))),
        rw (full, grown) h.sized,
        rw (full, grown) (ground (arith, h.sized)),
      )
  | inr more ↦
      let k : suc (h.free - 1) ≡ h.free = ground (arith, h.sized, h.spaced) in
      (
        h.free - 1,
        rw (more, grown) (h.memory ∙ ap (λ n. xs ++ cleared (suc n)) (sym k)),
        rw (more, grown) h.sized,
        rw (more, grown) (omega (arith, h.spaced)),
      )
]

-- A vector that holds a list holds the list with the new element behind it after vector_add, which
-- does not store behind the memory.
pub vector_add-Holds :
    (v : TnmVector) (xs : List ℕ) (x : ℕ)
    → Holds v xs
    → (v' : TnmVector) × (vector_add v x ≡ some v') × Holds v' (xs ++ x ∷ [])
unfolding vector_add
vector_add-Holds v xs x h =
    let (k, m, n, s) = grown-Holds v xs h in
    let g = grown v in
    let inside : ltb g.size (length g.elements) ≡ true = lt→ltb _ _ (
      omega (
        arith,
        n,
        ap (length {A = ℕ}) m,
        length-append xs (cleared (suc (suc k))),
        length-cleared (suc (suc k)),
      )) in
    let stored : set g.elements g.size x ≡ (xs ++ x ∷ []) ++ cleared (suc k) =
      ap (λ es. set es g.size x) m
      ∙ (set-append xs 0 (cleared (suc k)) x g.size n
          ∙ sym (append_assoc xs (x ∷ []) (cleared (suc k)))) in
    (
      record g { elements = set g.elements g.size x; size = g.size + 1 },
      rw (inside, vector_add) refl,
      record {
        free = k;
        memory = stored;
        sized = omega (arith, n, length-append xs (x ∷ []));
        spaced = omega (arith, s, length-append xs (x ∷ []));
      },
    )

-- The list without the first element that is x.
abbrev pub without : ℕ → List ℕ → List ℕ
without x [] = []
without x (y ∷ ys) = if y == x then ys else y ∷ without x ys

shift-append :
    (a : ℕ) (ys rest : List ℕ)
    → shift (suc (length ys)) (a ∷ ys ++ 0 ∷ rest) ≡ some (ys ++ 0 ∷ 0 ∷ rest)
unfolding shift
shift-append a [] rest = refl
shift-append a (y ∷ ys) rest = ap (put_front y) (shift-append y ys rest)

-- What the loops leave: the vector as it is, or one element less.
record IsDeleted (x k : ℕ) (xs : List ℕ) : Type 0 where
  found : Bool
  left : List ℕ
  loop : delete_loop x (length xs) (xs ++ cleared (suc k)) ≡ some (found, left)
  kept : found ≡ false → (left ≡ xs ++ cleared (suc k)) × (without x xs ≡ xs)
  moved :
      found ≡ true
      → (left ≡ without x xs ++ cleared (suc (suc k))) × (suc (length (without x xs)) ≡ length xs)

delete_loop-IsDeleted : (x k : ℕ) (xs : List ℕ) → IsDeleted x k xs
unfolding delete_loop
delete_loop-IsDeleted x k [] = record {
  found = false;
  left = cleared (suc k);
  loop = refl;
  kept = λ q. (refl, refl);
  moved = λ q. absurd (cc);
}
delete_loop-IsDeleted x k (y ∷ ys) = elim (Bool-cases (y == x)) [
  | inl e ↦ record {
    found = true;
    left = ys ++ 0 ∷ 0 ∷ cleared k;
    loop = rw (e, shift-append y ys (cleared k), delete_loop) refl;
    kept = λ q. absurd (cc);
    moved = λ q. (rw e refl, rw e refl);
  }
  | inr n ↦
      let ih = delete_loop-IsDeleted x k ys in
      record {
        found = ih.found;
        left = y ∷ ih.left;
        loop = rw (n, ih.loop, delete_loop) refl;
        kept = λ q. rw n (ap (λ t. y ∷ t) (ih.kept q).0, ap (λ t. y ∷ t) (ih.kept q).1);
        moved = λ q. rw n (ap (λ t. y ∷ t) (ih.moved q).0, ap suc (ih.moved q).1);
      }
]

-- A vector that holds a list holds the list without the first such element after vector_delete, or
-- the same list if there is none; no element behind the memory is read.
pub vector_delete-Holds :
    (v : TnmVector) (xs : List ℕ) (x : ℕ)
    → Holds v xs
    → (v' : TnmVector) × (vector_delete v x ≡ some v') × Holds v' (without x xs)
unfolding vector_delete
vector_delete-Holds v xs x h =
    let d = delete_loop-IsDeleted x h.free xs in
    let run : delete_loop x v.size v.elements ≡ some (d.found, d.left) =
      ap (λ n. delete_loop x n v.elements) h.sized
      ∙ (ap (delete_loop x (length xs)) h.memory ∙ d.loop) in
    elim (Bool-cases d.found) [
      | inl t ↦ (
        record v { elements = d.left; size = v.size - 1 },
        rw (run, t, vector_delete) refl,
        record {
          free = suc h.free;
          memory = (d.moved t).0;
          sized = omega (arith, h.sized, (d.moved t).1);
          spaced = omega (arith, h.spaced, (d.moved t).1);
        },
      )
      | inr f ↦ (
        record v { elements = d.left },
        rw (run, f, vector_delete) refl,
        record {
          free = h.free;
          memory = (d.kept f).0 ∙ ap (λ t. t ++ cleared (suc h.free)) (sym (d.kept f).1);
          sized = h.sized ∙ ap (length {A = ℕ}) (sym (d.kept f).1);
          spaced = omega (arith, h.spaced, ap (length {A = ℕ}) (d.kept f).1);
        },
      )
    ]
