-- ===== src/Ber/Length/Shift.antt =====
-- The loop of TnmBerEncLength that moves the content up makes a gap behind the length octet.
use tkined_remix.Prelude.{
  ℕ, zero, suc, ◌+◌, List, [], ◌∷◌, ◌++◌, ◌≡◌, refl, sym, ap, ◌∙◌, ◌∙◌, arith, length,
  length-append, get_or, set, append_assoc, snoc_view, get_or-append, set-append,
}
use tkined_remix.Ber.Length.{shift_loop}

-- One round: the last byte of the content goes to the last cell of the gap.
shift_round :
    (pre : List ℕ) (p : ℕ) (c : List ℕ) (x : ℕ) (gap : List ℕ) (g : ℕ) (post : List ℕ) (i d : ℕ)
    → length c ≡ i
    → length gap + 1 ≡ d
    → shift_loop (suc i) d (length pre) (pre ++ p ∷ ((c ++ x ∷ []) ++ ((gap ++ g ∷ []) ++ post)))
      ≡ shift_loop i d (length pre) (pre ++ p ∷ (c ++ ((x ∷ gap) ++ (x ∷ post))))
unfolding shift_loop
shift_round pre p c x gap g post i d hi hd =
    rw (read, written) (ap (shift_loop i d (length pre)) regroup)
  where
    mem : List ℕ
    mem = pre ++ p ∷ ((c ++ x ∷ []) ++ ((gap ++ g ∷ []) ++ post))

    at_read : mem ≡ (pre ++ p ∷ c) ++ x ∷ (gap ++ g ∷ post)
    at_read = simp append_assoc

    at_last : mem ≡ (pre ++ p ∷ (c ++ x ∷ gap)) ++ g ∷ post
    at_last = simp append_assoc

    read : get_or mem (length pre + suc i) 0 ≡ x
    read = rw at_read (
        get_or-append (pre ++ p ∷ c) x (gap ++ g ∷ post) 0 (length pre + suc i)
          (omega (arith, length-append pre (p ∷ c))))

    written : set mem (length pre + suc i + d) x ≡ (pre ++ p ∷ (c ++ x ∷ gap)) ++ x ∷ post
    written = rw at_last (
        set-append (pre ++ p ∷ (c ++ x ∷ gap)) g post x (length pre + suc i + d)
          (omega (arith, length-append pre (p ∷ (c ++ x ∷ gap)), length-append c (x ∷ gap))))

    regroup :
        ((pre ++ p ∷ (c ++ x ∷ gap)) ++ x ∷ post) ≡ pre ++ p ∷ (c ++ ((x ∷ gap) ++ (x ∷ post)))
    regroup = simp append_assoc

regroup :
    (pre : List ℕ) (p : ℕ) (left c : List ℕ) (x : ℕ) (post : List ℕ)
    → pre ++ p ∷ (left ++ (c ++ x ∷ post)) ≡ pre ++ p ∷ (left ++ ((c ++ x ∷ []) ++ post))
regroup pre p left c x post = simp append_assoc

-- What stands in the gap after the move.
pub shift_loop-append :
    (i d : ℕ) (pre : List ℕ) (p : ℕ) (c gap post : List ℕ)
    → length c ≡ i
    → length gap ≡ suc d
    → (left : List ℕ) × (length left ≡ suc d)
      × (shift_loop i (suc d) (length pre) (pre ++ p ∷ (c ++ (gap ++ post)))
          ≡ pre ++ p ∷ (left ++ (c ++ post)))
shift_loop-append zero d pre p [] gap post hc hg = (gap, hg, unfold shift_loop in refl)
shift_loop-append zero d pre p (x ∷ c) gap post hc hg = absurd (omega arith)
shift_loop-append (suc i) d pre p c gap post hc hg =
    let (c', x, hc', ec) = snoc_view c i hc in
    let (gap', g, hg', eg) = snoc_view gap d hg in
    let (left, hl, e) = shift_loop-append i d pre p c' (x ∷ gap') (x ∷ post) hc' (ap suc hg') in
    (
      left,
      hl,
      ap (λ t. shift_loop (suc i) (suc d) (length pre) (pre ++ p ∷ (t ++ (gap ++ post)))) ec
          ∙ ap
              (λ t.
                shift_loop (suc i) (suc d) (length pre)
                  (pre ++ p ∷ ((c' ++ x ∷ []) ++ (t ++ post))))
              eg
          ∙ shift_round pre p c' x gap' g post i (suc d) hc' (omega arith)
          ∙ e
          ∙ regroup pre p left c' x post
          ∙ ap (λ t. pre ++ p ∷ (left ++ (t ++ post))) (sym ec),
    )
