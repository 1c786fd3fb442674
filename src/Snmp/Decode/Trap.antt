-- ===== src/Snmp/Decode/Trap.antt =====
-- The identifier of an enterprise specific SNMPv1 trap: DecodePDU of tnm/snmp/tnmSnmpRecv.c.
use tkined_remix.Prelude.{
  ℕ, ◌+◌, ◌<◌, ◌≤◌, List, [], ◌∷◌, ◌++◌, ◌≡◌, refl, sym, ap, ◌∙◌, arith, length, length-append,
  append_assoc, take-append_length, set-append, length-set, ltb→ge, true, lt→ltb, ge→ltb, ltb,
  Bool-cases, inl, inr, set, take,
}
use tkined_remix.Ber.Stream.{Ber, ok, fault, ◌>>=◌}
use tkined_remix.Ber.Oid.{store}
use tkined_remix.Snmp.Decode.{trap_oid}

store-there :
    (ys : List ℕ) (a v : ℕ) (zs : List ℕ) (i : ℕ) (s : Ber)
    → i ≡ length ys
    → store (ys ++ a ∷ zs) i v s ≡ ok (ys ++ v ∷ zs) s
unfolding store
store-there ys a v zs i s h =
    rw (lt→ltb i (length (ys ++ a ∷ zs)) (omega (arith, length-append ys (a ∷ zs))))
      (rw (set-append ys a zs v i h) refl)

-- The second element behind `ys`.
store-next :
    (ys : List ℕ) (x a v : ℕ) (zs : List ℕ) (s : Ber)
    → store (ys ++ x ∷ a ∷ zs) (length ys + 1) v s ≡ ok (ys ++ x ∷ v ∷ zs) s
store-next ys x a v zs s =
    ap (λ t. store t (length ys + 1) v s) (sym (append_assoc ys (x ∷ []) (a ∷ zs)))
    ∙ store-there (ys ++ x ∷ []) a v zs (length ys + 1) s (omega (arith, length-append ys (x ∷ [])))
    ∙ ap (λ t. ok t s) (append_assoc ys (x ∷ []) (v ∷ zs))

take_two :
    (ys : List ℕ) (x y : ℕ) (zs : List ℕ)
    → take (length ys + 2) (ys ++ x ∷ y ∷ zs) ≡ ys ++ x ∷ y ∷ []
take_two ys x y zs =
    let front = ys ++ x ∷ y ∷ [] in
    let size : length ys + 2 ≡ length front = omega (arith, length-append ys (x ∷ y ∷ [])) in
    ap (take (length ys + 2)) (sym (append_assoc ys (x ∷ y ∷ []) zs))
    ∙ ap (λ n. take n (front ++ zs)) size
    ∙ take-append_length front zs

store-behind : (oid : List ℕ) (i v : ℕ) (s : Ber) → length oid ≤ i → store oid i v s ≡ fault
unfolding store
store-behind oid i v s h = rw (ge→ltb i (length oid) h) refl

store-fits :
    (oid : List ℕ) (i v : ℕ) (s : Ber)
    → ltb i (length oid) ≡ true
    → store oid i v s ≡ ok (set oid i v) s
unfolding store
store-fits oid i v s h = rw h refl

-- With two elements of the array behind the enterprise, the identifier of an enterprise specific
-- trap is the enterprise, 0 and the specific number, as RFC 1908 has it.
pub trap_oid-enterprise :
    (generic specific : ℕ) (enterprise : List ℕ) (a b : ℕ) (rest : List ℕ) (s : Ber)
    → 6 ≤ generic
    → trap_oid generic specific (enterprise ++ a ∷ b ∷ rest) (length enterprise) s
      ≡ ok (enterprise ++ 0 ∷ specific ∷ [], enterprise ++ 0 ∷ specific ∷ rest) s
unfolding trap_oid
trap_oid-enterprise generic specific enterprise a b rest s h = rw (ge→ltb generic 6 h) (
    rw (store-there enterprise a 0 (b ∷ rest) (length enterprise) s refl, ◌>>=◌)
      (rw (store-next enterprise 0 b specific rest s, ◌>>=◌)
        (ap (λ t. ok (t, enterprise ++ 0 ∷ specific ∷ rest) s)
          (take_two enterprise 0 specific rest))))

-- With fewer, the array is overrun: TnmBerDecOID admits identifiers that fill it.
pub trap_oid_overrun :
    (generic specific : ℕ) (oid : List ℕ) (n : ℕ) (s : Ber)
    → 6 ≤ generic
    → length oid < n + 2
    → trap_oid generic specific oid n s ≡ fault
unfolding trap_oid
trap_oid_overrun generic specific oid n s h l =
    rw (ge→ltb generic 6 h) (elim (Bool-cases (ltb n (length oid))) [
      | inl r ↦
          rw (store-fits oid n 0 s r, ◌>>=◌)
            (rw
              (
                store-behind (set oid n 0) (n + 1) specific s (omega (arith, length-set oid n 0)),
                ◌>>=◌,
              )
              refl)
      | inr r ↦ rw (store-behind oid n 0 s (ltb→ge n (length oid) r), ◌>>=◌) refl
    ])
