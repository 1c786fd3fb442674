-- ===== src/Snmp/Queue/Ids.antt =====
-- The identifiers that TnmSnmpGetRequestId of tnm/snmp/tnmSnmpUtil.c finds.
use tkined_remix.Prelude.{
  ℕ, suc, ◌≤◌, ◌<◌, List, [], ◌∷◌, true, ◌≡◌, refl, arith, none, some, ◌==◌, Bool-cases, inl, inr,
  Option-cases, length,
}
use tkined_remix.Snmp.Queue.{Request, contains, remove, find_request, get_request_id}
use tkined_remix.Snmp.Queue.Invariant.{AreDistinct}
use tkined_remix.Snmp.Queue.Reach.{contains-remove_self, remove-AreDistinct}

length-remove : (k : ℕ) (ks : List ℕ) → length ks ≤ suc (length (remove k ks))
unfolding remove
length-remove k [] = omega arith
length-remove k (j ∷ ks) = ground (arith, length-remove k ks)

contains-remove_back :
    (j k : ℕ) (ks : List ℕ) → contains j (remove k ks) ≡ true → contains j ks ≡ true
unfolding contains remove
contains-remove_back j k [] h = h
contains-remove_back j k (i ∷ ks) h = ground (arith, contains-remove_back j k ks)

-- More numbers than requests: one is no identifier.
fresh :
    (draws : List ℕ) (rs : List Request)
    → AreDistinct draws
    → length rs < length draws
    → (n : ℕ) × (contains n draws ≡ true) × (find_request n rs ≡ none)
unfolding contains find_request
fresh [] [] d h = absurd (omega arith)
fresh (n ∷ draws) [] d h = (n, ground arith, refl)
fresh draws (r ∷ rs) d h =
    let (n, i, f) =
      fresh (remove r.id draws) rs (remove-AreDistinct r.id draws d)
        (omega (arith, length-remove r.id draws)) in
    (
      n,
      contains-remove_back n r.id draws i,
      elim (Bool-cases (r.id == n)) [
        | inl e ↦ absurd (ground (arith, contains-remove_self r.id draws d))
        | inr e ↦ rw e f
      ],
    )

stops :
    (n : ℕ) (draws : List ℕ) (rs : List Request)
    → contains n draws ≡ true
    → find_request n rs ≡ none
    → (m : ℕ) × (get_request_id draws rs ≡ some m) × (find_request m rs ≡ none)
unfolding contains get_request_id
stops n [] rs i f = absurd (cc)
stops n (d ∷ draws) rs i f = elim (Option-cases (find_request d rs)) [
  | inl new ↦ (d, rw (new, get_request_id) refl, new)
  | inr (r, used) ↦
      let (m, g, q) = stops n draws rs (ground (arith, used)) f in
      (m, rw (used, get_request_id) g, q)
]

-- When more different numbers than there are requests are among those that rand() returns, in any
-- order and with repeats, the search for an identifier ends, and no request in the queue has the
-- identifier that it returns.
pub get_request_id-fresh :
    (draws ns : List ℕ) (rs : List Request)
    → AreDistinct ns
    → length rs < length ns
    → ((n : ℕ) → contains n ns ≡ true → contains n draws ≡ true)
    → (m : ℕ) × (get_request_id draws rs ≡ some m) × (find_request m rs ≡ none)
get_request_id-fresh draws ns rs d h among =
    let (n, i, f) = fresh ns rs d h in stops n draws rs (among n i) f
