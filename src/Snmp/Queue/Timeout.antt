-- ===== src/Snmp/Queue/Timeout.antt =====
-- The timers of the request queue: TnmSnmpTimeoutProc of tnm/snmp/tnmSnmpNet.c.
use tkined_remix.Prelude.{
  ℕ, ◌+◌, List, [], ◌∷◌, false, ◌≡◌, refl, arith, none, some, ltb, ◌==◌, Bool-cases, inl, inr, All,
  ap, ◌∙◌,
}
use tkined_remix.Snmp.Queue.{
  Session, Request, Engine, is_waiting, transmit, find_address, replace, timeout_proc,
}
use tkined_remix.Snmp.Queue.Counts.{active_of, waiting_of}
use tkined_remix.Snmp.Queue.Invariant.{
  IsSound, IsConsistent, delete_request-IsConsistent, find-IsSound,
}

pub find_address-address :
    (a : ℕ) (rs : List Request) (r : Request) → find_address a rs ≡ some r → r.address ≡ a
unfolding find_address
find_address-address a [] r h = absurd (cc)
find_address-address a (q ∷ rs) r h = ground (arith, find_address-address a rs r)

-- A request that is sent again was counted as active before.
replace-counts :
    (k : ℕ) (rs : List Request) (r : Request) (s : Session)
    → find_address r.address rs ≡ some r
    → is_waiting r ≡ false
    → (active_of k (replace (transmit s r) rs) ≡ active_of k rs)
      × (waiting_of k (replace (transmit s r) rs) ≡ waiting_of k rs)
unfolding find_address replace transmit
replace-counts k [] r s f h = absurd (cc)
replace-counts k (q ∷ rs) r s f h = elim (Bool-cases (q.address == r.address)) [
  | inl e ↦ (let same : q ≡ r = ground arith in rw (e, replace) (rw same (ground arith)))
  | inr e ↦ rw (e, replace) (ground (arith, replace-counts k rs r s))
]

replace-IsSound :
    (opened : List ℕ) (r : Request) (rs : List Request)
    → IsSound opened r
    → All (IsSound opened) rs
    → All (IsSound opened) (replace r rs)
unfolding replace
replace-IsSound opened r [] hr h = h
replace-IsSound opened r (q ∷ rs) hr h = elim (Bool-cases (q.address == r.address)) [
  | inl e ↦ rw e (hr, h.1)
  | inr e ↦ rw e (h.0, replace-IsSound opened r rs hr h.1)
]

-- The timer of a request runs out: only requests that were sent have one.
pub timeout_proc-IsConsistent :
    (a : ℕ) (e : Engine) (r : Request) (d : ℕ)
    → find_address a e.queue ≡ some r
    → r.timer ≡ some d
    → IsConsistent e
    → IsConsistent (timeout_proc a e)
unfolding timeout_proc
timeout_proc-IsConsistent a e r d f ht h =
    elim (Bool-cases (ltb r.sends (1 + (e.memory r.session).retries))) [
      | inl again ↦
          rw (f, again, timeout_proc)
            (record {
              sound = replace-IsSound e.opened _ e.queue again-IsSound h.sound;
              distinct = h.distinct;
              counted = λ k o.
                  let c = h.counted k o in
                  let b =
                    replace-counts k e.queue r (e.memory r.session)
                      (ap (λ x. find_address x e.queue) same ∙ f) was_sent in
                  record {
                    active_right = omega (arith, b, c);
                    waiting_right = omega (arith, b, c);
                  };
            })
      | inr over ↦ rw (f, over, timeout_proc) (delete_request-IsConsistent a e h)
    ]
  where
    good : IsSound e.opened r
    good = find-IsSound e.opened a e.queue r h.sound f

    same : r.address ≡ a
    same = find_address-address a e.queue r f

    was_sent : is_waiting r ≡ false
    was_sent = elim (Bool-cases (is_waiting r)) [
      | inl w ↦ absurd (let q : some d ≡ none = ground (arith, good.timed w) in cc)
      | inr n ↦ n
    ]

    again-IsSound : IsSound e.opened (transmit (e.memory r.session) r)
    again-IsSound =
        unfold transmit in
        record { owned = good.owned; timed = λ q. absurd (ground arith); armed = λ q. (_, refl) }
