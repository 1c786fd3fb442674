-- ===== src/Snmp/Queue/Pending.antt =====
-- The result of TnmSnmpQueueRequest of tnm/snmp/tnmSnmpUtil.c: the requests of the session.
use tkined_remix.Prelude.{
  ℕ, suc, ◌+◌, ◌-◌, List, [], ◌∷◌, ◌++◌, true, ◌≡◌, refl, arith, none, ◌==◌, ◌&&◌, ◌||◌,
  if◌then◌else◌, Bool-cases, inl, inr, ap, ◌∙◌,
}
use tkined_remix.Snmp.Queue.{
  Session, Request, Engine, update, contains, is_waiting, is_full, has_room, activated, transmit,
  activate, process_queue, append_request, queue_request, pending, count_active, count_waiting,
}
use tkined_remix.Snmp.Queue.Counts.{active_of, waiting_of}
use tkined_remix.Snmp.Queue.Invariant.{
  IsConsistent, process_queue-IsConsistent, append_request-IsConsistent,
}

-- The requests of a session in the queue, sent or not.
abbrev pub requests_of : ℕ → List Request → ℕ
requests_of k [] = 0
requests_of k (r ∷ rs) = if r.session == k then suc (requests_of k rs) else requests_of k rs

requests_of-sum : (k : ℕ) (rs : List Request) → requests_of k rs ≡ active_of k rs + waiting_of k rs
requests_of-sum k [] = refl
requests_of-sum k (r ∷ rs) = ground (arith, requests_of-sum k rs)

activate-requests_of :
    (w act wait : ℕ) (m : ℕ → Session) (rs : List Request) (k : ℕ)
    → requests_of k (activate w act wait m rs).queue ≡ requests_of k rs
unfolding activate transmit
activate-requests_of w act wait m [] k = refl
activate-requests_of w act wait m (r ∷ rs) k = elim (Bool-cases (wait == 0 || is_full w act)) [
  | inl stop ↦ rw (stop, activate) refl
  | inr on ↦ elim (Bool-cases (is_waiting r && has_room (m r.session))) [
    | inl ready ↦
        rw (on, ready, activate)
          (ap (λ n. if r.session == k then suc n else n)
            (activate-requests_of w (act + 1) (wait - 1)
              (update m r.session (activated (m r.session))) rs k))
    | inr busy ↦
        rw (on, busy, activate)
          (ap (λ n. if r.session == k then suc n else n) (activate-requests_of w act wait m rs k))
  ]
]

requests_of-snoc :
    (session : ℕ) (rs : List Request) (r : Request)
    → requests_of session (rs ++ (record r { session = session } ∷ []))
      ≡ suc (requests_of session rs)
requests_of-snoc session [] r = ground arith
requests_of-snoc session (q ∷ rs) r = ground (arith, requests_of-snoc session rs r)

pending-requests_of :
    (session : ℕ) (e : Engine)
    → contains session e.opened ≡ true
    → IsConsistent e
    → pending session e ≡ requests_of session e.queue
unfolding pending
pending-requests_of session e o h =
    let c = h.counted session o in
    omega (arith, c.active_right, c.waiting_right, requests_of-sum session e.queue)

-- When a request that was just made is queued for an open session while the counters are right, the
-- result of queue_request is the number of the requests of this session in the queue, which is one
-- more than before: activating requests neither drops nor doubles one.
pub queue_request-pending :
    (session : ℕ) (r : Request) (e : Engine)
    → contains session e.opened ≡ true
    → r.sends ≡ 0
    → r.timer ≡ none
    → IsConsistent e
    → (pending session (queue_request session r e) ≡ suc (requests_of session e.queue))
      × (requests_of session (queue_request session r e).queue ≡ suc (requests_of session e.queue))
unfolding queue_request
queue_request-pending session r e ho hs ht h = (
  pending-requests_of session (process_queue session e₁)
        (unfold process_queue in unfold append_request in ho)
        (process_queue-IsConsistent session e₁ (append_request-IsConsistent session r e ho hs ht h))
      ∙ kept,
  kept,
)
  where
    e₁ : Engine
    e₁ = append_request session r e

    kept : requests_of session (process_queue session e₁).queue ≡ suc (requests_of session e.queue)
    kept =
        unfold process_queue in
        unfold append_request in
        (activate-requests_of (e₁.memory session).window (count_active e₁.queue)
            (count_waiting e₁.queue) e₁.memory e₁.queue session
          ∙ requests_of-snoc session e.queue r)
