-- ===== src/Snmp/Queue/Order.antt =====
-- The requests of one session are served first come, first served: TnmSnmpQueueRequest of
-- tnm/snmp/tnmSnmpUtil.c as the removal of the first elements of a queue.
use tkined_remix.Prelude.{
  ℕ, ◌+◌, ◌-◌, List, [], ◌∷◌, ◌++◌, false, ◌≡◌, refl, sym, ◌∙◌, arith, ◌==◌, ◌&&◌, ◌||◌,
  if◌then◌else◌, Bool-cases, inl, inr, length,
}
use tkined_remix.Snmp.Queue.{
  Session, Request, Engine, update, is_waiting, is_full, has_room, activated, transmit, activate,
  process_queue, append_request, queue_request, count_active, count_waiting,
}
use tkined_remix.Snmp.Queue.Counts.{active_of}

-- The abstract queue of a session: the addresses of its requests that were not sent, in order.
abbrev pub waiting_list : ℕ → List Request → List ℕ
waiting_list k [] = []
waiting_list k (r ∷ rs) =
    if r.session == k && is_waiting r then r.address ∷ waiting_list k rs else waiting_list k rs

-- A session without room gets none during the loop.
activate-no_room :
    (w act wait : ℕ) (m : ℕ → Session) (rs : List Request) (k : ℕ)
    → has_room (m k) ≡ false
    → (waiting_list k (activate w act wait m rs).queue ≡ waiting_list k rs)
      × (active_of k (activate w act wait m rs).queue ≡ active_of k rs)
unfolding activate transmit
activate-no_room w act wait m [] k h = (refl, refl)
activate-no_room w act wait m (r ∷ rs) k h = elim (Bool-cases (wait == 0 || is_full w act)) [
  | inl stop ↦ rw (stop, activate) (refl, refl)
  | inr on ↦ elim (Bool-cases (is_waiting r && has_room (m r.session))) [
    | inl ready ↦
        let other : (r.session == k) ≡ false = ground arith in
        let back : (k == r.session) ≡ false = ground arith in
        let ih =
          activate-no_room w (act + 1) (wait - 1) (update m r.session (activated (m r.session))) rs
            k (rw back h) in
        rw (on, ready, activate) (rw other ih)
    | inr busy ↦
        let ih = activate-no_room w act wait m rs k h in
        rw (on, busy, activate) (rw (ih.0, ih.1) (refl, refl))
  ]
]

-- What is activated of a session is the front of its queue, and is counted as active.
activate-front :
    (w act wait : ℕ) (m : ℕ → Session) (rs : List Request) (k : ℕ)
    → (front : List ℕ) × (waiting_list k rs
        ≡ front ++ waiting_list k (activate w act wait m rs).queue)
      × (active_of k (activate w act wait m rs).queue ≡ length front + active_of k rs)
unfolding activate transmit
activate-front w act wait m [] k = ([], refl, omega arith)
activate-front w act wait m (r ∷ rs) k = elim (Bool-cases (wait == 0 || is_full w act)) [
  | inl stop ↦ rw (stop, activate) ([], refl, omega arith)
  | inr on ↦ elim (Bool-cases (is_waiting r && has_room (m r.session))) [
    | inl ready ↦
        let (front, ih, n) =
          activate-front w (act + 1) (wait - 1) (update m r.session (activated (m r.session))) rs
            k in
        rw (on, ready, activate)
          (elim (Bool-cases (r.session == k)) [
            | inl e ↦ (r.address ∷ front, ground (arith, ih), ground (arith, n))
            | inr e ↦ (front, ground (arith, ih), ground (arith, n))
          ])
    | inr busy ↦
        rw (on, busy, activate)
          (elim (Bool-cases (r.session == k && is_waiting r)) [
            | inl e ↦
                let room : has_room (m k) ≡ false = ground arith in
                let still = activate-no_room w act wait m rs k room in
                ([], ground (arith, still), ground (arith, still))
            | inr e ↦
                let (front, ih, n) = activate-front w act wait m rs k in
                (front, ground (arith, ih), ground (arith, n))
          ])
  ]
]

-- The abstract queue: a request enters at the end, and any number leave at the front.
abbrev pub enter : ℕ → ℕ → ℕ → List ℕ → List ℕ
enter session address k waiting = if k == session then waiting ++ (address ∷ []) else waiting

-- What served the abstract queue, and how many requests it made active.
pub record IsServed (before after : List ℕ) (active active' : ℕ) : Type 0 where
  pub front : List ℕ
  pub order : before ≡ front ++ after
  pub balance : active' ≡ length front + active

waiting_list-snoc :
    (session k : ℕ) (rs : List Request) (r : Request)
    → r.sends ≡ 0
    → (waiting_list k (rs ++ (record r { session = session } ∷ []))
        ≡ enter session r.address k (waiting_list k rs))
      × (active_of k (rs ++ (record r { session = session } ∷ [])) ≡ active_of k rs)
waiting_list-snoc session k [] r h = elim (Bool-cases (k == session)) [
  | inl e ↦ (ground arith, ground arith)
  | inr e ↦ (ground arith, ground arith)
]
waiting_list-snoc session k (q ∷ rs) r h =
    let ih = waiting_list-snoc session k rs r h in
    (
      elim (Bool-cases (k == session)) [ inl e ↦ ground (arith, ih) | inr e ↦ ground (arith, ih) ],
      ground (arith, ih),
    )

-- Queueing a request serves the requests of every session first come, first served: the request
-- enters at the end of the waiting requests of its session, and then, for each session, the first
-- of its waiting requests leave in their order and are counted as active.
pub queue_request-fifo :
    (session : ℕ) (r : Request) (e : Engine) (k : ℕ)
    → r.sends ≡ 0
    → IsServed
        (enter session r.address k (waiting_list k e.queue))
        (waiting_list k (queue_request session r e).queue)
        (active_of k e.queue)
        (active_of k (queue_request session r e).queue)
unfolding queue_request process_queue append_request
queue_request-fifo session r e k h =
    let e₁ = append_request session r e in
    let s = waiting_list-snoc session k e.queue r h in
    let (front, o, n) =
      activate-front (e₁.memory session).window (count_active e₁.queue) (count_waiting e₁.queue)
        e₁.memory e₁.queue k in
    record { front = front; order = sym s.0 ∙ o; balance = omega (arith, n, s.1) }
