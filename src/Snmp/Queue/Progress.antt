-- ===== src/Snmp/Queue/Progress.antt =====
-- The request queue of tnm/snmp/tnmSnmpUtil.c does not stall: requests wait only while a timer runs.
use tkined_remix.Prelude.{
  ℕ, suc, ◌+◌, ◌-◌, ◌≤◌, ◌<◌, List, [], ◌∷◌, ◌++◌, true, false, ◌≡◌, ◌⊎◌, refl, arith, none, some,
  ◌==◌, ◌&&◌, ◌||◌, Bool-cases, inl, inr, All, ==→eq, length, ap, ◌∙◌,
}
use tkined_remix.Snmp.Queue.{
  Session, Request, Engine, update, contains, is_waiting, is_full, has_room, activated, transmit,
  activate, process_queue, append_request, queue_request, count_active, count_waiting,
}
use tkined_remix.Snmp.Queue.Counts.{active_of}
use tkined_remix.Snmp.Queue.Invariant.{
  IsSound, IsConsistent, process_queue-IsConsistent, append_request-IsConsistent,
}

-- A request of the queue has a timer.
abbrev pub HasTimer : List Request → Type 0
HasTimer [] = ⊥
HasTimer (r ∷ rs) = ((delay : ℕ) × (r.timer ≡ some delay)) ⊎ HasTimer rs

active_of-le : (k : ℕ) (rs : List Request) → active_of k rs ≤ count_active rs
unfolding count_active
active_of-le k [] = omega arith
active_of-le k (r ∷ rs) = ground (arith, active_of-le k rs)

activate-count_active :
    (w act wait : ℕ) (m : ℕ → Session) (rs : List Request)
    → count_active rs ≤ count_active (activate w act wait m rs).queue
unfolding activate count_active transmit
activate-count_active w act wait m [] = omega arith
activate-count_active w act wait m (r ∷ rs) = elim (Bool-cases (wait == 0 || is_full w act)) [
  | inl stop ↦ rw (stop, activate) (omega arith)
  | inr on ↦ elim (Bool-cases (is_waiting r && has_room (m r.session))) [
    | inl ready ↦
        rw (on, ready, activate)
          (ground (
            arith,
            activate-count_active w (act + 1) (wait - 1)
                (update m r.session (activated (m r.session))) rs,
          ))
    | inr busy ↦ rw (on, busy, activate) (ground (arith, activate-count_active w act wait m rs))
  ]
]

-- When no request is active, the first one is activated.
activate-first :
    (opened : List ℕ) (w : ℕ) (m : ℕ → Session) (rs : List Request)
    → All (IsSound opened) rs
    → ((k : ℕ) → contains k opened ≡ true → (m k).active ≡ 0)
    → count_active rs ≡ 0
    → (rs ≡ []) ⊎ (0 < count_active (activate w 0 (count_waiting rs) m rs).queue)
unfolding activate count_active transmit count_waiting
activate-first opened w m [] h hm hc = inl refl
activate-first opened w m (r ∷ rs) h hm hc =
    let idle = hm r.session h.0.owned in
    let first : is_waiting r ≡ true = ground arith in
    let on : (count_waiting (r ∷ rs) == 0 || is_full w 0) ≡ false = ground arith in
    let ready : (is_waiting r && has_room (m r.session)) ≡ true = ground arith in
    inr (rw (on, ready, activate) (ground arith))

active-HasTimer :
    (opened : List ℕ) (rs : List Request)
    → All (IsSound opened) rs
    → 0 < count_active rs
    → HasTimer rs
unfolding count_active
active-HasTimer opened [] h c = absurd (omega arith)
active-HasTimer opened (r ∷ rs) h c = elim (Bool-cases (is_waiting r)) [
  | inl w ↦ inr (active-HasTimer opened rs h.1 (ground arith))
  | inr n ↦ inl (h.0.armed n)
]

activate-nil :
    (w act wait : ℕ) (m : ℕ → Session) (rs : List Request)
    → rs ≡ []
    → (activate w act wait m rs).queue ≡ []
unfolding activate
activate-nil w act wait m rs h = rw h refl

processed-HasTimer :
    (session : ℕ) (e : Engine)
    → IsConsistent e
    → 0 < count_active (process_queue session e).queue
    → HasTimer (process_queue session e).queue
unfolding process_queue
processed-HasTimer session e h c =
    active-HasTimer e.opened _ (process_queue-IsConsistent session e h).sound c

-- When the counters are right and the queue is processed for any session, then the queue is empty
-- or a request in it was sent and has a timer, whatever the windows of the sessions are.
pub process_queue-progress :
    (session : ℕ) (e : Engine)
    → IsConsistent e
    → ((process_queue session e).queue ≡ []) ⊎ HasTimer (process_queue session e).queue
process_queue-progress session e h = elim (Bool-cases (count_active e.queue == 0)) [
  | inl z ↦
      elim (activate-first e.opened w e.memory e.queue h.sound (idle (==→eq _ 0 z)) (==→eq _ 0 z)) [
        | inl empty ↦ inl (unfold process_queue in activate-nil w _ _ e.memory e.queue empty)
        | inr first ↦
            inr (processed-HasTimer session e h (unfold process_queue in rw (==→eq _ 0 z) first))
      ]
  | inr n ↦ inr (
      processed-HasTimer session e h (
        let kept =
          activate-count_active w (count_active e.queue) (count_waiting e.queue) e.memory e.queue in
        unfold process_queue in ground (arith, kept)))
]
  where
    w : ℕ
    w = (e.memory session).window

    idle : count_active e.queue ≡ 0 → (k : ℕ) → contains k e.opened ≡ true → (e.memory k).active ≡ 0
    idle z k o = omega (arith, (h.counted k o).active_right, active_of-le k e.queue)

activate-length :
    (w act wait : ℕ) (m : ℕ → Session) (rs : List Request)
    → length (activate w act wait m rs).queue ≡ length rs
unfolding activate
activate-length w act wait m [] = refl
activate-length w act wait m (r ∷ rs) = elim (Bool-cases (wait == 0 || is_full w act)) [
  | inl stop ↦ rw (stop, activate) refl
  | inr on ↦ elim (Bool-cases (is_waiting r && has_room (m r.session))) [
    | inl ready ↦
        rw (on, ready, activate)
          (omega (
            arith,
            activate-length w (act + 1) (wait - 1) (update m r.session (activated (m r.session)))
                rs,
          ))
    | inr busy ↦ rw (on, busy, activate) (omega (arith, activate-length w act wait m rs))
  ]
]

length-snoc : (rs : List Request) (r : Request) → length (rs ++ r ∷ []) ≡ suc (length rs)
length-snoc [] r = refl
length-snoc (q ∷ rs) r = omega (arith, length-snoc rs r)

-- After a request that was just made is queued for an open session, while the counters are right,
-- a request in the queue was sent and has a timer: the queue does not wait without an event to come.
pub queue_request-HasTimer :
    (session : ℕ) (r : Request) (e : Engine)
    → contains session e.opened ≡ true
    → r.sends ≡ 0
    → r.timer ≡ none
    → IsConsistent e
    → HasTimer (queue_request session r e).queue
unfolding queue_request
queue_request-HasTimer session r e ho hs ht h =
    elim (process_queue-progress session e₁ (append_request-IsConsistent session r e ho hs ht h)) [
      | inl empty ↦ absurd (let n = filled in ground (arith, ap length empty))
      | inr timer ↦ timer
    ]
  where
    e₁ : Engine
    e₁ = append_request session r e

    filled : length (process_queue session e₁).queue ≡ suc (length e.queue)
    filled =
        unfold process_queue in
        unfold append_request in
        (activate-length (e₁.memory session).window (count_active e₁.queue) (count_waiting e₁.queue)
            e₁.memory e₁.queue
          ∙ length-snoc e.queue _)
