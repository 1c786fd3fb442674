-- ===== src/Snmp/Queue/Window.antt =====
-- The windows that TnmSnmpQueueRequest of tnm/snmp/tnmSnmpUtil.c keeps.
use tkined_remix.Prelude.{
  ℕ, ◌+◌, ◌-◌, ◌≤◌, List, [], ◌∷◌, ◌++◌, true, ◌≡◌, ◌≢◌, ◌⊎◌, arith, ◌==◌, ◌&&◌, ◌||◌, Bool-cases,
  inl, inr,
}
use tkined_remix.Snmp.Queue.{
  Session, Request, Engine, update, is_waiting, is_full, has_room, activated, transmit, activate,
  process_queue, append_request, queue_request, count_active, count_waiting,
}

-- A session that limits its active requests keeps the limit.
abbrev pub IsWithin : Session → Type 0
IsWithin s = (s.window ≡ 0) ⊎ (s.active ≤ s.window)

-- An activation needs room.
activated-IsWithin :
    (m : ℕ → Session) (j k : ℕ)
    → has_room (m j) ≡ true
    → IsWithin (m k)
    → IsWithin (update m j (activated (m j)) k)
activated-IsWithin m j k hr h = elim (Bool-cases (k == j)) [ inl e ↦ ground arith | inr e ↦ rw e h ]

activate-IsWithin :
    (w act wait : ℕ) (m : ℕ → Session) (rs : List Request) (k : ℕ)
    → IsWithin (m k)
    → IsWithin ((activate w act wait m rs).memory k)
unfolding activate
activate-IsWithin w act wait m [] k h = h
activate-IsWithin w act wait m (r ∷ rs) k h = elim (Bool-cases (wait == 0 || is_full w act)) [
  | inl stop ↦ rw (stop, activate) h
  | inr on ↦ elim (Bool-cases (is_waiting r && has_room (m r.session))) [
    | inl ready ↦
        rw (on, ready, activate)
          (activate-IsWithin w (act + 1) (wait - 1) (update m r.session (activated (m r.session)))
            rs k (activated-IsWithin m r.session k (ground arith) h))
    | inr busy ↦ rw (on, busy, activate) (activate-IsWithin w act wait m rs k h)
  ]
]

-- The loop activates requests up to its window at most.
activate-limit :
    (w act wait : ℕ) (m : ℕ → Session) (rs : List Request)
    → w ≢ 0
    → (count_active (activate w act wait m rs).queue ≤ count_active rs)
      ⊎ (act + count_active (activate w act wait m rs).queue ≤ w + count_active rs)
unfolding activate count_active transmit
activate-limit w act wait m [] h = inl (omega arith)
activate-limit w act wait m (r ∷ rs) h = elim (Bool-cases (wait == 0 || is_full w act)) [
  | inl stop ↦ rw (stop, activate) (inl (omega arith))
  | inr on ↦ elim (Bool-cases (is_waiting r && has_room (m r.session))) [
    | inl ready ↦
        rw (on, ready, activate)
          (ground (
            arith,
            activate-limit w (act + 1) (wait - 1) (update m r.session (activated (m r.session))) rs
                h,
          ))
    | inr busy ↦ rw (on, busy, activate) (ground (arith, activate-limit w act wait m rs h))
  ]
]

count_active-snoc :
    (rs : List Request) (r : Request) → r.sends ≡ 0 → count_active (rs ++ r ∷ []) ≡ count_active rs
unfolding count_active
count_active-snoc [] r h = ground arith
count_active-snoc (q ∷ rs) r h = ground (arith, count_active-snoc rs r h)

-- Queueing a request for a session takes no session above its window; if the session has a window,
-- the requests that are active in all are not more than this window, or not more than before.
pub queue_request-windows :
    (session : ℕ) (r : Request) (e : Engine)
    → r.sends ≡ 0
    → ((k : ℕ) → IsWithin (e.memory k) → IsWithin ((queue_request session r e).memory k))
      × ((e.memory session).window ≢ 0
          → (count_active (queue_request session r e).queue ≤ count_active e.queue)
            ⊎ (count_active (queue_request session r e).queue ≤ (e.memory session).window))
unfolding queue_request process_queue append_request
queue_request-windows session r e hs = (
  λ k h.
      activate-IsWithin (e₁.memory session).window (count_active e₁.queue) (count_waiting e₁.queue)
        e₁.memory e₁.queue k (appended k h),
  λ h. ground (
    arith,
    activate-limit (e₁.memory session).window (count_active e₁.queue) (count_waiting e₁.queue)
        e₁.memory e₁.queue (ground (arith, h)),
    count_active-snoc e.queue (record r { session = session }) hs,
  ),
)
  where
    e₁ : Engine
    e₁ = append_request session r e

    appended : (k : ℕ) → IsWithin (e.memory k) → IsWithin (e₁.memory k)
    appended k h = elim (Bool-cases (k == session)) [
      | inl q ↦ (let same : k ≡ session = ground arith in ground arith)
      | inr q ↦ rw q h
    ]
