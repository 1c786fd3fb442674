-- ===== src/Snmp/Queue/Counts.antt =====
-- The counters of the sessions, and the requests in the queue that they count.
use tkined_remix.Prelude.{
  ℕ, suc, ◌+◌, ◌-◌, ◌≤◌, List, [], ◌∷◌, Bool, true, ◌≡◌, refl, arith, ◌==◌, not, ◌&&◌, ◌||◌,
  if◌then◌else◌, Bool-cases, inl, inr,
}
use tkined_remix.Snmp.Queue.{
  Session, Request, update, is_waiting, is_full, has_room, activated, transmit, activate,
}

-- The requests of a session that were sent, and those that were not.
abbrev pub active_of : ℕ → List Request → ℕ
active_of k [] = 0
active_of k (r ∷ rs) =
    if r.session == k && not (is_waiting r) then suc (active_of k rs) else active_of k rs

abbrev pub waiting_of : ℕ → List Request → ℕ
waiting_of k [] = 0
waiting_of k (r ∷ rs) =
    if r.session == k && is_waiting r then suc (waiting_of k rs) else waiting_of k rs

-- What a loop over the queue does to the counters, it does to the queue.
pub record Balanced (m m' : ℕ → Session) (rs rs' : List Request) (k : ℕ) : Type 0 where
  pub active_change : (m' k).active + active_of k rs ≡ (m k).active + active_of k rs'
  pub waiting_change : (m' k).waiting + waiting_of k rs ≡ (m k).waiting + waiting_of k rs'
  pub window_same : (m' k).window ≡ (m k).window
  pub retries_same : (m' k).retries ≡ (m k).retries

-- The head is activated.
activated-Balanced :
    (m m' : ℕ → Session) (r : Request) (rs rs' : List Request) (k : ℕ)
    → is_waiting r ≡ true
    → waiting_of k (r ∷ rs) ≤ (m k).waiting
    → Balanced (update m r.session (activated (m r.session))) m' rs rs' k
    → Balanced m m' (r ∷ rs) (transmit (m r.session) r ∷ rs') k
unfolding transmit
activated-Balanced m m' r rs rs' k hw hk b = elim (Bool-cases (k == r.session)) [
  | inl e ↦ ground (arith, b)
  | inr e ↦ ground (arith, b)
]

-- The head stays as it is.
skipped-Balanced :
    (m m' : ℕ → Session) (r : Request) (rs rs' : List Request) (k : ℕ)
    → Balanced m m' rs rs' k
    → Balanced m m' (r ∷ rs) (r ∷ rs') k
skipped-Balanced m m' r rs rs' k b = ground (arith, b)

-- The counter of what is behind an activated head covers the rest.
activated-covers :
    (m : ℕ → Session) (r : Request) (rs : List Request) (k : ℕ)
    → is_waiting r ≡ true
    → waiting_of k (r ∷ rs) ≤ (m k).waiting
    → waiting_of k rs ≤ (update m r.session (activated (m r.session)) k).waiting
activated-covers m r rs k hw hk = elim (Bool-cases (k == r.session)) [
  | inl e ↦ ground arith
  | inr e ↦ ground arith
]

waiting_of-tail :
    (r : Request) (rs : List Request) (k : ℕ) → waiting_of k rs ≤ waiting_of k (r ∷ rs)
waiting_of-tail r rs k = ground arith

and-true : (a b : Bool) → a && b ≡ true → (a ≡ true) × (b ≡ true)
and-true a b h = ground arith

-- Each activation is counted by its session.
pub activate-Balanced :
    (w act wait : ℕ) (m : ℕ → Session) (rs : List Request) (k : ℕ)
    → ((j : ℕ) → waiting_of j rs ≤ (m j).waiting)
    → let a = activate w act wait m rs in Balanced m a.memory rs a.queue k
unfolding activate
activate-Balanced w act wait m [] k h = record {
  active_change = refl;
  waiting_change = refl;
  window_same = refl;
  retries_same = refl;
}
activate-Balanced w act wait m (r ∷ rs) k h = elim (Bool-cases (wait == 0 || is_full w act)) [
  | inl stop ↦
      rw (stop, activate)
        (record {
          active_change = refl;
          waiting_change = refl;
          window_same = refl;
          retries_same = refl;
        })
  | inr on ↦ elim (Bool-cases (is_waiting r && has_room (m r.session))) [
    | inl ready ↦
        let hw = (and-true (is_waiting r) (has_room (m r.session)) ready).0 in
        let m₁ = update m r.session (activated (m r.session)) in
        rw (on, ready, activate)
          (activated-Balanced m _ r rs _ k hw (h k) (
            activate-Balanced w (act + 1) (wait - 1) m₁ rs k
              λ j. activated-covers m r rs j hw (h j)))
    | inr busy ↦
        rw (on, busy, activate)
          (skipped-Balanced m _ r rs _ k
            (activate-Balanced w act wait m rs k λ j. omega (arith, h j, waiting_of-tail r rs j)))
  ]
]
