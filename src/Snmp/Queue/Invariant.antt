-- ===== src/Snmp/Queue/Invariant.antt =====
-- What holds of the request queue between two events.
use tkined_remix.Prelude.{
  ℕ, suc, ◌+◌, ◌-◌, ◌≤◌, List, [], ◌∷◌, ◌++◌, true, false, ◌≡◌, refl, arith, none, some, ◌==◌, not,
  ◌&&◌, ◌||◌, if◌then◌else◌, Bool-cases, inl, inr, All, eq→==, Option-cases,
}
use mathlib.Core.Path.{subst}
use tkined_remix.Snmp.Queue.{
  Session, Request, Engine, update, contains, is_waiting, is_full, has_room, activated, transmit,
  activate, released, unlink, find_address, process_queue, append_request, queue_request,
  delete_request, count_active, count_waiting,
}
use tkined_remix.Snmp.Queue.Counts.{active_of, waiting_of, activate-Balanced}

-- A request belongs to a session that is open, and has a timer if and only if it was sent.
pub record IsSound (opened : List ℕ) (r : Request) : Type 0 where
  pub owned : contains r.session opened ≡ true
  pub timed : is_waiting r ≡ true → r.timer ≡ none
  pub armed : is_waiting r ≡ false → (delay : ℕ) × (r.timer ≡ some delay)

abbrev pub AreDistinct : List ℕ → Type 0
AreDistinct [] = Unit {0}
AreDistinct (k ∷ ks) = (contains k ks ≡ false) × AreDistinct ks

-- The counters of an open session are the numbers of its requests.
pub record IsCounted (m : ℕ → Session) (queue : List Request) (k : ℕ) : Type 0 where
  pub active_right : (m k).active ≡ active_of k queue
  pub waiting_right : (m k).waiting ≡ waiting_of k queue

pub record IsConsistent (e : Engine) : Type 0 where
  pub sound : All (IsSound e.opened) e.queue
  pub distinct : AreDistinct e.opened
  pub counted : (k : ℕ) → contains k e.opened ≡ true → IsCounted e.memory e.queue k

-- No request of a session that is not open is in the queue.
pub foreign :
    (opened : List ℕ) (k : ℕ) (rs : List Request)
    → contains k opened ≡ false
    → All (IsSound opened) rs
    → (active_of k rs ≡ 0) × (waiting_of k rs ≡ 0)
foreign opened k [] h a = (refl, refl)
foreign opened k (r ∷ rs) h a = elim (Bool-cases (r.session == k)) [
  | inl e ↦ ground (arith, a.0.owned)
  | inr e ↦ ground (arith, foreign opened k rs h a.1)
]

pub covered : (e : Engine) → IsConsistent e → (k : ℕ) → waiting_of k e.queue ≤ (e.memory k).waiting
covered e h k = elim (Bool-cases (contains k e.opened)) [
  | inl o ↦ omega (arith, (h.counted k o).waiting_right)
  | inr c ↦ omega (arith, foreign e.opened k e.queue c h.sound)
]

-- The loop keeps the requests sound.
activate-IsSound :
    (opened : List ℕ) (w act wait : ℕ) (m : ℕ → Session) (rs : List Request)
    → All (IsSound opened) rs
    → All (IsSound opened) (activate w act wait m rs).queue
unfolding activate transmit
activate-IsSound opened w act wait m [] h = h
activate-IsSound opened w act wait m (r ∷ rs) h = elim (Bool-cases (wait == 0 || is_full w act)) [
  | inl stop ↦ rw (stop, activate) h
  | inr on ↦ elim (Bool-cases (is_waiting r && has_room (m r.session))) [
    | inl ready ↦
        rw (on, ready, activate)
          (
            record {
              owned = h.0.owned;
              timed = λ q. absurd (ground arith);
              armed = λ q. (_, refl);
            },
            activate-IsSound opened w (act + 1) (wait - 1)
                (update m r.session (activated (m r.session))) rs h.1,
          )
    | inr busy ↦ rw (on, busy, activate) (h.0, activate-IsSound opened w act wait m rs h.1)
  ]
]

pub process_queue-IsConsistent :
    (session : ℕ) (e : Engine) → IsConsistent e → IsConsistent (process_queue session e)
unfolding process_queue
process_queue-IsConsistent session e h = record {
  sound = activate-IsSound e.opened w act wait e.memory e.queue h.sound;
  distinct = h.distinct;
  counted = λ k o.
      let c = h.counted k o in
      let b = activate-Balanced w act wait e.memory e.queue k (covered e h) in
      record {
        active_right = omega (arith, b.active_change, c.active_right);
        waiting_right = omega (arith, b.waiting_change, c.waiting_right);
      };
}
  where
    w : ℕ
    w = (e.memory session).window

    act : ℕ
    act = count_active e.queue

    wait : ℕ
    wait = count_waiting e.queue

-- A new request at the end.
pub append-counts :
    (k : ℕ) (rs : List Request) (r : Request)
    → is_waiting r ≡ true
    → (active_of k (rs ++ r ∷ []) ≡ active_of k rs)
      × (waiting_of k (rs ++ r ∷ [])
          ≡ (if r.session == k then suc (waiting_of k rs) else waiting_of k rs))
append-counts k [] r h = ground arith
append-counts k (q ∷ rs) r h = ground (arith, append-counts k rs r h)

All-snoc :
    (opened : List ℕ) (rs : List Request) (r : Request)
    → All (IsSound opened) rs
    → IsSound opened r
    → All (IsSound opened) (rs ++ r ∷ [])
All-snoc opened [] r h hr = (hr, tt)
All-snoc opened (q ∷ rs) r h hr = (h.0, All-snoc opened rs r h.1 hr)

pub append_request-IsConsistent :
    (session : ℕ) (r : Request) (e : Engine)
    → contains session e.opened ≡ true
    → r.sends ≡ 0
    → r.timer ≡ none
    → IsConsistent e
    → IsConsistent (append_request session r e)
unfolding append_request
append_request-IsConsistent session r e ho hs ht h = record {
  sound =
      All-snoc e.opened e.queue _ h.sound
        (record { owned = ho; timed = λ q. ht; armed = λ q. absurd (ground arith) });
  distinct = h.distinct;
  counted = λ k o.
      let new = record r { session = session } in
      let a = append-counts k e.queue new (eq→== r.sends 0 hs) in
      let c = h.counted k o in
      record { active_right = ground (arith, a, c); waiting_right = ground (arith, a, c) };
}

-- TnmSnmpQueueRequest, for an open session and a request that was just made.
pub queue_request-IsConsistent :
    (session : ℕ) (r : Request) (e : Engine)
    → contains session e.opened ≡ true
    → r.sends ≡ 0
    → r.timer ≡ none
    → IsConsistent e
    → IsConsistent (queue_request session r e)
unfolding queue_request
queue_request-IsConsistent session r e ho hs ht h =
    process_queue-IsConsistent session (append_request session r e)
      (append_request-IsConsistent session r e ho hs ht h)

-- A request that is found is in the queue, and unlinking takes it from the counts.
pub unlink-counts :
    (a k : ℕ) (rs : List Request) (r : Request)
    → find_address a rs ≡ some r
    → (active_of k rs
        ≡ active_of k (unlink a rs) + (if r.session == k && not (is_waiting r) then 1 else 0))
      × (waiting_of k rs
          ≡ waiting_of k (unlink a rs) + (if r.session == k && is_waiting r then 1 else 0))
unfolding find_address unlink
unlink-counts a k [] r h = absurd (cc)
unlink-counts a k (q ∷ rs) r h = ground (arith, unlink-counts a k rs r)

pub unlink-IsSound :
    (opened : List ℕ) (a : ℕ) (rs : List Request)
    → All (IsSound opened) rs
    → All (IsSound opened) (unlink a rs)
unfolding unlink
unlink-IsSound opened a [] h = h
unlink-IsSound opened a (r ∷ rs) h = elim (Bool-cases (r.address == a)) [
  | inl e ↦ rw e h.1
  | inr e ↦ rw e (h.0, unlink-IsSound opened a rs h.1)
]

pub find-IsSound :
    (opened : List ℕ) (a : ℕ) (rs : List Request) (r : Request)
    → All (IsSound opened) rs
    → find_address a rs ≡ some r
    → IsSound opened r
unfolding find_address
find-IsSound opened a [] r h e = absurd (cc)
find-IsSound opened a (q ∷ rs) r h e = elim (Bool-cases (q.address == a)) [
  | inl b ↦ (let same : q ≡ r = ground arith in subst (IsSound opened) same h.0)
  | inr b ↦ find-IsSound opened a rs r h.1 (ground arith)
]

released-IsConsistent :
    (a : ℕ) (e : Engine) (r : Request)
    → find_address a e.queue ≡ some r
    → IsConsistent e
    → IsConsistent (record e {
      memory = update e.memory r.session (released r (e.memory r.session));
      queue = unlink a e.queue;
    })
released-IsConsistent a e r f h = record {
  sound = unlink-IsSound e.opened a e.queue h.sound;
  distinct = h.distinct;
  counted = λ k o.
      let u = unlink-counts a k e.queue r f in
      let c = h.counted k o in
      record { active_right = ground (arith, u, c); waiting_right = ground (arith, u, c) };
}

-- TnmSnmpDeleteRequest.
pub delete_request-IsConsistent :
    (a : ℕ) (e : Engine) → IsConsistent e → IsConsistent (delete_request a e)
unfolding delete_request
delete_request-IsConsistent a e h = elim (Option-cases (find_address a e.queue)) [
  | inl n ↦ rw (n, delete_request) h
  | inr (r, f) ↦
      let o = (find-IsSound e.opened a e.queue r h.sound f).owned in
      rw (f, o, delete_request)
        (process_queue-IsConsistent r.session _ (released-IsConsistent a e r f h))
]
