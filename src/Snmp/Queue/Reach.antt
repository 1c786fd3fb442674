-- ===== src/Snmp/Queue/Reach.antt =====
-- The events that change the request queue, and what holds after any number of them.
use tkined_remix.Prelude.{
  ℕ, List, [], ◌∷◌, true, false, ◌≡◌, refl, arith, some, ◌==◌, Bool-cases, inl, inr, All,
}
use tkined_remix.Snmp.Queue.{
  Session, Request, Engine, contains, find_address, find_request, without_session, remove,
  create_request, queue_request, delete_request, timeout_proc, delete_session, create_session,
  configure, process_queue,
}
use tkined_remix.Snmp.Queue.Counts.{active_of, waiting_of}
use tkined_remix.Snmp.Queue.Invariant.{
  IsSound, AreDistinct, IsConsistent, foreign, process_queue-IsConsistent,
  queue_request-IsConsistent, delete_request-IsConsistent,
}
use tkined_remix.Snmp.Queue.Timeout.{timeout_proc-IsConsistent}

-- What is left when a session is destroyed.
without-counts :
    (j k : ℕ) (rs : List Request)
    → (j == k) ≡ false
    → (active_of k (without_session j rs) ≡ active_of k rs)
      × (waiting_of k (without_session j rs) ≡ waiting_of k rs)
unfolding without_session
without-counts j k [] h = (refl, refl)
without-counts j k (r ∷ rs) h = elim (Bool-cases (r.session == j)) [
  | inl e ↦ ground (arith, without-counts j k rs)
  | inr e ↦ ground (arith, without-counts j k rs)
]

pub contains-remove :
    (j k : ℕ) (ks : List ℕ) → (j == k) ≡ false → contains j (remove k ks) ≡ contains j ks
unfolding contains remove
contains-remove j k [] h = refl
contains-remove j k (i ∷ ks) h = ground (arith, contains-remove j k ks)

pub contains-remove_self : (k : ℕ) (ks : List ℕ) → AreDistinct ks → contains k (remove k ks) ≡ false
unfolding contains remove
contains-remove_self k [] h = refl
contains-remove_self k (i ∷ ks) h = ground (arith, contains-remove_self k ks h.1, h.0)

contains-remove_le :
    (j k : ℕ) (ks : List ℕ) → contains j ks ≡ false → contains j (remove k ks) ≡ false
unfolding contains remove
contains-remove_le j k [] h = refl
contains-remove_le j k (i ∷ ks) h = ground (arith, contains-remove_le j k ks)

pub remove-AreDistinct : (k : ℕ) (ks : List ℕ) → AreDistinct ks → AreDistinct (remove k ks)
unfolding remove
remove-AreDistinct k [] h = tt
remove-AreDistinct k (i ∷ ks) h = elim (Bool-cases (i == k)) [
  | inl e ↦ rw e h.1
  | inr e ↦ rw e (contains-remove_le i k ks h.0, remove-AreDistinct k ks h.1)
]

without-IsSound :
    (k : ℕ) (opened : List ℕ) (rs : List Request)
    → All (IsSound opened) rs
    → All (IsSound (remove k opened)) (without_session k rs)
unfolding without_session
without-IsSound k opened [] h = tt
without-IsSound k opened (r ∷ rs) h = elim (Bool-cases (r.session == k)) [
  | inl e ↦ rw e (without-IsSound k opened rs h.1)
  | inr e ↦ rw e (
    record {
      owned = rw (contains-remove r.session k opened e) h.0.owned;
      timed = h.0.timed;
      armed = h.0.armed;
    },
    without-IsSound k opened rs h.1,
  )
]

delete_session-IsConsistent :
    (k : ℕ) (e : Engine) → IsConsistent e → IsConsistent (delete_session k e)
unfolding delete_session
delete_session-IsConsistent k e h = record {
  sound = without-IsSound k e.opened e.queue h.sound;
  distinct = remove-AreDistinct k e.opened h.distinct;
  counted = λ j o. elim (Bool-cases (j == k)) [
    | inl same ↦
        absurd (
          let q : false ≡ true = ground (arith, contains-remove_self k e.opened h.distinct, o) in
          cc)
    | inr other ↦
        let c = h.counted j (rw (contains-remove j k e.opened other) at o) in
        let b = without-counts k j e.queue (ground arith) in
        record { active_right = omega (arith, b, c); waiting_right = omega (arith, b, c) }
  ];
}

create_session-IsConsistent :
    (k : ℕ) (e : Engine)
    → contains k e.opened ≡ false
    → IsConsistent e
    → IsConsistent (create_session k e)
unfolding create_session contains
create_session-IsConsistent k e f h = record {
  sound = wider e.queue h.sound;
  distinct = (f, h.distinct);
  counted = λ j o. elim (Bool-cases (j == k)) [
    | inl same ↦
        let none_of = foreign e.opened k e.queue f h.sound in
        let eq : j ≡ k = ground arith in
        rw eq (record {
          active_right = ground (arith, none_of);
          waiting_right = ground (arith, none_of);
        })
    | inr other ↦
        let c = h.counted j (ground arith) in
        record { active_right = ground (arith, c); waiting_right = ground (arith, c) }
  ];
}
  where
    wider : (rs : List Request) → All (IsSound e.opened) rs → All (IsSound (k ∷ e.opened)) rs
    wider [] a = tt
    wider (r ∷ rs) a = (
      record { owned = ground (arith, a.0.owned); timed = a.0.timed; armed = a.0.armed },
      wider rs a.1,
    )

configure-IsConsistent :
    (k w n t : ℕ) (e : Engine) → IsConsistent e → IsConsistent (configure k w n t e)
unfolding configure
configure-IsConsistent k w n t e h = record {
  sound = h.sound;
  distinct = h.distinct;
  counted = λ j o.
      let c = h.counted j o in
      record { active_right = ground (arith, c); waiting_right = ground (arith, c) };
}

-- What the program does to the queue: sessions are made, destroyed and configured, requests are
-- made and queued, the queue is looked at again, timers run out, and responses arrive.
pub data Step : Engine → Engine → Type 0 where
  creates : (k : ℕ) (e : Engine) → contains k e.opened ≡ false → Step e (create_session k e)
  deletes : (k : ℕ) (e : Engine) → Step e (delete_session k e)
  configures :
      (k window retries timeout : ℕ) (e : Engine) → Step e (configure k window retries timeout e)
  queues :
      (k address id : ℕ) (packet : List ℕ) (e : Engine)
      → contains k e.opened ≡ true
      → Step e (queue_request k (create_request address id packet) e)
  processes : (k : ℕ) (e : Engine) → Step e (process_queue k e)
  expires :
      (a : ℕ) (e : Engine) (r : Request) (d : ℕ)
      → find_address a e.queue ≡ some r
      → r.timer ≡ some d
      → Step e (timeout_proc a e)
  answers :
      (id : ℕ) (e : Engine) (r : Request)
      → find_request id e.queue ≡ some r
      → Step e (delete_request r.address e)

pub data Reach (s : Engine) : Engine → Type 0 where
  here : Reach s s
  next : {t u : Engine} → Reach s t → Step t u → Reach s u

-- Before the first session.
abbrev pub start : (ℕ → Session) → Engine
start m = record { memory = m; opened = []; queue = []; sent = [] }

start-IsConsistent : (m : ℕ → Session) → IsConsistent (start m)
unfolding contains
start-IsConsistent m = record { sound = tt; distinct = tt; counted = λ k o. absurd (cc) }

pub Step-IsConsistent : {e f : Engine} → Step e f → IsConsistent e → IsConsistent f
unfolding create_request
Step-IsConsistent (creates k e f) h = create_session-IsConsistent k e f h
Step-IsConsistent (deletes k e) h = delete_session-IsConsistent k e h
Step-IsConsistent (configures k w n t e) h = configure-IsConsistent k w n t e h
Step-IsConsistent (queues k a id packet e o) h =
    queue_request-IsConsistent k (create_request a id packet) e o refl refl h
Step-IsConsistent (processes k e) h = process_queue-IsConsistent k e h
Step-IsConsistent (expires a e r d f t) h = timeout_proc-IsConsistent a e r d f t h
Step-IsConsistent (answers id e r f) h = delete_request-IsConsistent r.address e h

-- After any events from the start on, every open session counts exactly its requests in the queue,
-- those that were sent as active and the others as waiting; every request belongs to an open
-- session, and has a timer if and only if it was sent.
pub Reach-IsConsistent : (m : ℕ → Session) {e : Engine} → Reach (start m) e → IsConsistent e
Reach-IsConsistent m here = start-IsConsistent m
Reach-IsConsistent m (next r s) = Step-IsConsistent s (Reach-IsConsistent m r)
