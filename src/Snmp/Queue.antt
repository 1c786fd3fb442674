-- ===== src/Snmp/Queue.antt =====
-- The queue of asynchronous requests: TnmSnmpCreateRequest, TnmSnmpFindRequest,
-- TnmSnmpQueueRequest, TnmSnmpDeleteRequest, TnmSnmpDeleteSession and TnmSnmpGetRequestId of
-- tnm/snmp/tnmSnmpUtil.c, and TnmSnmpTimeoutProc of tnm/snmp/tnmSnmpNet.c. A pointer to a session or
-- a request is a number, its address; `memory` is the session that stands at an address. The
-- counters of a session are not negative: each is decremented only for a request that it counts.
-- The other ints are not negative and do not overflow, as in `timeout * 1000` and `1 + retries`.
pub mod Counts
pub mod Invariant
pub mod Timeout
pub mod Reach
pub mod Window
pub mod Order
pub mod Progress
pub mod Retries
pub mod Ids
pub mod Pending
mod Tests
use tkined_remix.Prelude.{
  ℕ, zero, suc, ◌+◌, ◌-◌, ◌*◌, ◌/◌, List, [], ◌∷◌, ◌++◌, Bool, true, false, Option, none, some, ltb,
  leb, ◌==◌, not, ◌&&◌, ◌||◌, if◌then◌else◌,
}

-- The fields of struct TnmSnmp that the queue uses.
pub record Session : Type 0 where
  pub active : ℕ
  pub waiting : ℕ
  pub window : ℕ
  pub retries : ℕ
  pub timeout : ℕ

-- `timer` is the delay of the timer handler in milliseconds, if there is one.
pub record Request : Type 0 where
  pub address : ℕ
  pub id : ℕ
  pub sends : ℕ
  pub packet : List ℕ
  pub timer : Option ℕ
  pub session : ℕ

-- `opened` is tnmSnmpList, `queue` the list from queueHead on, and `sent` the addresses of the
-- requests whose packets were handed to TnmSnmpSend, the first one first.
pub record Engine : Type 0 where
  pub memory : ℕ → Session
  pub opened : List ℕ
  pub queue : List Request
  pub sent : List ℕ

-- A store through a pointer.
abbrev pub update {ℓ} : {A : Type ℓ} → (ℕ → A) → ℕ → A → ℕ → A
update f k v j = if j == k then v else f j

unfoldable pub contains : ℕ → List ℕ → Bool
contains k [] = false
contains k (j ∷ js) = j == k || contains k js

unfoldable pub create_request : ℕ → ℕ → List ℕ → Request
create_request address id packet = record {
  address = address;
  id = id;
  sends = 0;
  packet = packet;
  timer = none;
  session = 0;
}

-- The search of TnmSnmpFindRequest, by the identifier.
unfoldable pub find_request : ℕ → List Request → Option Request
find_request id [] = none
find_request id (r ∷ rs) = if r.id == id then some r else find_request id rs

-- `for (rPtr = queueHead; rPtr; rPtr = rPtr->nextPtr) if (rPtr == request) break;`
unfoldable pub find_address : ℕ → List Request → Option Request
find_address a [] = none
find_address a (r ∷ rs) = if r.address == a then some r else find_address a rs

-- The retransmission branch of TnmSnmpTimeoutProc, on the request.
unfoldable pub transmit : Session → Request → Request
transmit s r = record r { sends = r.sends + 1; timer = some (s.timeout * 1000 / (s.retries + 1)) }

-- `! rPtr->sends`
abbrev pub is_waiting : Request → Bool
is_waiting r = r.sends == 0

unfoldable pub count_active : List Request → ℕ
count_active [] = 0
count_active (r ∷ rs) = if is_waiting r then count_active rs else suc (count_active rs)

unfoldable pub count_waiting : List Request → ℕ
count_waiting [] = 0
count_waiting (r ∷ rs) = if is_waiting r then suc (count_waiting rs) else count_waiting rs

-- `session->window && active >= session->window`
abbrev pub is_full : ℕ → ℕ → Bool
is_full window active = not (window == 0) && leb window active

-- The window of a session has room.
abbrev pub has_room : Session → Bool
has_room s = ltb s.active s.window || s.window == 0

-- The counters after a request was activated.
abbrev pub activated : Session → Session
activated s = record s { active = s.active + 1; waiting = s.waiting - 1 }

-- What the loop that activates requests leaves: the memory, the queue, and what was sent.
pub record Activation : Type 0 where
  pub memory : ℕ → Session
  pub queue : List Request
  pub sent : List ℕ

-- The loop, with the window of the session it is called for. The request is not sent before, so
-- TnmSnmpTimeoutProc takes its first branch.
unfoldable pub activate : ℕ → ℕ → ℕ → (ℕ → Session) → List Request → Activation
activate window active waiting memory [] = record { memory = memory; queue = []; sent = [] }
activate window active waiting memory (r ∷ rs) = elim (waiting == 0 || is_full window active) [
  | true ↦ record { memory = memory; queue = r ∷ rs; sent = [] }
  | false ↦ elim (is_waiting r && has_room (memory r.session)) [
    | true ↦
        let s = memory r.session in
        let rest =
          activate window (active + 1) (waiting - 1) (update memory r.session (activated s)) rs in
        record {
          memory = rest.memory;
          queue = transmit s r ∷ rest.queue;
          sent = r.address ∷ rest.sent;
        }
    | false ↦
        let rest = activate window active waiting memory rs in
        record { memory = rest.memory; queue = r ∷ rest.queue; sent = rest.sent }
  ]
]

-- TnmSnmpQueueRequest without a new request.
unfoldable pub process_queue : ℕ → Engine → Engine
process_queue session e =
    let a =
      activate (e.memory session).window (count_active e.queue) (count_waiting e.queue) e.memory
        e.queue in
    record e { memory = a.memory; queue = a.queue; sent = e.sent ++ a.sent }

-- The new request is appended, and its session counts it.
unfoldable pub append_request : ℕ → Request → Engine → Engine
append_request session r e =
    let s = e.memory session in
    record e {
      memory = update e.memory session (record s { waiting = s.waiting + 1 });
      queue = e.queue ++ (record r { session = session } ∷ []);
    }

unfoldable pub queue_request : ℕ → Request → Engine → Engine
queue_request session r e = process_queue session (append_request session r e)

-- The result of TnmSnmpQueueRequest.
unfoldable pub pending : ℕ → Engine → ℕ
pending session e = (e.memory session).active + (e.memory session).waiting

-- `while (*rPtrPtr && *rPtrPtr != request)` and the unlinking behind it.
unfoldable pub unlink : ℕ → List Request → List Request
unlink a [] = []
unlink a (r ∷ rs) = if r.address == a then rs else r ∷ unlink a rs

-- The counters without the request.
abbrev pub released : Request → Session → Session
released r s =
    if is_waiting r
    then record s { waiting = s.waiting - 1 }
    else record s { active = s.active - 1 }

-- The session of the request may be gone: then its counters are left alone, and the queue is not
-- processed.
unfoldable pub delete_request : ℕ → Engine → Engine
delete_request a e = elim (find_address a e.queue) [
  | none ↦ e
  | some r ↦
      if contains r.session e.opened
      then process_queue r.session (record e {
        memory = update e.memory r.session (released r (e.memory r.session));
        queue = unlink a e.queue;
      })
      else record e { queue = unlink a e.queue }
]

-- A request in the place of the one with its address.
unfoldable pub replace : Request → List Request → List Request
replace r [] = []
replace r (q ∷ qs) = if q.address == r.address then r ∷ qs else q ∷ replace r qs

-- TnmSnmpTimeoutProc, up to the callback of the application.
unfoldable pub timeout_proc : ℕ → Engine → Engine
timeout_proc a e = elim (find_address a e.queue) [
  | none ↦ e
  | some r ↦
      let s = e.memory r.session in
      if ltb r.sends (1 + s.retries)
      then record e { queue = replace (transmit s r) e.queue; sent = e.sent ++ (a ∷ []) }
      else delete_request a e
]

-- The requests of other sessions.
unfoldable pub without_session : ℕ → List Request → List Request
without_session k [] = []
without_session k (r ∷ rs) =
    if r.session == k then without_session k rs else r ∷ without_session k rs

unfoldable pub remove : ℕ → List ℕ → List ℕ
remove k [] = []
remove k (j ∷ js) = if j == k then js else j ∷ remove k js

-- The command that destroys a session takes it out of tnmSnmpList, then calls TnmSnmpDeleteSession.
unfoldable pub delete_session : ℕ → Engine → Engine
delete_session k e = record e { opened = remove k e.opened; queue = without_session k e.queue }

-- TnmSnmpCreateSession at a fresh address, with the defaults of tnm/snmp/tnmSnmp.h, and the head of
-- tnmSnmpList that its callers put it at.
unfoldable pub create_session : ℕ → Engine → Engine
create_session k e = record e {
  memory =
      update e.memory k (record { active = 0; waiting = 0; window = 10; retries = 3; timeout = 5 });
  opened = k ∷ e.opened;
}

-- The options -retries, -timeout and -window of a session.
unfoldable pub configure : ℕ → ℕ → ℕ → ℕ → Engine → Engine
configure k window retries timeout e =
    let s = e.memory k in
    record e {
      memory =
          update e.memory k (record s { window = window; retries = retries; timeout = timeout });
    }

-- TnmSnmpGetRequestId, with the numbers that rand() returns.
unfoldable pub get_request_id : List ℕ → List Request → Option ℕ
get_request_id [] queue = none
get_request_id (n ∷ draws) queue = elim (find_request n queue) [
  | none ↦ some n
  | some r ↦ get_request_id draws queue
]
