-- ===== src/Snmp/Queue/Tests.antt =====
-- Two sessions with a window of one request, and the theorems about the request queue on them.
use tkined_remix.Prelude.{ℕ, [], ◌∷◌, ◌≡◌, ◌≢◌, ◌≤◌, ◌⊎◌, refl, arith, none, some}
use tkined_remix.Snmp.Queue.{
  Session, Request, Engine, contains, create_request, find_request, find_address, unlink,
  queue_request, process_queue, count_active, delete_request, delete_session, create_session,
  configure, get_request_id, append_request, activate, count_waiting, transmit, remove,
  without_session,
}
use tkined_remix.Snmp.Queue.Counts.{active_of}
use tkined_remix.Snmp.Queue.Invariant.{IsConsistent}
use tkined_remix.Snmp.Queue.Reach.{
  creates, configures, queues, Reach, here, next, start, Reach-IsConsistent,
}
use tkined_remix.Snmp.Queue.Window.{IsWithin, queue_request-windows}
use tkined_remix.Snmp.Queue.Order.{waiting_list, enter, IsServed, queue_request-fifo}
use tkined_remix.Snmp.Queue.Progress.{HasTimer, queue_request-HasTimer}
use tkined_remix.Snmp.Queue.Retries.{timeouts, timeouts-retries}
use tkined_remix.Snmp.Queue.Ids.{get_request_id-fresh}

abbrev nothing : ℕ → Session
nothing k = record { active = 0; waiting = 0; window = 0; retries = 0; timeout = 0 }

-- The sessions 1 and 2, each with a window of 1, one retry, and two seconds for both attempts.
abbrev open_one : Engine
open_one = create_session 1 (start nothing)

abbrev open_both : Engine
open_both = create_session 2 (configure 1 1 1 2 open_one)

abbrev both : Engine
both = configure 2 1 1 2 open_both

-- The requests 100 and 101 of session 1, and 102 of session 2.
abbrev one_request : Engine
one_request = queue_request 1 (create_request 100 7 []) both

abbrev two_requests : Engine
two_requests = queue_request 1 (create_request 101 8 []) one_request

abbrev three_requests : Engine
three_requests = queue_request 2 (create_request 102 9 []) two_requests

abbrev first_request : Request
first_request = record {
  address = 100;
  id = 7;
  sends = 1;
  packet = [];
  timer = some 1000;
  session = 1;
}

three_requests_queue :
    three_requests.queue
    ≡ first_request
      ∷ record (create_request 101 8 []) { session = 1 }
      ∷ record (create_request 102 9 []) { session = 2 }
      ∷ []
unfolding queue_request process_queue append_request activate count_active count_waiting
    create_request create_session configure transmit
three_requests_queue = refl

-- One request is active, and the other session waits for it.
three_requests_reached : Reach (start nothing) three_requests
unfolding contains create_session configure queue_request process_queue append_request activate
three_requests_reached =
    next
      (next
        (next
          (next
            (next (next (next here (creates 1 (start nothing) refl)) (configures 1 1 1 2 open_one))
              (creates 2 _ refl))
            (configures 2 1 1 2 open_both))
          (queues 1 100 7 [] both refl))
        (queues 1 101 8 [] one_request refl))
      (queues 2 102 9 [] two_requests refl)

three_requests-IsConsistent : IsConsistent three_requests
three_requests-IsConsistent = Reach-IsConsistent nothing three_requests_reached

Reach-IsConsistent_example : IsConsistent three_requests
Reach-IsConsistent_example = Reach-IsConsistent nothing three_requests_reached

both-IsConsistent : IsConsistent both
unfolding contains create_session configure
both-IsConsistent = Reach-IsConsistent nothing (
    next
      (next (next (next here (creates 1 (start nothing) refl)) (configures 1 1 1 2 open_one))
        (creates 2 _ refl))
      (configures 2 1 1 2 open_both))

queue_request-windows_example :
    ((k : ℕ)
      → IsWithin (two_requests.memory k)
      → IsWithin ((queue_request 2 (create_request 102 9 []) two_requests).memory k))
    × ((two_requests.memory 2).window ≢ 0
        → (count_active (queue_request 2 (create_request 102 9 []) two_requests).queue
            ≤ count_active two_requests.queue)
          ⊎ (count_active (queue_request 2 (create_request 102 9 []) two_requests).queue
              ≤ (two_requests.memory 2).window))
queue_request-windows_example =
    queue_request-windows 2 (create_request 102 9 []) two_requests (unfold create_request in refl)

queue_request-fifo_example :
    IsServed
      (enter 1 101 1 (waiting_list 1 one_request.queue))
      (waiting_list 1 two_requests.queue)
      (active_of 1 one_request.queue)
      (active_of 1 two_requests.queue)
unfolding create_request
queue_request-fifo_example = queue_request-fifo 1 (create_request 101 8 []) one_request 1 refl

queue_request-HasTimer_example : HasTimer one_request.queue
unfolding contains create_session configure create_request
queue_request-HasTimer_example =
    queue_request-HasTimer 1 (create_request 100 7 []) both refl refl refl both-IsConsistent

-- The first request is sent once more.
timeouts-retries_example :
    ((timeouts 1 100 three_requests).sent ≡ 100 ∷ 100 ∷ [])
    × (find_address 100 (timeouts 2 100 three_requests).queue ≡ none)
unfolding find_address unlink queue_request process_queue append_request activate count_active
    count_waiting create_request create_session configure transmit
timeouts-retries_example = timeouts-retries 1 100 three_requests first_request refl refl refl

get_request_id-fresh_example :
    (m : ℕ) × (get_request_id (7 ∷ 7 ∷ 10 ∷ 8 ∷ 7 ∷ 9 ∷ []) three_requests.queue ≡ some m)
    × (find_request m three_requests.queue ≡ none)
unfolding contains queue_request process_queue append_request activate count_active count_waiting
    create_request create_session configure transmit
get_request_id-fresh_example =
    get_request_id-fresh (7 ∷ 7 ∷ 10 ∷ 8 ∷ 7 ∷ 9 ∷ []) (7 ∷ 8 ∷ 9 ∷ 10 ∷ []) three_requests.queue
      (refl, (refl, (refl, (refl, tt)))) (omega arith) (λ n i. ground arith)

-- Session 1 is destroyed: the request of session 2 waits, and there is no timer.
destroyed :
    (delete_session 1 three_requests).queue ≡ record (create_request 102 9 []) { session = 2 } ∷ []
unfolding delete_session without_session remove queue_request process_queue append_request activate
    count_active count_waiting create_request create_session configure transmit
destroyed = refl

-- The response to the first request arrives: the second one is sent.
answered : (delete_request 100 three_requests).sent ≡ 100 ∷ 101 ∷ []
unfolding delete_request contains find_address unlink queue_request process_queue append_request
    activate count_active count_waiting create_request create_session configure transmit
answered = refl
