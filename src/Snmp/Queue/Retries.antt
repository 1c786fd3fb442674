-- ===== src/Snmp/Queue/Retries.antt =====
-- A request that gets no answer: TnmSnmpTimeoutProc of tnm/snmp/tnmSnmpNet.c, timer after timer.
use tkined_remix.Prelude.{
  ℕ, zero, suc, ◌+◌, ◌-◌, ◌≤◌, List, [], ◌∷◌, ◌++◌, true, false, ◌≡◌, refl, arith, none, some, ltb,
  ◌==◌, ◌&&◌, ◌||◌, Bool-cases, inl, inr, Option-cases, ap, sym, ◌∙◌, append_assoc, append-nil,
}
use tkined_remix.Snmp.Queue.{
  Session, Request, Engine, update, contains, is_waiting, is_full, has_room, activated, transmit,
  activate, process_queue, unlink, replace, find_address, delete_request, timeout_proc,
}
use tkined_remix.Snmp.Queue.Timeout.{find_address-address}

-- The timer of a request runs out n times.
abbrev pub timeouts : ℕ → ℕ → Engine → Engine
timeouts zero a e = e
timeouts (suc n) a e = timeouts n a (timeout_proc a e)

abbrev pub copies : ℕ → ℕ → List ℕ
copies zero a = []
copies (suc n) a = a ∷ copies n a

-- The loop keeps the addresses of the requests.
activate-find :
    (w act wait : ℕ) (m : ℕ → Session) (rs : List Request) (a : ℕ)
    → find_address a rs ≡ none
    → find_address a (activate w act wait m rs).queue ≡ none
unfolding activate find_address transmit
activate-find w act wait m [] a h = refl
activate-find w act wait m (r ∷ rs) a h = elim (Bool-cases (wait == 0 || is_full w act)) [
  | inl stop ↦ rw (stop, activate) h
  | inr on ↦ elim (Bool-cases (is_waiting r && has_room (m r.session))) [
    | inl ready ↦
        rw (on, ready, activate)
          (ground (
            arith,
            activate-find w (act + 1) (wait - 1) (update m r.session (activated (m r.session))) rs
                a,
          ))
    | inr busy ↦ rw (on, busy, activate) (ground (arith, activate-find w act wait m rs a))
  ]
]

delete_request-find :
    (a : ℕ) (e : Engine)
    → find_address a (unlink a e.queue) ≡ none
    → find_address a (delete_request a e).queue ≡ none
unfolding delete_request
delete_request-find a e h = elim (Option-cases (find_address a e.queue)) [
  | inl n ↦ rw (n, delete_request) n
  | inr (r, f) ↦ elim (Bool-cases (contains r.session e.opened)) [
    | inl o ↦
        rw (f, o, delete_request)
          (unfold process_queue in activate-find _ _ _ _ (unlink a e.queue) a h)
    | inr c ↦ rw (f, c, delete_request) h
  ]
]

-- A request in the place of one with its address.
find-replace :
    (r q : Request) (rs : List Request)
    → find_address r.address rs ≡ some q
    → find_address r.address (replace r rs) ≡ some r
unfolding find_address replace
find-replace r q [] h = absurd (cc)
find-replace r q (p ∷ rs) h = ground (arith, find-replace r q rs)

unlink-replace :
    (r : Request) (rs : List Request) → unlink r.address (replace r rs) ≡ unlink r.address rs
unfolding unlink replace
unlink-replace r [] = refl
unlink-replace r (p ∷ rs) = ground (arith, unlink-replace r rs)

-- The branch of TnmSnmpTimeoutProc that sends the request again.
resent : ℕ → Request → Engine → Engine
resent a r e = record e {
  queue = replace (transmit (e.memory r.session) r) e.queue;
  sent = e.sent ++ (a ∷ []);
}

timeout_proc-resent :
    (a : ℕ) (e : Engine) (r : Request)
    → find_address a e.queue ≡ some r
    → r.sends ≤ (e.memory r.session).retries
    → timeout_proc a e ≡ resent a r e
unfolding timeout_proc resent
timeout_proc-resent a e r f h =
    let again : ltb r.sends (1 + (e.memory r.session).retries) ≡ true = ground arith in
    rw (f, again, timeout_proc) refl

-- It is still found, sent once more, and alone with its address.
resent-kept :
    (a : ℕ) (e : Engine) (r : Request)
    → find_address a e.queue ≡ some r
    → find_address a (unlink a e.queue) ≡ none
    → (find_address a (resent a r e).queue ≡ some (transmit (e.memory r.session) r))
      × (find_address a (unlink a (resent a r e).queue) ≡ none)
unfolding resent transmit
resent-kept a e r f u =
    let same = find_address-address a e.queue r f in
    let new = transmit (e.memory r.session) r in
    let f' : find_address r.address e.queue ≡ some r = ap (λ x. find_address x e.queue) same ∙ f in
    (
      ap (λ x. find_address x (replace new e.queue)) (sym same) ∙ find-replace new r e.queue f',
      ap (λ x. find_address a (unlink x (replace new e.queue))) (sym same)
          ∙ (ap (find_address a) (unlink-replace new e.queue)
              ∙ (ap (λ x. find_address a (unlink x e.queue)) same ∙ u)),
    )

-- A request that is in the queue once, and whose session allows it to be sent n more times, is sent
-- n more times and nothing else is, when its timer runs out n times and no answer comes; when it
-- runs out once more, the request is no longer in the queue.
pub timeouts-retries :
    (n a : ℕ) (e : Engine) (r : Request)
    → find_address a e.queue ≡ some r
    → find_address a (unlink a e.queue) ≡ none
    → r.sends + n ≡ 1 + (e.memory r.session).retries
    → ((timeouts n a e).sent ≡ e.sent ++ copies n a)
      × (find_address a (timeouts (suc n) a e).queue ≡ none)
unfolding timeout_proc
timeouts-retries zero a e r f u h =
    let over : ltb r.sends (1 + (e.memory r.session).retries) ≡ false = ground arith in
    (sym (append-nil e.sent), rw (f, over, timeout_proc) (delete_request-find a e u))
timeouts-retries (suc n) a e r f u h =
    let once = timeout_proc-resent a e r f (omega arith) in
    let kept = resent-kept a e r f u in
    let ih =
      timeouts-retries n a (resent a r e) (transmit (e.memory r.session) r) kept.0 kept.1
        (unfold resent in unfold transmit in omega arith) in
    (
      ap (λ x. (timeouts n a x).sent) once
          ∙ (ih.0 ∙ unfold resent in append_assoc e.sent (a ∷ []) (copies n a)),
      ap (λ x. find_address a (timeouts (suc n) a x).queue) once ∙ ih.1,
    )
