-- ===== src/Job/Timer/Schedule.antt =====
-- Schedule of tnm/generic/tnmJob.c as a whole.
use tkined_remix.Prelude.{
  ℕ, ◌<◌, List, [], ◌∷◌, ◌++◌, Option, none, some, ◌≡◌, refl, sym, ap, ◌∙◌, arith, ◌==◌, ◌&&◌,
  Bool-cases, Option-cases, inl, inr, length, ==→eq,
}
use mathlib.Core.Path.{subst}
use tkined_remix.Job.{
  pos, Job, JobControl, Time, Code, is_suspended, put_job, is_expired, aged, age_all, elapsed,
  adjust_time, next_schedule, run_due, delete_expired, schedule,
}
use tkined_remix.Job.Round.{IsPlain, IsDistinct, pass, due_of}
use tkined_remix.Job.Round.Pass.{AllPositive, run_due-pass, AllTicked, pass-AllTicked}
use tkined_remix.Job.Delete.{alive, NoneExpired, delete_expired-alive, delete_expired-NoneExpired}
use tkined_remix.Job.Timer.{IsTimed, next_schedule-IsTimed, next_schedule-same}

-- A job without its remaining time.
abbrev pub timeless : Job → Job
timeless j = record j { remtime = pos 0 }

-- The jobs differ in their remaining times at most.
abbrev pub IsLike : Job → Job → Type 0
IsLike j k = timeless j ≡ timeless k

aged-IsLike : (delta : ℕ) (j : Job) → IsLike (aged delta j) j
unfolding aged
aged-IsLike delta j = elim (Bool-cases (is_suspended j.status)) [
  | inl y ↦ rw y refl
  | inr n ↦ rw n refl
]

put_job-IsLike :
    (m : ℕ → Job) (a : ℕ) (j : Job) → IsLike j (m a) → (b : ℕ) → IsLike (put_job m a j b) (m b)
put_job-IsLike m a j h b = elim (Bool-cases (b == a)) [
  | inl q ↦ rw (q, put_job) (subst (λ x. IsLike j (m x)) (sym (==→eq b a q)) h)
  | inr q ↦ rw (q, put_job) refl
]

age_all-IsLike : (delta : ℕ) (l : List ℕ) (m : ℕ → Job) (b : ℕ) → IsLike (age_all delta l m b) (m b)
unfolding age_all
age_all-IsLike delta [] m b = refl
age_all-IsLike delta (a ∷ l) m b =
    age_all-IsLike delta l (put_job m a (aged delta (m a))) b
    ∙ put_job-IsLike m a (aged delta (m a)) (aged-IsLike delta (m a)) b

pub adjust_time-same :
    (now : Time) (c : JobControl)
    → ((adjust_time now c).jobs ≡ c.jobs)
      × ((adjust_time now c).log ≡ c.log)
      × ((adjust_time now c).current ≡ c.current)
      × ((b : ℕ) → IsLike ((adjust_time now c).memory b) (c.memory b))
unfolding adjust_time
adjust_time-same now c = elim (Bool-cases (c.last_time.sec == 0 && c.last_time.usec == 0)) [
  | inl y ↦ rw (y, adjust_time) (refl, refl, refl, λ b. refl)
  | inr n ↦ elim (Bool-cases (elapsed c.last_time now == 0)) [
    | inl z ↦ rw (n, adjust_time, z) (refl, refl, refl, λ b. refl)
    | inr z ↦
        rw (n, adjust_time, z)
          (refl, refl, refl, λ b. age_all-IsLike (elapsed c.last_time now) c.jobs c.memory b)
  ]
]

NoneExpired-IsLike :
    (l : List ℕ) (m u : ℕ → Job)
    → ((b : ℕ) → IsLike (u b) (m b))
    → NoneExpired l m
    → NoneExpired l u
NoneExpired-IsLike [] m u h n = tt
NoneExpired-IsLike (a ∷ l) m u h n =
    (ap (λ j. is_expired j.status) (h a) ∙ n.0, NoneExpired-IsLike l m u h n.1)

pub AllPositive-IsLike :
    (l : List ℕ) (m u : ℕ → Job)
    → ((b : ℕ) → IsLike (u b) (m b))
    → AllPositive l m
    → AllPositive l u
AllPositive-IsLike [] m u h n = tt
AllPositive-IsLike (a ∷ l) m u h n =
    (omega (arith, ap (λ j. j.interval) (h a), n.0), AllPositive-IsLike l m u h n.1)

-- The end of Schedule.
after_deletion :
    (later : Time) (e : JobControl)
    → NoneExpired e.jobs e.memory
    → let d = next_schedule (adjust_time later e) in
      NoneExpired d.jobs d.memory × IsTimed d.timer d.jobs d.memory
after_deletion later e h =
    let f = adjust_time later e in
    let (jobs, log, current, like) = adjust_time-same later e in
    let (jobs', memory', log', current') = next_schedule-same f in
    let kept =
      NoneExpired-IsLike f.jobs e.memory f.memory like
        (subst (λ l. NoneExpired l e.memory) (sym jobs) h) in
    (rw (jobs', memory') kept, rw (jobs', memory') (next_schedule-IsTimed f))

-- For any scripts, where schedule ends within the fuel, and no job is deleted by its own exit
-- script, or by its own command if that fails and there is no error command, since Schedule then
-- looks at what was freed: no job of the list is expired, and the timer runs for the least time to
-- wait of a waiting job, 0 for one that is late; there is no timer exactly if no job is waiting.
pub schedule-IsTimed :
    (eval_script : List ℕ → JobControl → Code × JobControl) (fuel : ℕ) (now later : Time)
    (c d : JobControl)
    → schedule eval_script fuel now later c ≡ some d
    → NoneExpired d.jobs d.memory × IsTimed d.timer d.jobs d.memory
unfolding schedule
schedule-IsTimed eval_script fuel now later c d e =
    elim (Option-cases (run_due eval_script fuel (adjust_time now c))) [
      | inl x ↦ absurd (let z : ◌≡◌ {A = Option JobControl} none (some d) = ground arith in cc)
      | inr (r, x) ↦ elim (Option-cases (delete_expired eval_script fuel r)) [
        | inl y ↦ absurd (let z : ◌≡◌ {A = Option JobControl} none (some d) = ground arith in cc)
        | inr (k, y) ↦
            let z : some (next_schedule (adjust_time later k)) ≡ some d = ground arith in
            let w : next_schedule (adjust_time later k) ≡ d = cc in
            subst (λ g. NoneExpired g.jobs g.memory × IsTimed g.timer g.jobs g.memory) w
              (after_deletion later k (delete_expired-NoneExpired eval_script fuel r k y))
      ]
    ]

schedule_ends :
    (eval_script : List ℕ → JobControl → Code × JobControl) (fuel : ℕ) (now later : Time)
    (c r e : JobControl)
    → run_due eval_script fuel (adjust_time now c) ≡ some r
    → delete_expired eval_script fuel r ≡ some e
    → schedule eval_script fuel now later c ≡ some (next_schedule (adjust_time later e))
unfolding schedule
schedule_ends eval_script fuel now later c r e p q = rw (p, schedule, q) refl

-- If no job is running, the jobs of the list are different, their intervals positive, and the
-- scripts leave the scheduler alone, schedule ends with more fuel than there are jobs. Every job
-- that was due was run once, in the order of the list, and no other one. But for its remaining
-- time, each job is as one tick makes it; the jobs that are not expired then stay, in their order.
-- No job is running then.
pub schedule-AllTicked :
    (eval_script : List ℕ → JobControl → Code × JobControl) (code : List ℕ → Code) (fuel : ℕ)
    (now later : Time) (c : JobControl)
    → IsPlain eval_script code
    → c.current ≡ none
    → IsDistinct c.jobs
    → AllPositive c.jobs c.memory
    → length c.jobs < fuel
    → (u : ℕ → Job) × (d : JobControl) × (schedule eval_script fuel now later c ≡ some d)
      × AllTicked code c.jobs (adjust_time now c).memory u
      × (d.log ≡ c.log ++ due_of c.jobs (adjust_time now c).memory)
      × (d.jobs ≡ alive c.jobs u)
      × (d.current ≡ none)
      × ((b : ℕ) → IsLike (d.memory b) (u b))
schedule-AllTicked eval_script code fuel now later c plain idle distinct positive h =
    let c1 = adjust_time now c in
    let (jobs1, log1, current1, like1) = adjust_time-same now c in
    let distinct1 = subst IsDistinct (sym jobs1) distinct in
    let positive1 =
      AllPositive-IsLike c1.jobs c.memory c1.memory like1
        (subst (λ l. AllPositive l c.memory) (sym jobs1) positive) in
    let h1 : length c1.jobs < fuel = subst (λ l. length l < fuel) (sym jobs1) h in
    let u = pass code c1.jobs c1.memory in
    let r = record c1 { memory = u; log = c1.log ++ due_of c1.jobs c1.memory } in
    let e = record r { jobs = alive c1.jobs u } in
    let f = adjust_time later e in
    let (jobs2, log2, current2, like2) = adjust_time-same later e in
    let (jobs3, memory3, log3, current3) = next_schedule-same f in
    (
      u,
      next_schedule f,
      schedule_ends eval_script fuel now later c r e
          (run_due-pass eval_script code plain c1 (current1 ∙ idle) fuel distinct1 positive1 h1)
          (delete_expired-alive eval_script code plain fuel r h1),
      subst (λ l. AllTicked code l c1.memory u) jobs1
          (pass-AllTicked code c1.jobs c1.memory distinct1),
      log3
          ∙ log2
          ∙ ap (λ x. x ++ due_of c1.jobs c1.memory) log1
          ∙ ap (λ l. c.log ++ due_of l c1.memory) jobs1,
      jobs3 ∙ jobs2 ∙ ap (λ l. alive l u) jobs1,
      current3 ∙ current2 ∙ current1 ∙ idle,
      λ b. ap (λ m. timeless (m b)) memory3 ∙ like2 b,
    )
