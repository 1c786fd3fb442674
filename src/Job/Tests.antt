-- ===== src/Job/Tests.antt =====
-- Runs of the scheduler of tnm/generic/tnmJob.c.
use tkined_remix.Prelude.{ℕ, suc, List, [], ◌∷◌, ◌++◌, Option, none, some, ◌≡◌, refl, arith, length}
use tkined_remix.Job.{
  pos, minus, suspended, waiting, expired, Job, Time, JobControl, put_job, elapsed, aged, age_all,
  adjust_time, least, next_schedule, no_time, promote, find_due, Code, tcl_ok, tcl_error,
  count_down, finished, find_expired, unlink_job, is_listed, on_error, on_code, run_job, run_due,
  delete_expired, schedule,
}
use tkined_remix.Job.Round.{due_of}
use tkined_remix.Job.Round.Pass.{AllTicked}
use tkined_remix.Job.Delete.{alive, NoneExpired}
use tkined_remix.Job.Timer.{IsTimed}
use tkined_remix.Job.Timer.Schedule.{IsLike, schedule-IsTimed, schedule-AllTicked}
use tkined_remix.Job.Configure.{opt_status, set_option, new_job, create_job, destroy, delete_job}
use tkined_remix.Job.Configure.Sound.{IsSound}
use tkined_remix.Job.Configure.Reach.{start, step, created, destroyed, Reach-IsSound}

-- Scripts that return TCL_OK and leave the scheduler alone.
abbrev quiet : List ℕ → JobControl → Code × JobControl
quiet s c = (tcl_ok, c)

abbrev at : ℕ → Time
at s = record { sec = s; usec = 0 }

-- Job 0 is due for the last time, job 1 is suspended, and job 2 waits for 700 ms.
abbrev three : JobControl
three = record {
  memory =
      put_job
        (put_job (put_job (λ a. new_job) 0 (record new_job { iterations = 1 })) 1
          (record new_job { status = suspended }))
        2 (record new_job { remtime = pos 700 });
  jobs = 0 ∷ 1 ∷ 2 ∷ [];
  current = none;
  timer = none;
  last_time = at 5;
  log = [];
}

schedule-AllTicked_example :
    (u : ℕ → Job) × (d : JobControl) × (schedule quiet 4 (at 5) (at 6) three ≡ some d)
    × AllTicked (λ s. tcl_ok) three.jobs (adjust_time (at 5) three).memory u
    × (d.log ≡ three.log ++ due_of three.jobs (adjust_time (at 5) three).memory)
    × (d.jobs ≡ alive three.jobs u)
    × (d.current ≡ none)
    × ((b : ℕ) → IsLike (d.memory b) (u b))
schedule-AllTicked_example =
    schedule-AllTicked quiet (λ s. tcl_ok) 4 (at 5) (at 6) three (λ s c. refl) refl
      ((λ e. omega arith, (λ e. omega arith, tt)), ((λ e. omega arith, tt), (tt, tt)))
      (omega arith, (omega arith, (omega arith, tt))) (omega arith)

unfoldable three_after : Option JobControl
unfolding schedule run_due find_due run_job on_code promote adjust_time elapsed age_all aged minus
    finished count_down delete_expired find_expired unlink_job is_listed next_schedule least
three_after = schedule quiet 4 (at 5) (at 5) three

three_timer : elim three_after [ none ↦ none | some d ↦ d.timer ] ≡ some 700
unfolding three_after
three_timer = refl

-- The script that destroys job 2.
abbrev meddling : List ℕ → JobControl → Code × JobControl
meddling s c = (tcl_error, destroy 2 c)

abbrev unwrapped : Option JobControl → JobControl
unwrapped none = three
unwrapped (some d) = d

schedule-IsTimed_example :
    NoneExpired
      (unwrapped (schedule meddling 4 (at 5) (at 5) three)).jobs
      (unwrapped (schedule meddling 4 (at 5) (at 5) three)).memory
    × IsTimed
        (unwrapped (schedule meddling 4 (at 5) (at 5) three)).timer
        (unwrapped (schedule meddling 4 (at 5) (at 5) three)).jobs
        (unwrapped (schedule meddling 4 (at 5) (at 5) three)).memory
unfolding schedule run_due find_due run_job on_code on_error promote adjust_time elapsed age_all
    aged minus finished count_down delete_expired find_expired unlink_job is_listed next_schedule
    least destroy
schedule-IsTimed_example =
    schedule-IsTimed meddling 4 (at 5) (at 5) three
      (unwrapped (schedule meddling 4 (at 5) (at 5) three)) refl

Reach-IsSound_example :
    IsSound (destroy 0 (create_job 0 [] (at 1) (record three { jobs = [] })).1)
    × ((now later : Time)
        → (e : JobControl) × (schedule quiet
              (suc
                (length (destroy 0 (create_job 0 [] (at 1) (record three { jobs = [] })).1).jobs))
              now
              later
              (destroy 0 (create_job 0 [] (at 1) (record three { jobs = [] })).1)
            ≡ some e))
Reach-IsSound_example =
    Reach-IsSound quiet (λ s. tcl_ok) (λ s c. refl) (record three { jobs = [] })
      (destroy 0 (create_job 0 [] (at 1) (record three { jobs = [] })).1) refl refl
      (step (create_job 0 [] (at 1) (record three { jobs = [] })).1 _
        (step (record three { jobs = [] }) _ start (created 0 [] (at 1) _ tt)) (destroyed 0 _))

-- The only job is suspended, then destroyed: no timer runs, so the job stays in the list.
abbrev lone : JobControl
lone = record three { jobs = 1 ∷ []; last_time = no_time }

destroyed_stays : ((destroy 1 lone).timer ≡ none) × ((destroy 1 lone).jobs ≡ 1 ∷ [])
unfolding destroy
destroyed_stays = (refl, refl)

-- Job 1, suspended with 900 ms left, is resumed while job 2 waits. The 600 ms since the last look
-- at the clock are taken off both.
abbrev paused : JobControl
paused = record three {
  memory =
      put_job (put_job (λ a. new_job) 1 (record new_job { status = suspended; remtime = pos 900 }))
        2 (record new_job { remtime = pos 700 });
  jobs = 1 ∷ 2 ∷ [];
}

abbrev resumed_one : Job
resumed_one =
    (set_option 1 (opt_status (some waiting)) (record { sec = 5; usec = 600000 }) paused).1.memory 1

resumed_early : resumed_one.remtime ≡ pos 300
unfolding set_option adjust_time elapsed age_all aged minus next_schedule least
resumed_early = refl

-- Job 1 is expired, and its exit script deletes it: Schedule reads the freed job.
abbrev doomed : JobControl
doomed = record three {
  memory = put_job (λ a. new_job) 1 (record new_job { status = expired; exit_cmd = b'x' ∷ [] });
  jobs = 1 ∷ [];
}

abbrev self_deleting : List ℕ → JobControl → Code × JobControl
self_deleting s c = (tcl_ok, delete_job 1 c)

freed_job :
    (delete_expired quiet 2 doomed ≡ some (record doomed { jobs = [] }))
    × (delete_expired self_deleting 2 doomed ≡ none)
unfolding delete_expired find_expired unlink_job is_listed delete_job
freed_job = (refl, refl)

-- The command of job 1 deletes the job and fails: Tcl_GetCommandName is called for it.
abbrev failing : List ℕ → JobControl → Code × JobControl
failing s c = (tcl_error, delete_job 1 c)

nameless : run_due failing 2 (record doomed { memory = put_job (λ a. new_job) 1 new_job }) ≡ none
unfolding run_due find_due run_job promote on_code on_error is_listed unlink_job delete_job
nameless = refl
