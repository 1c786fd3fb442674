-- ===== src/Job/Round.antt =====
-- The loop of Schedule of tnm/generic/tnmJob.c that restarts behind every job, against one pass
-- over the list.
pub mod Pass
use tkined_remix.Prelude.{
  ℕ, zero, suc, ◌+◌, ◌≤◌, ◌<◌, List, [], ◌∷◌, ◌++◌, append_assoc, append-nil, Bool, true, false,
  Option, none, some, ◌≡◌, ◌≢◌, ◌⊎◌, refl, sym, ap, ◌∙◌, arith, ◌==◌, if◌then◌else◌, Bool-cases,
  inl, inr, eq→==, ==→eq, length, Option-cases,
}
use tkined_remix.Job.{
  ℤ, pos, negsuc, is_over, Status, waiting, running, expired, Job, JobControl, put_job, promote,
  is_due, find_due, Code, tcl_ok, tcl_error, tcl_other, no_text, resumed, count_down, finished,
  is_listed, on_error, on_code, run_job, run_due,
}

-- Writing what stands there changes nothing, and the second of two stores counts.
pub put_job-same : (m : ℕ → Job) (a : ℕ) (j : Job) → j ≡ m a → put_job m a j ≡ m
put_job-same m a j e i b = go (Bool-cases (b == a)) i
  where
    go : ((b == a) ≡ true) ⊎ ((b == a) ≡ false) → put_job m a j b ≡ m b
    go (inl q) = rw (q, put_job) (e ∙ ap m (sym (==→eq b a q)))
    go (inr q) = rw (q, put_job) refl

pub put_job-at : (m : ℕ → Job) (a : ℕ) (j : Job) → put_job m a j a ≡ j
put_job-at m a j = (let q = eq→== a a refl in rw (q, put_job) refl)

pub put_job-other : (m : ℕ → Job) (a b : ℕ) (j : Job) → b ≢ a → put_job m a j b ≡ m b
put_job-other m a b j d = elim (Bool-cases (b == a)) [
  | inl q ↦ absurd (d (==→eq b a q))
  | inr q ↦ rw (q, put_job) refl
]

pub put_job-store : (m : ℕ → Job) (a : ℕ) (j k : Job) → put_job (put_job m a j) a k ≡ put_job m a k
put_job-store m a j k i b = go (Bool-cases (b == a)) i
  where
    go : ((b == a) ≡ true) ⊎ ((b == a) ≡ false) → put_job (put_job m a j) a k b ≡ put_job m a k b
    go (inl q) = rw (q, put_job) refl
    go (inr q) = rw (q, put_job) refl

pub promote-none : (j : Job) → j.new_cmd ≡ none → promote j ≡ j
unfolding promote
promote-none j h = ground arith

promote-new_cmd : (j : Job) → (promote j).new_cmd ≡ none
unfolding promote
promote-new_cmd j = elim (Option-cases j.new_cmd) [
  | inl e ↦ rw (e, promote) e
  | inr (t, e) ↦ rw (e, promote) refl
]

pub promote-interval : (j : Job) → (promote j).interval ≡ j.interval
unfolding promote
promote-interval j = elim (Option-cases j.new_cmd) [
  | inl e ↦ rw (e, promote) refl
  | inr (t, e) ↦ rw (e, promote) refl
]

-- The job may not be run: it has no new command, and is not due.
abbrev pub IsSettled : Job → Type 0
IsSettled j = (j.new_cmd ≡ none) × (is_due j ≡ false)

abbrev pub AllSettled : List ℕ → (ℕ → Job) → Type 0
AllSettled [] m = Unit
AllSettled (a ∷ l) m = IsSettled (m a) × AllSettled l m

pub find_due-settled :
    (l rest : List ℕ) (m : ℕ → Job) → AllSettled l m → find_due (l ++ rest) m ≡ find_due rest m
unfolding find_due
find_due-settled [] rest m h = refl
find_due-settled (a ∷ l) rest m h =
    (let p = promote-none (m a) h.0.0 in
      let e : is_due (promote (m a)) ≡ false = ap is_due p ∙ h.0.1 in
      rw (e, find_due)
        (ap (find_due (l ++ rest)) (put_job-same m a (promote (m a)) p)
          ∙ find_due-settled l rest m h.1))

-- The number is not in the list.
abbrev pub NotIn : ℕ → List ℕ → Type 0
NotIn a [] = Unit
NotIn a (b ∷ l) = (b ≢ a) × NotIn a l

abbrev pub IsDistinct : List ℕ → Type 0
IsDistinct [] = Unit
IsDistinct (a ∷ l) = NotIn a l × IsDistinct l

pub AllSettled-store :
    (l : List ℕ) (m : ℕ → Job) (a : ℕ) (j : Job)
    → NotIn a l
    → AllSettled l m
    → AllSettled l (put_job m a j)
AllSettled-store [] m a j n h = tt
AllSettled-store (b ∷ l) m a j n h =
    (rw (put_job-other m a b j n.0) h.0, AllSettled-store l m a j n.1 h.1)

pub AllSettled-snoc :
    (l : List ℕ) (a : ℕ) (m : ℕ → Job)
    → AllSettled l m
    → IsSettled (m a)
    → AllSettled (l ++ a ∷ []) m
AllSettled-snoc [] a m h g = (g, tt)
AllSettled-snoc (b ∷ l) a m h g = (h.0, AllSettled-snoc l a m h.1 g)

-- A job behind its command, by the result of the command.
abbrev pub after_code : Code → Job → Job
after_code tcl_error j = if no_text j.error_cmd then record j { status = expired } else j
after_code tcl_ok j = j
after_code tcl_other j = j

-- A job that was run by scripts that do not touch the scheduler.
abbrev pub ran : (List ℕ → Code) → Job → Job
ran code j = finished (after_code (code j.cmd) (record j { status = running }))

-- What one pass makes of a job.
abbrev pub tick : (List ℕ → Code) → Job → Job
tick code j = if is_due (promote j) then ran code (promote j) else promote j

abbrev pub pass : (List ℕ → Code) → List ℕ → (ℕ → Job) → ℕ → Job
pass code [] m = m
pass code (a ∷ l) m = pass code l (put_job m a (tick code (m a)))

abbrev pub due_of : List ℕ → (ℕ → Job) → List ℕ
due_of [] m = []
due_of (a ∷ l) m = if is_due (promote (m a)) then a ∷ due_of l m else due_of l m

finished-new_cmd : (j : Job) → (finished j).new_cmd ≡ j.new_cmd
unfolding finished count_down
finished-new_cmd j = ground arith

finished-is_due : (j : Job) → 0 < j.interval → is_due (finished j) ≡ false
unfolding finished count_down
finished-is_due j h = ground arith

pub after_code-fields :
    (k : Code) (j : Job)
    → ((after_code k j).new_cmd ≡ j.new_cmd) × ((after_code k j).interval ≡ j.interval)
after_code-fields tcl_ok j = (refl, refl)
after_code-fields tcl_error j = ground arith
after_code-fields tcl_other j = (refl, refl)

pub tick-IsSettled : (code : List ℕ → Code) (j : Job) → 0 < j.interval → IsSettled (tick code j)
tick-IsSettled code j h = elim (Bool-cases (is_due (promote j))) [
  | inr n ↦ rw n (promote-new_cmd j, n)
  | inl y ↦
      let p = promote j in
      let r = after_code-fields (code p.cmd) (record p { status = running }) in
      rw y (
        finished-new_cmd (after_code (code p.cmd) (record p { status = running }))
            ∙ r.0
            ∙ promote-new_cmd j,
        finished-is_due (after_code (code p.cmd) (record p { status = running }))
            (omega (arith, r.1, promote-interval j, h)),
      )
]

-- The scripts do not touch the scheduler; each has its result.
abbrev pub IsPlain : (List ℕ → JobControl → Code × JobControl) → (List ℕ → Code) → Type 0
IsPlain eval_script code = (s : List ℕ) (c : JobControl) → eval_script s c ≡ (code s, c)

-- The control with a memory and a log.
abbrev pub with_log : JobControl → (ℕ → Job) → List ℕ → JobControl
with_log c m log = record c { memory = m; log = log }

-- The end of the body of the loop.
abbrev behind : ℕ → Option JobControl → Option JobControl
behind a none = none
behind a (some e) =
    some (record e { memory = put_job e.memory a (finished (e.memory a)); current = none })

-- The loop behind a job.
abbrev onward :
    (List ℕ → JobControl → Code × JobControl) → ℕ → Option JobControl → Option JobControl
onward eval_script f none = none
onward eval_script f (some d) = run_due eval_script f d

three_stores :
    (m : ℕ → Job) (a : ℕ) (j : Job) (f : Job → Job)
    → put_job
        (put_job (put_job m a j) a (f (put_job m a j a)))
        a
        (finished (put_job (put_job m a j) a (f (put_job m a j a)) a))
      ≡ put_job m a (finished (f j))
three_stores m a j f =
    ap (put_job (put_job (put_job m a j) a (f (put_job m a j a))) a)
      (ap finished (put_job-at (put_job m a j) a (f (put_job m a j a)) ∙ ap f (put_job-at m a j)))
    ∙ put_job-store (put_job m a j) a (f (put_job m a j a)) (finished (f j))
    ∙ put_job-store m a j (finished (f j))

module _ (eval_script : List ℕ → JobControl → Code × JobControl) (code : List ℕ → Code)
    (plain : IsPlain eval_script code) where
  on_code-plain :
      (k : Code) (a : ℕ) (c : JobControl)
      → is_listed a c.jobs ≡ true
      → on_code eval_script k a c
        ≡ some (record c { memory = put_job c.memory a (after_code k (c.memory a)) })
  unfolding on_code on_error
  on_code-plain tcl_ok a c i =
      ap (λ m. some (record c { memory = m })) (sym (put_job-same c.memory a (c.memory a) refl))
  on_code-plain tcl_other a c i =
      ap (λ m. some (record c { memory = m })) (sym (put_job-same c.memory a (c.memory a) refl))
  on_code-plain tcl_error a c i = elim (Bool-cases (no_text (c.memory a).error_cmd)) [
    | inl y ↦ rw (y, on_code, on_error, i) refl
    | inr n ↦
        rw (n, on_code, on_error)
          (ap (λ x. some x.1) (plain (c.memory a).error_cmd c)
            ∙ ap (λ m. some (record c { memory = m }))
                (sym (put_job-same c.memory a (c.memory a) refl)))
  ]

  pub run_job-plain :
      (a : ℕ) (c : JobControl)
      → is_listed a c.jobs ≡ true
      → run_job eval_script a c
        ≡ some (record c {
          memory = put_job c.memory a (ran code (c.memory a));
          current = none;
          log = c.log ++ a ∷ [];
        })
  unfolding run_job
  run_job-plain a c i =
      let j = record (c.memory a) { status = running } in
      let d = record c { memory = put_job c.memory a j; current = some a; log = c.log ++ a ∷ [] } in
      ap (λ x. behind a (on_code eval_script x.0 a x.1)) (plain (c.memory a).cmd d)
      ∙ ap (behind a) (on_code-plain (code (c.memory a).cmd) a d i)
      ∙ ap (λ m. some (record c { memory = m; current = none; log = c.log ++ a ∷ [] }))
          (three_stores c.memory a j (after_code (code (c.memory a).cmd)))

  pub run_due-due :
      (f a : ℕ) (c : JobControl) (m : ℕ → Job)
      → find_due c.jobs c.memory ≡ (m, some a)
      → run_due eval_script (suc f) c
        ≡ onward eval_script f (run_job eval_script a (record c { memory = m }))
  unfolding run_due
  run_due-due f a c m e =
      ap
        (λ (x : (ℕ → Job) × Option ℕ). elim x.1 as (λ _. Option JobControl) [
          | none ↦ some (record c { memory = x.0 })
          | some b ↦ onward eval_script f (run_job eval_script b (record c { memory = x.0 }))
        ])
        e

  pub run_due-none :
      (f : ℕ) (c : JobControl) (m : ℕ → Job)
      → find_due c.jobs c.memory ≡ (m, none)
      → run_due eval_script (suc f) c ≡ some (record c { memory = m })
  unfolding run_due
  run_due-none f c m e =
      ap
        (λ (x : (ℕ → Job) × Option ℕ). elim x.1 as (λ _. Option JobControl) [
          | none ↦ some (record c { memory = x.0 })
          | some b ↦ onward eval_script f (run_job eval_script b (record c { memory = x.0 }))
        ])
        e
