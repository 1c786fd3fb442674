-- ===== src/Job/Configure/Reach.antt =====
-- Every sequence of operations of tnm/generic/tnmJob.c, with scripts that leave the scheduler alone.
use tkined_remix.Prelude.{ap, ℕ, suc, List, [], ◌∷◌, none, some, ◌≡◌, sym, ◌∙◌, arith, length}
use mathlib.Core.Path.{subst}
use tkined_remix.Job.{Job, Time, JobControl, Code, schedule, adjust_time}
use tkined_remix.Job.Round.{IsDistinct, NotIn, IsPlain}
use tkined_remix.Job.Round.Pass.{AllPositive}
use tkined_remix.Job.Delete.{alive}
use tkined_remix.Job.Timer.Schedule.{adjust_time-same, AllPositive-IsLike, schedule-AllTicked}
use tkined_remix.Job.Configure.{Setting, set_config, create_job, destroy, delete_job}
use tkined_remix.Job.Configure.Sound.{
  IsSound, IsKeeping, IsKeeping-IsSound, with_job-IsKeeping, set_config-IsKeeping,
  create_job-IsSound, delete_job-IsSound, IsDistinct-alive, AllPositive-alive, AllTicked-positive,
}

-- The operations, in any order. The scripts leave the scheduler alone.
pub data Step (eval_script : List ℕ → JobControl → Code × JobControl)
    : JobControl → JobControl → Type 0 where
  created :
      (a : ℕ) (l : List (Setting × Time)) (now : Time) (c : JobControl)
      → NotIn a c.jobs
      → Step eval_script c (create_job a l now c).1
  configured :
      (a : ℕ) (l : List (Setting × Time)) (now : Time) (c : JobControl)
      → Step eval_script c (set_config a l now c).1
  destroyed : (a : ℕ) (c : JobControl) → Step eval_script c (destroy a c)
  deleted : (a : ℕ) (c : JobControl) → Step eval_script c (delete_job a c)
  scheduled :
      (now later : Time) (c d : JobControl)
      → schedule eval_script (suc (length c.jobs)) now later c ≡ some d
      → Step eval_script c d

pub data Reach (eval_script : List ℕ → JobControl → Code × JobControl) (c : JobControl)
    : JobControl → Type 0 where
  start : Reach eval_script c c
  step : (d e : JobControl) → Reach eval_script c d → Step eval_script d e → Reach eval_script c e

destroy-IsKeeping : (a : ℕ) (c : JobControl) → IsKeeping c (destroy a c)
unfolding destroy
destroy-IsKeeping a c = with_job-IsKeeping a _ c (λ p. p)

AllPositive-eq :
    (l : List ℕ) (u m : ℕ → Job)
    → ((b : ℕ) → (m b).interval ≡ (u b).interval)
    → AllPositive l u
    → AllPositive l m
AllPositive-eq [] u m h p = tt
AllPositive-eq (a ∷ l) u m h p = (omega (arith, h a, p.0), AllPositive-eq l u m h p.1)

module _ (eval_script : List ℕ → JobControl → Code × JobControl) (code : List ℕ → Code)
    (plain : IsPlain eval_script code) where
  schedule-IsSound :
      (now later : Time) (c : JobControl)
      → IsSound c
      → (d : JobControl) × (schedule eval_script (suc (length c.jobs)) now later c ≡ some d)
        × IsSound d
  schedule-IsSound now later c s =
      let (u, d, e, ticked, log, jobs, idle, like) =
        schedule-AllTicked eval_script code (suc (length c.jobs)) now later c plain s.idle
          s.distinct s.positive (omega arith) in
      let (jobs1, log1, current1, like1) = adjust_time-same now c in
      let aged = AllPositive-IsLike c.jobs c.memory (adjust_time now c).memory like1 s.positive in
      (
        d,
        e,
        record {
          distinct = subst IsDistinct (sym jobs) (IsDistinct-alive c.jobs u s.distinct);
          positive =
              subst (λ l. AllPositive l d.memory) (sym jobs)
                (AllPositive-eq (alive c.jobs u) u d.memory (λ b. ap (λ j. j.interval) (like b))
                  (AllPositive-alive c.jobs u u (AllTicked-positive code c.jobs _ u ticked aged)));
          idle = idle;
        },
      )

  Step-IsSound : {c d : JobControl} → Step eval_script c d → IsSound c → IsSound d
  Step-IsSound (created a l now c n) s = create_job-IsSound a l now c n s
  Step-IsSound (configured a l now c) s =
      IsKeeping-IsSound c (set_config a l now c).1 (set_config-IsKeeping a l now c) s
  Step-IsSound (destroyed a c) s = IsKeeping-IsSound c (destroy a c) (destroy-IsKeeping a c) s
  Step-IsSound (deleted a c) s = delete_job-IsSound a c s
  Step-IsSound (scheduled now later c d e) s =
      let (k, f, sound) = schedule-IsSound now later c s in
      let x : some k ≡ some d = sym f ∙ e in let y : k ≡ d = cc in subst IsSound y sound

  Reach-IsSound_from :
      (c : JobControl) → IsSound c → {d : JobControl} → Reach eval_script c d → IsSound d
  Reach-IsSound_from c s start = s
  Reach-IsSound_from c s (step d e r h) = Step-IsSound h (Reach-IsSound_from c s r)

  -- From a control without jobs, after jobs are created at fresh addresses, configured with any
  -- values, destroyed, deleted and scheduled, in any order, by scripts that leave the scheduler
  -- alone: the jobs of the list are different, their intervals are positive, no job is running,
  -- and schedule ends at any time with one unit of fuel more than there are jobs.
  pub Reach-IsSound :
      (c d : JobControl)
      → c.jobs ≡ []
      → c.current ≡ none
      → Reach eval_script c d
      → IsSound d
        × ((now later : Time)
            → (e : JobControl) × (schedule eval_script (suc (length d.jobs)) now later d ≡ some e))
  Reach-IsSound c d h i r =
      let s =
        Reach-IsSound_from c
          (record {
            distinct = subst IsDistinct (sym h) tt;
            positive = subst (λ l. AllPositive l c.memory) (sym h) tt;
            idle = i;
          })
          r in
      (s, λ now later. let (e, f, sound) = schedule-IsSound now later d s in (e, f))
