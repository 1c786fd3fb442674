-- ===== src/Job/Configure/Sound.antt =====
-- What every sequence of operations of tnm/generic/tnmJob.c keeps, so that Schedule always ends.
use tkined_remix.Prelude.{
  ℕ, zero, suc, ◌<◌, List, [], ◌∷◌, ◌++◌, Option, none, some, ◌≡◌, ◌≢◌, refl, sym, ap, ◌∙◌, arith,
  ◌==◌, Bool-cases, Option-cases, inl, inr, ==→eq,
}
use mathlib.Core.Path.{subst}
use tkined_remix.Job.{
  ℤ, pos, negsuc, Job, Time, JobControl, put_job, adjust_time, next_schedule, unlink_job, Code,
  finished, count_down, is_due, promote, is_expired, running,
}
use tkined_remix.Job.Round.{
  put_job-at, IsDistinct, NotIn, tick, after_code, after_code-fields, promote-interval,
}
use tkined_remix.Job.Round.Pass.{AllPositive, AllTicked}
use tkined_remix.Job.Delete.{alive}
use tkined_remix.Job.Timer.{next_schedule-same}
use tkined_remix.Job.Timer.Schedule.{adjust_time-same}
use tkined_remix.Job.Configure.{
  Setting, opt_command, opt_error, opt_exit, opt_interval, opt_iterations, opt_status, opt_time,
  get_positive, get_unsigned, with_job, set_option, set_config, new_job, create_job, delete_job,
  requested,
}

-- The list and the running job stay, and positive intervals stay positive.
abbrev pub IsKeeping : JobControl → JobControl → Type 0
IsKeeping c d =
    (d.jobs ≡ c.jobs)
    × (d.current ≡ c.current)
    × ((b : ℕ) → 0 < (c.memory b).interval → 0 < (d.memory b).interval)

IsKeeping-trans : (c d e : JobControl) → IsKeeping c d → IsKeeping d e → IsKeeping c e
IsKeeping-trans c d e (j, k, h) (j', k', h') = (j' ∙ j, k' ∙ k, λ b p. h' b (h b p))

pub with_job-IsKeeping :
    (a : ℕ) (j : Job) (c : JobControl)
    → (0 < (c.memory a).interval → 0 < j.interval)
    → IsKeeping c (with_job a j c)
with_job-IsKeeping a j c h = (
  refl,
  refl,
  λ b p. elim (Bool-cases (b == a)) [
    | inl q ↦ rw (q, put_job) (h (subst (λ x. 0 < (c.memory x).interval) (==→eq b a q) p))
    | inr q ↦ rw (q, put_job) p
  ],
)

adjust_time-IsKeeping : (now : Time) (c : JobControl) → IsKeeping c (adjust_time now c)
adjust_time-IsKeeping now c =
    let (jobs, log, current, like) = adjust_time-same now c in
    (jobs, current, λ b p. omega (arith, ap (λ j. j.interval) (like b), p))

next_schedule-IsKeeping : (c : JobControl) → IsKeeping c (next_schedule c)
next_schedule-IsKeeping c =
    let (jobs, memory, log, current) = next_schedule-same c in
    (jobs, current, λ b p. omega (arith, ap (λ m. (m b).interval) memory, p))

get_positive-pos : (v : Option ℤ) (n : ℕ) → get_positive v ≡ some n → 0 < n
unfolding get_positive
get_positive-pos none n e = absurd cc
get_positive-pos (some (pos zero)) n e = absurd cc
get_positive-pos (some (pos (suc k))) n e = (let z : suc k ≡ n = cc in omega arith)
get_positive-pos (some (negsuc k)) n e = absurd cc

set_option-IsKeeping :
    (a : ℕ) (x : Setting) (now : Time) (c : JobControl) → IsKeeping c (set_option a x now c).1
unfolding set_option
set_option-IsKeeping a (opt_command text) now c = with_job-IsKeeping a _ c (λ p. p)
set_option-IsKeeping a (opt_error text) now c = with_job-IsKeeping a _ c (λ p. p)
set_option-IsKeeping a (opt_exit text) now c = with_job-IsKeeping a _ c (λ p. p)
set_option-IsKeeping a (opt_interval v) now c = elim (Option-cases (get_positive v)) [
  | inl e ↦ rw (e, set_option) (refl, refl, λ b p. p)
  | inr (n, e) ↦ rw (e, set_option) (with_job-IsKeeping a _ c (λ p. get_positive-pos v n e))
]
set_option-IsKeeping a (opt_iterations v) now c = elim (Option-cases (get_unsigned v)) [
  | inl e ↦ rw (e, set_option) (refl, refl, λ b p. p)
  | inr (n, e) ↦ rw (e, set_option) (with_job-IsKeeping a _ c (λ p. p))
]
set_option-IsKeeping a (opt_status none) now c = (refl, refl, λ b p. p)
set_option-IsKeeping a (opt_status (some s)) now c =
    let d = with_job a (record (c.memory a) { status = requested s }) c in
    IsKeeping-trans c (adjust_time now d) (next_schedule (adjust_time now d))
      (IsKeeping-trans c d (adjust_time now d) (with_job-IsKeeping a _ c (λ p. p))
        (adjust_time-IsKeeping now d))
      (next_schedule-IsKeeping (adjust_time now d))
set_option-IsKeeping a opt_time now c = (refl, refl, λ b p. p)

pub set_config-IsKeeping :
    (a : ℕ) (l : List (Setting × Time)) (now : Time) (c : JobControl)
    → IsKeeping c (set_config a l now c).1
unfolding set_config
set_config-IsKeeping a [] now c = adjust_time-IsKeeping now c
set_config-IsKeeping a ((x, t) ∷ l) now c = elim (Bool-cases (set_option a x t c).0) [
  | inl y ↦
      rw (y, set_config)
        (IsKeeping-trans c (set_option a x t c).1 (set_config a l now (set_option a x t c).1).1
          (set_option-IsKeeping a x t c) (set_config-IsKeeping a l now (set_option a x t c).1))
  | inr n ↦ rw (n, set_config) (set_option-IsKeeping a x t c)
]

-- The jobs of the list are different, all intervals are positive, and no job is running.
pub record IsSound (c : JobControl) : Type 0 where
  pub distinct : IsDistinct c.jobs
  pub positive : AllPositive c.jobs c.memory
  pub idle : c.current ≡ none

pub IsKeeping-IsSound : (c d : JobControl) → IsKeeping c d → IsSound c → IsSound d
IsKeeping-IsSound c d (jobs, current, h) s = record {
  distinct = subst IsDistinct (sym jobs) s.distinct;
  positive = subst (λ l. AllPositive l d.memory) (sym jobs) (go c.jobs s.positive);
  idle = current ∙ s.idle;
}
  where
    go : (l : List ℕ) → AllPositive l c.memory → AllPositive l d.memory
    go [] p = tt
    go (a ∷ l) p = (h a p.0, go l p.1)

AllPositive-snoc :
    (l : List ℕ) (a : ℕ) (m : ℕ → Job)
    → AllPositive l m
    → 0 < (m a).interval
    → AllPositive (l ++ a ∷ []) m
AllPositive-snoc [] a m p q = (q, tt)
AllPositive-snoc (b ∷ l) a m p q = (p.0, AllPositive-snoc l a m p.1 q)

NotIn-snoc : (l : List ℕ) (a b : ℕ) → NotIn b l → a ≢ b → NotIn b (l ++ a ∷ [])
NotIn-snoc [] a b n d = (d, tt)
NotIn-snoc (c ∷ l) a b n d = (n.0, NotIn-snoc l a b n.1 d)

IsDistinct-snoc : (l : List ℕ) (a : ℕ) → IsDistinct l → NotIn a l → IsDistinct (l ++ a ∷ [])
IsDistinct-snoc [] a d n = (tt, tt)
IsDistinct-snoc (b ∷ l) a d n =
    (NotIn-snoc l a b d.0 (λ e. n.0 (sym e)), IsDistinct-snoc l a d.1 n.1)

pub create_job-IsSound :
    (a : ℕ) (l : List (Setting × Time)) (now : Time) (c : JobControl)
    → NotIn a c.jobs
    → IsSound c
    → IsSound (create_job a l now c).1
unfolding create_job
create_job-IsSound a l now c n s = elim (Bool-cases (set_config a l now c0).0) [
  | inr f ↦ rw (f, create_job) (IsKeeping-IsSound c d keeping s)
  | inl y ↦
      rw (y, create_job)
        (IsKeeping-IsSound e (next_schedule e) (next_schedule-IsKeeping e) (record {
          distinct =
              subst (λ k. IsDistinct (k ++ a ∷ [])) (sym keeping.0)
                (IsDistinct-snoc c.jobs a s.distinct n);
          positive =
              AllPositive-snoc d.jobs a d.memory (IsKeeping-IsSound c d keeping s).positive fresh;
          idle = keeping.1 ∙ s.idle;
        }))
]
  where
    c0 : JobControl
    c0 = with_job a new_job c

    d : JobControl
    d = (set_config a l now c0).1

    e : JobControl
    e = record d { jobs = d.jobs ++ a ∷ [] }

    keeping : IsKeeping c d
    keeping =
        IsKeeping-trans c c0 d (with_job-IsKeeping a new_job c (λ p. omega arith))
          (set_config-IsKeeping a l now c0)

    fresh : 0 < (d.memory a).interval
    fresh = (set_config-IsKeeping a l now c0).2 a (rw (put_job-at c.memory a new_job) (omega arith))

NotIn-unlink : (l : List ℕ) (a b : ℕ) → NotIn b l → NotIn b (unlink_job a l)
unfolding unlink_job
NotIn-unlink [] a b n = tt
NotIn-unlink (c ∷ l) a b n = ground (arith, NotIn-unlink l a b n.1)

IsDistinct-unlink : (l : List ℕ) (a : ℕ) → IsDistinct l → IsDistinct (unlink_job a l)
unfolding unlink_job
IsDistinct-unlink [] a d = tt
IsDistinct-unlink (b ∷ l) a d = elim (Bool-cases (b == a)) [
  | inl q ↦ rw q d.1
  | inr q ↦ rw q (NotIn-unlink l a b d.0, IsDistinct-unlink l a d.1)
]

AllPositive-unlink :
    (l : List ℕ) (a : ℕ) (m : ℕ → Job) → AllPositive l m → AllPositive (unlink_job a l) m
unfolding unlink_job
AllPositive-unlink [] a m p = tt
AllPositive-unlink (b ∷ l) a m p = elim (Bool-cases (b == a)) [
  | inl q ↦ rw q p.1
  | inr q ↦ rw q (p.0, AllPositive-unlink l a m p.1)
]

pub delete_job-IsSound : (a : ℕ) (c : JobControl) → IsSound c → IsSound (delete_job a c)
unfolding delete_job
delete_job-IsSound a c s = record {
  distinct = IsDistinct-unlink c.jobs a s.distinct;
  positive = AllPositive-unlink c.jobs a c.memory s.positive;
  idle = s.idle;
}

NotIn-alive : (l : List ℕ) (b : ℕ) (m : ℕ → Job) → NotIn b l → NotIn b (alive l m)
NotIn-alive [] b m n = tt
NotIn-alive (c ∷ l) b m n = elim (Bool-cases (is_expired (m c).status)) [
  | inl q ↦ rw q (NotIn-alive l b m n.1)
  | inr q ↦ rw q (n.0, NotIn-alive l b m n.1)
]

pub IsDistinct-alive : (l : List ℕ) (m : ℕ → Job) → IsDistinct l → IsDistinct (alive l m)
IsDistinct-alive [] m d = tt
IsDistinct-alive (b ∷ l) m d = elim (Bool-cases (is_expired (m b).status)) [
  | inl q ↦ rw q (IsDistinct-alive l m d.1)
  | inr q ↦ rw q (NotIn-alive l b m d.0, IsDistinct-alive l m d.1)
]

pub AllPositive-alive : (l : List ℕ) (m u : ℕ → Job) → AllPositive l u → AllPositive (alive l m) u
AllPositive-alive [] m u p = tt
AllPositive-alive (b ∷ l) m u p = elim (Bool-cases (is_expired (m b).status)) [
  | inl q ↦ rw q (AllPositive-alive l m u p.1)
  | inr q ↦ rw q (p.0, AllPositive-alive l m u p.1)
]

finished-interval : (j : Job) → (finished j).interval ≡ j.interval
unfolding finished count_down
finished-interval j = ground arith

tick-interval : (code : List ℕ → Code) (j : Job) → (tick code j).interval ≡ j.interval
tick-interval code j = elim (Bool-cases (is_due (promote j))) [
  | inr n ↦ rw n (promote-interval j)
  | inl y ↦
      let p = record (promote j) { status = running } in
      rw y (
        finished-interval (after_code (code (promote j).cmd) p)
        ∙ (after_code-fields (code (promote j).cmd) p).1
        ∙ promote-interval j)
]

pub AllTicked-positive :
    (code : List ℕ → Code) (l : List ℕ) (m u : ℕ → Job)
    → AllTicked code l m u
    → AllPositive l m
    → AllPositive l u
AllTicked-positive code [] m u t p = tt
AllTicked-positive code (a ∷ l) m u t p = (
  omega (arith, ap (λ j. j.interval) t.0 ∙ tick-interval code (m a), p.0),
  AllTicked-positive code l m u t.1 p.1,
)
