-- ===== src/Job/Timer.antt =====
-- NextSchedule of tnm/generic/tnmJob.c sets the timer to the least remaining time; and Schedule as a
-- whole.
pub mod Schedule
use tkined_remix.Prelude.{
  ℕ, zero, suc, ◌+◌, ◌≤◌, ◌<◌, List, [], ◌∷◌, Bool, true, false, Option, none, some, ◌≡◌, ◌≢◌, ◌⊎◌,
  refl, sym, ap, ◌∙◌, arith, ltb, ◌||◌, Bool-cases, Option-cases, inl, inr, ltb→lt, ltb→ge,
}
use mathlib.Core.Path.{subst}
use tkined_remix.Job.{
  Job, JobControl, waits, is_expired, at_least_zero, ℤ, pos, negsuc, is_less, least, next_schedule,
  no_time,
}

-- The job is waited for.
abbrev pub is_pending : Job → Bool
is_pending j = waits j.status || is_expired j.status

abbrev pub wait_of : Job → ℕ
wait_of j = at_least_zero j.remtime

-- Every pending job has the time to wait, or more.
abbrev pub IsBelow : ℕ → List ℕ → (ℕ → Job) → Type 0
IsBelow t [] m = Unit
IsBelow t (a ∷ l) m = (is_pending (m a) ≡ true → t ≤ wait_of (m a)) × IsBelow t l m

-- Some pending job has the time to wait.
abbrev pub IsAttained : ℕ → List ℕ → (ℕ → Job) → Type 0
IsAttained t [] m = ⊥
IsAttained t (a ∷ l) m = (is_pending (m a) ≡ true) × (wait_of (m a) ≡ t) ⊎ IsAttained t l m

abbrev pub NonePending : List ℕ → (ℕ → Job) → Type 0
NonePending [] m = Unit
NonePending (a ∷ l) m = (is_pending (m a) ≡ false) × NonePending l m

-- The timer, if any, runs for the least time to wait of a pending job, and there is one if there is
-- a pending job.
abbrev pub IsTimed : Option ℕ → List ℕ → (ℕ → Job) → Type 0
IsTimed none l m = NonePending l m
IsTimed (some t) l m = IsBelow t l m × IsAttained t l m

IsBelow-le : (t u : ℕ) (l : List ℕ) (m : ℕ → Job) → t ≤ u → IsBelow u l m → IsBelow t l m
IsBelow-le t u [] m h b = tt
IsBelow-le t u (a ∷ l) m h b = (λ p. omega (arith, b.0 p, h), IsBelow-le t u l m h b.1)

is_less-le : (r : ℤ) (t : ℕ) → is_less r t ≡ true → at_least_zero r ≤ t
is_less-le (pos n) t h = omega (arith, ltb→lt n t h)
is_less-le (negsuc n) t h = omega arith

is_less-ge : (r : ℤ) (t : ℕ) → is_less r t ≡ false → t ≤ at_least_zero r
is_less-ge (pos n) t h = ltb→ge n t h
is_less-ge (negsuc n) t h = absurd cc

least-some :
    (u : ℕ) (l : List ℕ) (m : ℕ → Job)
    → (t : ℕ) × (least (some u) l m ≡ some t)
      × (t ≤ u)
      × IsBelow t l m
      × ((t ≡ u) ⊎ IsAttained t l m)
unfolding least
least-some u [] m = (u, refl, omega arith, tt, inl refl)
least-some u (a ∷ l) m = elim (Bool-cases (is_pending (m a))) [
  | inr n ↦
      let (t, e, h, b, r) = least-some u l m in
      (
        t,
        rw (n, least) e,
        h,
        (λ p. absurd (let z : false ≡ true = sym n ∙ p in cc), b),
        elim r [ inl z ↦ inl z | inr z ↦ inr (inr z) ],
      )
  | inl y ↦ elim (Bool-cases (is_less (m a).remtime u)) [
    | inl q ↦
        let (t, e, h, b, r) = least-some (wait_of (m a)) l m in
        let less = is_less-le (m a).remtime u q in
        (
          t,
          rw (y, least, q) e,
          omega arith,
          (λ p. h, b),
          inr (elim r [ inl z ↦ inl (y, sym z) | inr z ↦ inr z ]),
        )
    | inr q ↦
        let (t, e, h, b, r) = least-some u l m in
        let more = is_less-ge (m a).remtime u q in
        (
          t,
          rw (y, least, q) e,
          h,
          (λ p. omega arith, b),
          elim r [ inl z ↦ inl z | inr z ↦ inr (inr z) ],
        )
  ]
]

IsTimed-cons :
    (o : Option ℕ) (a : ℕ) (l : List ℕ) (m : ℕ → Job)
    → is_pending (m a) ≡ false
    → IsTimed o l m
    → IsTimed o (a ∷ l) m
IsTimed-cons none a l m n h = (n, h)
IsTimed-cons (some t) a l m n (b, r) =
    ((λ p. absurd (let z : false ≡ true = sym n ∙ p in cc), b), inr r)

least-skip :
    (a : ℕ) (l : List ℕ) (m : ℕ → Job)
    → is_pending (m a) ≡ false
    → least none (a ∷ l) m ≡ least none l m
unfolding least
least-skip a l m n = rw (n, least) refl

pub least-IsTimed : (l : List ℕ) (m : ℕ → Job) → IsTimed (least none l m) l m
unfolding least
least-IsTimed [] m = tt
least-IsTimed (a ∷ l) m = elim (Bool-cases (is_pending (m a))) [
  | inr n ↦ rw (least-skip a l m n) (IsTimed-cons (least none l m) a l m n (least-IsTimed l m))
  | inl y ↦
      let (t, e, h, b, r) = least-some (wait_of (m a)) l m in
      rw (y, least, e) ((λ p. h, b), elim r [ inl z ↦ inl (y, sym z) | inr z ↦ inr z ])
]

pub next_schedule-IsTimed : (c : JobControl) → IsTimed (next_schedule c).timer c.jobs c.memory
unfolding next_schedule
next_schedule-IsTimed c = elim (Option-cases (least none c.jobs c.memory)) [
  | inl e ↦
      rw (e, next_schedule)
        (subst (λ o. IsTimed o c.jobs c.memory) e (least-IsTimed c.jobs c.memory))
  | inr (t, e) ↦
      rw (e, next_schedule)
        (subst (λ o. IsTimed o c.jobs c.memory) e (least-IsTimed c.jobs c.memory))
]

pub next_schedule-same :
    (c : JobControl)
    → ((next_schedule c).jobs ≡ c.jobs)
      × ((next_schedule c).memory ≡ c.memory)
      × ((next_schedule c).log ≡ c.log)
      × ((next_schedule c).current ≡ c.current)
unfolding next_schedule
next_schedule-same c = elim (Option-cases (least none c.jobs c.memory)) [
  | inl e ↦ rw (e, next_schedule) (refl, refl, refl, refl)
  | inr (t, e) ↦ rw (e, next_schedule) (refl, refl, refl, refl)
]
