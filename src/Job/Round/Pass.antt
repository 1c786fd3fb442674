-- ===== src/Job/Round/Pass.antt =====
-- The loop of Schedule of tnm/generic/tnmJob.c makes one pass over the list, if the scripts leave
-- the scheduler alone.
use tkined_remix.Prelude.{
  ℕ, zero, suc, ◌<◌, List, [], ◌∷◌, ◌++◌, append_assoc, append-nil, true, false, Option, none, some,
  ◌≡◌, ◌≢◌, refl, sym, ap, ◌∙◌, arith, Bool-cases, inl, inr, eq→==, length,
}
use mathlib.Core.Path.{subst}
use tkined_remix.Job.{
  Job, JobControl, Code, put_job, promote, is_due, find_due, is_listed, run_job, run_due,
}
use tkined_remix.Job.Round.{
  put_job-at, put_job-other, put_job-store, AllSettled, NotIn, IsDistinct, AllSettled-store,
  AllSettled-snoc, find_due-settled, ran, tick, tick-IsSettled, pass, due_of, IsPlain, with_log,
  onward, run_job-plain, run_due-due, run_due-none,
}

abbrev pub AllPositive : List ℕ → (ℕ → Job) → Type 0
AllPositive [] m = Unit
AllPositive (a ∷ l) m = (0 < (m a).interval) × AllPositive l m

pub AllPositive-store :
    (l : List ℕ) (m : ℕ → Job) (a : ℕ) (j : Job)
    → NotIn a l
    → AllPositive l m
    → AllPositive l (put_job m a j)
AllPositive-store [] m a j n h = tt
AllPositive-store (b ∷ l) m a j n h =
    (rw (put_job-other m a b j n.0) h.0, AllPositive-store l m a j n.1 h.1)

pub due_of-store :
    (l : List ℕ) (m : ℕ → Job) (a : ℕ) (j : Job) → NotIn a l → due_of l (put_job m a j) ≡ due_of l m
due_of-store [] m a j n = refl
due_of-store (b ∷ l) m a j n = rw (put_job-other m a b j n.0, due_of-store l m a j n.1) refl

NotIn-middle : (l : List ℕ) (a b : ℕ) (r : List ℕ) → NotIn b (l ++ a ∷ r) → a ≢ b
NotIn-middle [] a b r n = n.0
NotIn-middle (c ∷ l) a b r n = NotIn-middle l a b r n.1

pub IsDistinct-middle :
    (l : List ℕ) (a : ℕ) (r : List ℕ) → IsDistinct (l ++ a ∷ r) → NotIn a l × NotIn a r
IsDistinct-middle [] a r d = (tt, d.0)
IsDistinct-middle (b ∷ l) a r d =
    let (x, y) = IsDistinct-middle l a r d.1 in ((λ e. NotIn-middle l a b r d.0 (sym e), x), y)

find_nil : (m : ℕ → Job) → find_due [] m ≡ (m, none)
unfolding find_due
find_nil m = refl

find_hit :
    (a : ℕ) (r : List ℕ) (m : ℕ → Job)
    → is_due (promote (m a)) ≡ true
    → find_due (a ∷ r) m ≡ (put_job m a (promote (m a)), some a)
unfolding find_due
find_hit a r m y = rw (y, find_due) refl

find_miss :
    (a : ℕ) (r : List ℕ) (m : ℕ → Job)
    → is_due (promote (m a)) ≡ false
    → find_due (a ∷ r) m ≡ find_due r (put_job m a (promote (m a)))
unfolding find_due
find_miss a r m n = rw (n, find_due) refl

due_hit :
    (a : ℕ) (r : List ℕ) (m : ℕ → Job)
    → is_due (promote (m a)) ≡ true
    → due_of (a ∷ r) m ≡ a ∷ due_of r m
due_hit a r m y = rw (y, due_of) refl

due_miss :
    (a : ℕ) (r : List ℕ) (m : ℕ → Job)
    → is_due (promote (m a)) ≡ false
    → due_of (a ∷ r) m ≡ due_of r m
due_miss a r m n = rw (n, due_of) refl

is_listed-append : (l : List ℕ) (a : ℕ) (r : List ℕ) → is_listed a (l ++ a ∷ r) ≡ true
unfolding is_listed
is_listed-append [] a r = rw (eq→== a a refl) refl
is_listed-append (b ∷ l) a r = ground (arith, is_listed-append l a r)

tick_miss : (code : List ℕ → Code) (j : Job) → is_due (promote j) ≡ false → tick code j ≡ promote j
tick_miss code j n = rw n refl

module _ (eval_script : List ℕ → JobControl → Code × JobControl) (code : List ℕ → Code)
    (plain : IsPlain eval_script code) (c : JobControl) (idle : c.current ≡ none) where
  -- The loop reads the memory through find_due.
  same_search :
      (f : ℕ) (m n : ℕ → Job) (log : List ℕ)
      → find_due c.jobs m ≡ find_due c.jobs n
      → run_due eval_script (suc f) (with_log c m log)
        ≡ run_due eval_script (suc f) (with_log c n log)
  unfolding run_due
  same_search f m n log e =
      ap
        (λ (x : (ℕ → Job) × Option ℕ). elim x.1 as (λ _. Option JobControl) [
          | none ↦ some (with_log c x.0 log)
          | some b ↦ onward eval_script f (run_job eval_script b (with_log c x.0 log))
        ])
        e

  -- One job that is run.
  run_one :
      (a : ℕ) (m : ℕ → Job) (log : List ℕ)
      → is_listed a c.jobs ≡ true
      → is_due (promote (m a)) ≡ true
      → run_job eval_script a (with_log c (put_job m a (promote (m a))) log)
        ≡ some (with_log c (put_job m a (tick code (m a))) (log ++ a ∷ []))
  run_one a m log i y =
      run_job-plain eval_script code plain a (with_log c (put_job m a (promote (m a))) log) i
      ∙ ap (λ n. some (record c { memory = n; current = none; log = log ++ a ∷ [] }))
          (ap (λ j. put_job (put_job m a (promote (m a))) a (ran code j))
              (put_job-at m a (promote (m a)))
            ∙ put_job-store m a (promote (m a)) (ran code (promote (m a)))
            ∙ ap (put_job m a) (rw y refl))
      ∙ ap
          (λ x.
            some (record c {
              memory = put_job m a (tick code (m a));
              current = x;
              log = log ++ a ∷ [];
            }))
          (sym idle)

  run_due-from :
      (rest l : List ℕ) (f : ℕ) (m : ℕ → Job) (log : List ℕ)
      → c.jobs ≡ l ++ rest
      → IsDistinct (l ++ rest)
      → AllSettled l m
      → AllPositive rest m
      → length rest < f
      → run_due eval_script f (with_log c m log)
        ≡ some (with_log c (pass code rest m) (log ++ due_of rest m))
  run_due-from rest l zero m log e d s p h = absurd (omega arith)
  run_due-from [] l (suc f) m log e d s p h =
      run_due-none eval_script code plain f (with_log c m log) m
        (ap (λ x. find_due x m) e ∙ find_due-settled l [] m s ∙ find_nil m)
      ∙ ap (λ x. some (with_log c m x)) (sym (append-nil log))
  run_due-from (a ∷ r) l (suc f) m log e d s p h =
      let (fresh, apart) = IsDistinct-middle l a r d in
      let e' = e ∙ sym (append_assoc l (a ∷ []) r) in
      let d' = subst IsDistinct (sym (append_assoc l (a ∷ []) r)) d in
      let found = ap (λ x. find_due x m) e ∙ find_due-settled l (a ∷ r) m s in
      let settled =
        AllSettled-snoc l a (put_job m a (tick code (m a)))
          (AllSettled-store l m a (tick code (m a)) fresh s)
          (rw (put_job-at m a (tick code (m a))) (tick-IsSettled code (m a) p.0)) in
      let positive = AllPositive-store r m a (tick code (m a)) apart p.1 in
      let later = due_of-store r m a (tick code (m a)) apart in
      let listed = ap (is_listed a) e ∙ is_listed-append l a r in
      elim (Bool-cases (is_due (promote (m a)))) [
        | inl y ↦
            run_due-due eval_script code plain f a (with_log c m log) (put_job m a (promote (m a)))
              (found ∙ find_hit a r m y)
            ∙ ap (onward eval_script f) (run_one a m log listed y)
            ∙ run_due-from r (l ++ a ∷ []) f (put_job m a (tick code (m a))) (log ++ a ∷ []) e' d'
                settled positive (omega arith)
            ∙ ap (λ x. some (with_log c (pass code (a ∷ r) m) x))
                (append_assoc log (a ∷ []) (due_of r (put_job m a (tick code (m a))))
                  ∙ ap (λ x. log ++ a ∷ x) later
                  ∙ ap (λ x. log ++ x) (sym (due_hit a r m y)))
        | inr n ↦
            same_search f m (put_job m a (tick code (m a))) log (
              found
              ∙ find_miss a r m n
              ∙ ap (λ j. find_due r (put_job m a j)) (sym (tick_miss code (m a) n))
              ∙ sym (
                  ap (λ x. find_due x (put_job m a (tick code (m a)))) e'
                  ∙ find_due-settled (l ++ a ∷ []) r (put_job m a (tick code (m a))) settled))
            ∙ run_due-from r (l ++ a ∷ []) (suc f) (put_job m a (tick code (m a))) log e' d' settled
                positive (omega arith)
            ∙ ap (λ x. some (with_log c (pass code (a ∷ r) m) (log ++ x)))
                (later ∙ sym (due_miss a r m n))
      ]

  -- With more fuel than there are jobs, the loop is one pass over the list.
  pub run_due-pass :
      (f : ℕ)
      → IsDistinct c.jobs
      → AllPositive c.jobs c.memory
      → length c.jobs < f
      → run_due eval_script f c
        ≡ some (with_log c (pass code c.jobs c.memory) (c.log ++ due_of c.jobs c.memory))
  run_due-pass f d p h = run_due-from c.jobs [] f c.memory c.log refl d tt p h

pass-NotIn :
    (code : List ℕ → Code) (l : List ℕ) (m : ℕ → Job) (a : ℕ) → NotIn a l → pass code l m a ≡ m a
pass-NotIn code [] m a n = refl
pass-NotIn code (b ∷ l) m a n =
    pass-NotIn code l (put_job m b (tick code (m b))) a n.1
    ∙ put_job-other m b a (tick code (m b)) (λ e. n.0 (sym e))

-- What a pass makes of the jobs of the list.
abbrev pub AllTicked : (List ℕ → Code) → List ℕ → (ℕ → Job) → (ℕ → Job) → Type 0
AllTicked code [] m u = Unit
AllTicked code (a ∷ l) m u = (u a ≡ tick code (m a)) × AllTicked code l m u

AllTicked-store :
    (code : List ℕ → Code) (l : List ℕ) (m u : ℕ → Job) (a : ℕ) (j : Job)
    → NotIn a l
    → AllTicked code l (put_job m a j) u
    → AllTicked code l m u
AllTicked-store code [] m u a j n h = tt
AllTicked-store code (b ∷ l) m u a j n h =
    (h.0 ∙ ap (tick code) (put_job-other m a b j n.0), AllTicked-store code l m u a j n.1 h.1)

pub pass-AllTicked :
    (code : List ℕ → Code) (l : List ℕ) (m : ℕ → Job)
    → IsDistinct l
    → AllTicked code l m (pass code l m)
pass-AllTicked code [] m d = tt
pass-AllTicked code (a ∷ l) m d = (
  pass-NotIn code l (put_job m a (tick code (m a))) a d.0 ∙ put_job-at m a (tick code (m a)),
  AllTicked-store code l m _ a (tick code (m a)) d.0
      (pass-AllTicked code l (put_job m a (tick code (m a))) d.1),
)
