-- ===== src/Job/Delete.antt =====
-- The loop of Schedule of tnm/generic/tnmJob.c that deletes expired jobs.
use tkined_remix.Prelude.{
  ℕ, zero, suc, ◌<◌, List, [], ◌∷◌, true, false, Option, none, some, ◌≡◌, refl, sym, ap, ◌∙◌, arith,
  ◌==◌, if◌then◌else◌, Bool-cases, Option-cases, inl, inr, length, ==→eq, eq→==,
}
use mathlib.Core.Path.{subst}
use tkined_remix.Job.{
  Job, JobControl, Code, is_expired, no_text, find_expired, unlink_job, is_listed, exited,
  delete_expired,
}
use tkined_remix.Job.Round.{IsPlain}

-- The jobs that are not expired.
abbrev pub alive : List ℕ → (ℕ → Job) → List ℕ
alive [] m = []
alive (a ∷ l) m = if is_expired (m a).status then alive l m else a ∷ alive l m

abbrev pub NoneExpired : List ℕ → (ℕ → Job) → Type 0
NoneExpired [] m = Unit
NoneExpired (a ∷ l) m = (is_expired (m a).status ≡ false) × NoneExpired l m

pub find_expired-none :
    (l : List ℕ) (m : ℕ → Job) → find_expired l m ≡ none → (alive l m ≡ l) × NoneExpired l m
unfolding find_expired
find_expired-none [] m e = (refl, tt)
find_expired-none (a ∷ l) m e = elim (Bool-cases (is_expired (m a).status)) [
  | inl y ↦ absurd (ground arith)
  | inr n ↦ let (x, h) = find_expired-none l m (ground arith) in (rw n (ap (λ r. a ∷ r) x), (n, h))
]

-- What the deletion of an expired job leaves.
abbrev IsDropped : List ℕ → (ℕ → Job) → ℕ → Type 0
IsDropped l m a =
    (is_expired (m a).status ≡ true)
    × (alive (unlink_job a l) m ≡ alive l m)
    × (suc (length (unlink_job a l)) ≡ length l)

IsDropped-head :
    (l : List ℕ) (m : ℕ → Job) (b : ℕ) → is_expired (m b).status ≡ true → IsDropped (b ∷ l) m b
unfolding unlink_job
IsDropped-head l m b y = (let q = eq→== b b refl in (y, rw (q, y) refl, rw q refl))

IsDropped-cons :
    (l : List ℕ) (m : ℕ → Job) (a b : ℕ)
    → (b == a) ≡ false
    → IsDropped l m a
    → IsDropped (b ∷ l) m a
unfolding unlink_job
IsDropped-cons l m a b q (y, e, s) = (y, rw q (rw e refl), rw q (ap suc s))

find_expired-some : (l : List ℕ) (m : ℕ → Job) (a : ℕ) → find_expired l m ≡ some a → IsDropped l m a
unfolding find_expired
find_expired-some [] m a e = absurd cc
find_expired-some (b ∷ l) m a e = elim (Bool-cases (is_expired (m b).status)) [
  | inl y ↦
      let f : some b ≡ some a = ground arith in
      let g : b ≡ a = cc in subst (IsDropped (b ∷ l) m) g (IsDropped-head l m b y)
  | inr n ↦
      let h = find_expired-some l m a (ground arith) in
      elim (Bool-cases (b == a)) [
        | inr q ↦ IsDropped-cons l m a b q h
        | inl q ↦ absurd (
            let z : false ≡ true = sym n ∙ ap (λ x. is_expired (m x).status) (==→eq b a q) ∙ h.0 in
            cc)
      ]
]

find_expired-is_listed :
    (l : List ℕ) (m : ℕ → Job) (a : ℕ) → find_expired l m ≡ some a → is_listed a l ≡ true
unfolding find_expired is_listed
find_expired-is_listed [] m a e = absurd cc
find_expired-is_listed (b ∷ l) m a e = elim (Bool-cases (is_expired (m b).status)) [
  | inl y ↦ let f : some b ≡ some a = ground arith in let g : b ≡ a = cc in rw (eq→== b a g) refl
  | inr n ↦ ground (arith, find_expired-is_listed l m a (ground arith))
]

exited-plain :
    (eval_script : List ℕ → JobControl → Code × JobControl) (code : List ℕ → Code)
    → IsPlain eval_script code
    → (a : ℕ) (c : JobControl) → exited eval_script a c ≡ c
exited-plain eval_script code plain a c = elim (Bool-cases (no_text (c.memory a).exit_cmd)) [
  | inl y ↦ rw y refl
  | inr n ↦ rw n (ap (λ x. x.1) (plain (c.memory a).exit_cmd c))
]

-- What the loop does behind an exit script.
abbrev after_exit :
    (List ℕ → JobControl → Code × JobControl) → ℕ → ℕ → JobControl → Option JobControl
after_exit eval_script f a d = elim (is_listed a d.jobs) [
  | false ↦ none
  | true ↦ delete_expired eval_script f (record d { jobs = unlink_job a d.jobs })
]

-- If the scripts leave the scheduler alone, the loop ends with the jobs that are not expired.
pub delete_expired-alive :
    (eval_script : List ℕ → JobControl → Code × JobControl) (code : List ℕ → Code)
    → IsPlain eval_script code
    → (f : ℕ) (c : JobControl) → length c.jobs < f
    → delete_expired eval_script f c ≡ some (record c { jobs = alive c.jobs c.memory })
unfolding delete_expired
delete_expired-alive eval_script code plain zero c h = absurd (omega arith)
delete_expired-alive eval_script code plain (suc f) c h =
    elim (Option-cases (find_expired c.jobs c.memory)) [
      | inl e ↦
          rw (e, delete_expired)
            (ap (λ l. some (record c { jobs = l })) (sym (find_expired-none c.jobs c.memory e).0))
      | inr (a, e) ↦
          let (y, same, shorter) = find_expired-some c.jobs c.memory a e in
          rw (e, delete_expired)
            (ap (after_exit eval_script f a) (exited-plain eval_script code plain a c)
              ∙ rw (find_expired-is_listed c.jobs c.memory a e, after_exit) refl
              ∙ delete_expired-alive eval_script code plain f
                  (record c { jobs = unlink_job a c.jobs }) (omega arith)
              ∙ ap (λ l. some (record c { jobs = l })) same)
    ]

-- Where the loop ends, without a read of freed memory, no expired job is left.
pub delete_expired-NoneExpired :
    (eval_script : List ℕ → JobControl → Code × JobControl) (f : ℕ) (c d : JobControl)
    → delete_expired eval_script f c ≡ some d
    → NoneExpired d.jobs d.memory
unfolding delete_expired
delete_expired-NoneExpired eval_script zero c d e = absurd cc
delete_expired-NoneExpired eval_script (suc f) c d e =
    elim (Option-cases (find_expired c.jobs c.memory)) [
      | inl g ↦
          let same : some c ≡ some d = ground arith in
          let x : c ≡ d = cc in
          subst (λ k. NoneExpired k.jobs k.memory) x (find_expired-none c.jobs c.memory g).1
      | inr (a, g) ↦
          let k = exited eval_script a c in
          let went : after_exit eval_script f a k ≡ some d = ground arith in
          elim (Bool-cases (is_listed a k.jobs)) [
            | inl i ↦
                delete_expired-NoneExpired eval_script f (record k { jobs = unlink_job a k.jobs }) d
                  (ground arith)
            | inr i ↦
                absurd (let z : ◌≡◌ {A = Option JobControl} none (some d) = ground arith in cc)
          ]
    ]
