-- ===== src/Job.antt =====
-- The scheduler of tnm/generic/tnmJob.c. A pointer to a job is a number, its address; `memory` is
-- the job that stands at an address, also behind its deletion where Tcl_Preserve keeps it. The
-- evaluation of a Tcl script is a parameter: it may change the whole state. A text is the list of
-- its characters. Integers do not overflow. Tags, attributes and the texts of error messages are
-- left out.
pub mod Round
pub mod Delete
pub mod Timer
pub mod Configure
mod Tests
use tkined_remix.Prelude.{
  ℕ, zero, suc, ◌+◌, ◌-◌, ◌*◌, ◌/◌, List, [], ◌∷◌, ◌++◌, Bool, true, false, Option, none, some, ltb,
  leb, ◌==◌, not, ◌&&◌, ◌||◌, if◌then◌else◌,
}

-- A signed integer; `negsuc n` is -(n + 1).
pub data ℤ : Type 0 where
  pos : ℕ → ℤ
  negsuc : ℕ → ℤ

-- `remtime -= delta`
unfoldable pub minus : ℤ → ℕ → ℤ
minus (pos n) d = if ltb n d then negsuc (d - n - 1) else pos (n - d)
minus (negsuc n) d = negsuc (n + d)

-- `remtime <= 0`
abbrev pub is_over : ℤ → Bool
is_over (pos n) = n == 0
is_over (negsuc n) = true

-- `(remtime < 0) ? 0 : remtime`
abbrev pub at_least_zero : ℤ → ℕ
at_least_zero (pos n) = n
at_least_zero (negsuc n) = 0

-- `remtime < ms` for an ms that is not negative.
abbrev pub is_less : ℤ → ℕ → Bool
is_less (pos n) t = ltb n t
is_less (negsuc n) t = true

pub data Status : Type 0 where
  suspended waiting running expired : Status

pub record Job : Type 0 where
  pub cmd : List ℕ
  pub new_cmd : Option (List ℕ)
  pub exit_cmd : List ℕ
  pub error_cmd : List ℕ
  pub interval : ℕ
  pub iterations : ℕ
  pub remtime : ℤ
  pub status : Status

-- Tcl_Time.
pub record Time : Type 0 where
  pub sec : ℕ
  pub usec : ℕ

-- `timer` is the delay of the timer handler, if there is one. `log` is what the struct does not
-- hold: the jobs whose commands were evaluated, the first one first.
pub record JobControl : Type 0 where
  pub memory : ℕ → Job
  pub jobs : List ℕ
  pub current : Option ℕ
  pub timer : Option ℕ
  pub last_time : Time
  pub log : List ℕ

abbrev pub put_job : (ℕ → Job) → ℕ → Job → ℕ → Job
put_job m a j b = if b == a then j else m b

abbrev pub is_suspended : Status → Bool
is_suspended suspended = true
is_suspended _ = false

abbrev pub waits : Status → Bool
waits waiting = true
waits _ = false

abbrev pub is_expired : Status → Bool
is_expired expired = true
is_expired _ = false

-- `delta`, or 0 where it is not positive.
unfoldable pub elapsed : Time → Time → ℕ
elapsed last now =
    if leb last.usec now.usec
    then now.sec * 1000 + (now.usec - last.usec) / 1000 - last.sec * 1000
    else now.sec * 1000 - (last.sec * 1000 + (last.usec - now.usec) / 1000)

-- The loop of AdjustTime, on one job.
unfoldable pub aged : ℕ → Job → Job
aged delta j = if is_suspended j.status then j else record j { remtime = minus j.remtime delta }

unfoldable pub age_all : ℕ → List ℕ → (ℕ → Job) → ℕ → Job
age_all delta [] m = m
age_all delta (a ∷ l) m = age_all delta l (put_job m a (aged delta (m a)))

unfoldable pub adjust_time : Time → JobControl → JobControl
adjust_time now c = elim (c.last_time.sec == 0 && c.last_time.usec == 0) [
  | true ↦ record c { last_time = now }
  | false ↦ elim (elapsed c.last_time now == 0) [
    | true ↦ record c { last_time = now }
    | false ↦ record c {
      memory = age_all (elapsed c.last_time now) c.jobs c.memory;
      last_time = now;
    }
  ]
]

-- The loop of NextSchedule, with `none` for the value -1 of ms.
unfoldable pub least : Option ℕ → List ℕ → (ℕ → Job) → Option ℕ
least ms [] m = ms
least ms (a ∷ l) m = elim (waits (m a).status || is_expired (m a).status) [
  | false ↦ least ms l m
  | true ↦ elim ms [
    | none ↦ least (some (at_least_zero (m a).remtime)) l m
    | some t ↦ elim (is_less (m a).remtime t) [
      | true ↦ least (some (at_least_zero (m a).remtime)) l m
      | false ↦ least (some t) l m
    ]
  ]
]

abbrev pub no_time : Time
no_time = record { sec = 0; usec = 0 }

unfoldable pub next_schedule : JobControl → JobControl
next_schedule c = elim (least none c.jobs c.memory) [
  | none ↦ record c { timer = none; last_time = no_time }
  | some ms ↦ record c { timer = some ms }
]

-- `if (jobPtr->newCmd)`
unfoldable pub promote : Job → Job
promote j = elim j.new_cmd [ none ↦ j | some text ↦ record j { cmd = text; new_cmd = none } ]

abbrev pub is_due : Job → Bool
is_due j = waits j.status && is_over j.remtime

-- The loop at `restart:` up to a job that is to be run.
unfoldable pub find_due : List ℕ → (ℕ → Job) → (ℕ → Job) × Option ℕ
find_due [] m = (m, none)
find_due (a ∷ l) m = elim (is_due (promote (m a))) [
  | true ↦ (put_job m a (promote (m a)), some a)
  | false ↦ find_due l (put_job m a (promote (m a)))
]

-- The result of Tcl_GlobalEvalObj: TCL_OK, TCL_ERROR or another one.
pub data Code : Type 0 where
  tcl_ok tcl_error tcl_other : Code

abbrev pub no_text : List ℕ → Bool
no_text [] = true
no_text _ = false

-- `if (jobPtr->status == running) jobPtr->status = waiting;`
abbrev pub resumed : Status → Status
resumed running = waiting
resumed s = s

-- `if (jobPtr->iterations > 0) ...`
unfoldable pub count_down : Job → Job
count_down j = elim j.iterations [
  | zero ↦ j
  | suc n ↦
      if n == 0 then record j { iterations = n; status = expired } else record j { iterations = n }
]

-- What is done to a job behind its command.
unfoldable pub finished : Job → Job
finished j = count_down (record j { status = resumed j.status; remtime = pos j.interval })

unfoldable pub find_expired : List ℕ → (ℕ → Job) → Option ℕ
find_expired [] m = none
find_expired (a ∷ l) m = if is_expired (m a).status then some a else find_expired l m

-- The loop of DeleteProc and the unlinking behind it.
unfoldable pub unlink_job : ℕ → List ℕ → List ℕ
unlink_job a [] = []
unlink_job a (b ∷ l) = if b == a then l else b ∷ unlink_job a l

-- Whether DeleteProc has not freed the job, which it unlinks.
unfoldable pub is_listed : ℕ → List ℕ → Bool
is_listed a [] = false
is_listed a (b ∷ l) = if b == a then true else is_listed a l

module _ (eval_script : List ℕ → JobControl → Code × JobControl) where
  -- The error handling of Schedule, and `none` when Tcl_GetCommandName is called for a job that was
  -- deleted, which Tcl forbids.
  unfoldable pub on_error : ℕ → JobControl → Option JobControl
  on_error a c = elim (no_text (c.memory a).error_cmd) [
    | false ↦ some (eval_script (c.memory a).error_cmd c).1
    | true ↦ elim (is_listed a c.jobs) [
      | false ↦ none
      | true ↦
          some (record c { memory = put_job c.memory a (record (c.memory a) { status = expired }) })
    ]
  ]

  unfoldable pub on_code : Code → ℕ → JobControl → Option JobControl
  on_code tcl_error a c = on_error a c
  on_code tcl_ok a c = some c
  on_code tcl_other a c = some c

  -- A job that is due.
  unfoldable pub run_job : ℕ → JobControl → Option JobControl
  run_job a c =
      let (code, d) = eval_script (c.memory a).cmd (record c {
        memory = put_job c.memory a (record (c.memory a) { status = running });
        current = some a;
        log = c.log ++ a ∷ [];
      }) in
      elim (on_code code a d) [
        | none ↦ none
        | some e ↦
            some (record e { memory = put_job e.memory a (finished (e.memory a)); current = none })
      ]

  -- The loop at `restart:`, and `none` when the fuel is spent, too.
  unfoldable pub run_due : ℕ → JobControl → Option JobControl
  run_due zero c = none
  run_due (suc f) c =
      let (m, due) = find_due c.jobs c.memory in
      elim due [
        | none ↦ some (record c { memory = m })
        | some a ↦ elim (run_job a (record c { memory = m })) [ none ↦ none | some d ↦ run_due f d ]
      ]

  abbrev pub exited : ℕ → JobControl → JobControl
  exited a c = if no_text (c.memory a).exit_cmd then c else (eval_script (c.memory a).exit_cmd c).1

  -- The loop at `repeat:`, and `none` when the fuel is spent, or when `jobPtr->token` is read in a
  -- job that its exit script has deleted: nothing keeps its memory here.
  unfoldable pub delete_expired : ℕ → JobControl → Option JobControl
  delete_expired zero c = none
  delete_expired (suc f) c = elim (find_expired c.jobs c.memory) [
    | none ↦ some c
    | some a ↦
        let d = exited a c in
        elim (is_listed a d.jobs) [
          | false ↦ none
          | true ↦ delete_expired f (record d { jobs = unlink_job a d.jobs })
        ]
  ]

  -- Schedule, with the times that its two calls of AdjustTime read, and `none` as in its loops.
  unfoldable pub schedule : ℕ → Time → Time → JobControl → Option JobControl
  schedule fuel now later c = elim (run_due fuel (adjust_time now c)) [
    | none ↦ none
    | some d ↦ elim (delete_expired fuel d) [
      | none ↦ none
      | some e ↦ some (next_schedule (adjust_time later e))
    ]
  ]
