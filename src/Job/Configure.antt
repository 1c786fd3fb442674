-- ===== src/Job/Configure.antt =====
-- CreateJob, SetOption, the destroy command and DeleteProc of tnm/generic/tnmJob.c, and the loop of
-- TnmSetConfig of tnm/generic/tnmUtil.c. The results of Tcl_GetIntFromObj and of the table of
-- statuses are given, `none` for an error.
pub mod Sound
pub mod Reach
use tkined_remix.Prelude.{ℕ, zero, suc, List, [], ◌∷◌, ◌++◌, Bool, true, false, Option, none, some}
use tkined_remix.Job.{
  ℤ, pos, negsuc, Status, suspended, waiting, running, expired, Job, Time, JobControl, put_job,
  adjust_time, next_schedule, unlink_job, Code, schedule,
}

-- TnmGetPositiveFromObj.
unfoldable pub get_positive : Option ℤ → Option ℕ
get_positive none = none
get_positive (some (pos zero)) = none
get_positive (some (pos (suc n))) = some (suc n)
get_positive (some (negsuc n)) = none

-- TnmGetUnsignedFromObj.
unfoldable pub get_unsigned : Option ℤ → Option ℕ
get_unsigned none = none
get_unsigned (some (pos n)) = some n
get_unsigned (some (negsuc n)) = none

-- An option of a job and its value; -tags is left out.
pub data Setting : Type 0 where
  opt_command opt_error opt_exit : List ℕ → Setting
  opt_interval opt_iterations : Option ℤ → Setting
  opt_status : Option Status → Setting
  opt_time : Setting

-- `(status == running) ? waiting : status`
abbrev pub requested : Status → Status
requested running = waiting
requested s = s

abbrev pub with_job : ℕ → Job → JobControl → JobControl
with_job a j c = record c { memory = put_job c.memory a j }

-- SetOption at a time: whether it returns TCL_OK, and the control.
unfoldable pub set_option : ℕ → Setting → Time → JobControl → Bool × JobControl
set_option a (opt_command text) now c =
    (true, with_job a (record (c.memory a) { new_cmd = some text }) c)
set_option a (opt_error text) now c =
    (true, with_job a (record (c.memory a) { error_cmd = text }) c)
set_option a (opt_exit text) now c = (true, with_job a (record (c.memory a) { exit_cmd = text }) c)
set_option a (opt_interval value) now c = elim (get_positive value) [
  | none ↦ (false, c)
  | some n ↦ (true, with_job a (record (c.memory a) { interval = n }) c)
]
set_option a (opt_iterations value) now c = elim (get_unsigned value) [
  | none ↦ (false, c)
  | some n ↦ (true, with_job a (record (c.memory a) { iterations = n }) c)
]
set_option a (opt_status none) now c = (false, c)
set_option a (opt_status (some s)) now c = (
  true,
  next_schedule (adjust_time now (with_job a (record (c.memory a) { status = requested s }) c)),
)
set_option a opt_time now c = (true, c)

-- The second loop of TnmSetConfig, and the call of AdjustTime by GetOption for the result.
unfoldable pub set_config : ℕ → List (Setting × Time) → Time → JobControl → Bool × JobControl
set_config a [] now c = (true, adjust_time now c)
set_config a ((x, t) ∷ l) now c =
    let (ok, d) = set_option a x t c in elim ok [ true ↦ set_config a l now d | false ↦ (false, d) ]

-- The fields of a new job.
abbrev pub new_job : Job
new_job = record {
  cmd = [];
  new_cmd = none;
  exit_cmd = [];
  error_cmd = [];
  interval = 1000;
  iterations = 0;
  remtime = pos 0;
  status = waiting;
}

-- CreateJob at a fresh address.
unfoldable pub create_job : ℕ → List (Setting × Time) → Time → JobControl → Bool × JobControl
create_job a settings now c =
    let (ok, d) = set_config a settings now (with_job a new_job c) in
    elim ok [
      | true ↦ (true, next_schedule (record d { jobs = d.jobs ++ a ∷ [] }))
      | false ↦ (false, d)
    ]

-- The destroy command of a job.
unfoldable pub destroy : ℕ → JobControl → JobControl
destroy a c = with_job a (record (c.memory a) { status = expired }) c

-- DeleteProc.
unfoldable pub delete_job : ℕ → JobControl → JobControl
delete_job a c = record c { jobs = unlink_job a c.jobs }
