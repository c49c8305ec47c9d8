-- ===== src/Tasks.antt =====
-- `Tasks` of saltyrtc/server/task.py.
--
-- A task is running or done, and may have been asked to stop. The event loop calls the
-- done-callback of a task later: `callbacks` are the outcomes whose `_task_done_handler` is still
-- to be called. A result that comes from a future is `delayed` until the future is done.
pub mod Result
pub mod Tests
use saltyrtc_server_python.Prelude.{
  ℕ, zero, suc, ◌+◌, ◌-◌, ◌≡◌, Bool, true, false, not, ◌&&◌, Option, none, some, List, [], ◌∷◌,
  ◌++◌, ◌==◌, if◌then◌else◌,
}
use saltyrtc_server_python.Exception.{Error, ok, err, internal_error}
use saltyrtc_server_python.Exec.{Exec}

pub record Task : Type 0 where
  pub running : Bool
  pub cancel_requested : Bool

pub data Outcome : Type 0 where
  was_cancelled returned : Outcome
  raised : Error → Outcome

pub data Reason : Type 0 where
  result : Error → Reason
  future : ℕ → Reason

pub record Tasks : Type 0 where
  pub cancelled : Bool
  pub have_result : Bool
  pub result_future : Option Error
  pub delayed : Option ℕ
  pub started : Bool
  pub tasks : List Task
  pub tasks_remaining : ℕ
  pub callbacks : List Outcome

unfoldable pub new : Tasks
new = record {
  cancelled = false;
  have_result = false;
  result_future = none;
  delayed = none;
  started = false;
  tasks = [];
  tasks_remaining = 0;
  callbacks = [];
}

abbrev pub request : Task → Task
request t = record t { cancel_requested = if t.running then true else t.cancel_requested }

unfoldable pub cancel_each : List Task → List Task
cancel_each [] = []
cancel_each (t ∷ ts) = request t ∷ cancel_each ts

-- `_cancel`; before the start there are no tasks.
abbrev pub cancel_tasks : Tasks → Tasks
cancel_tasks s = record s { tasks = cancel_each s.tasks }

abbrev store : Reason → Tasks → Tasks
store (result e) s = record s { have_result = true; result_future = some e }
store (future n) s = record s { have_result = true; delayed = some n }

unfoldable pub set_result : Reason → Tasks → Tasks
set_result r s = if s.have_result then s else store r s

unfoldable pub cancel : Reason → Tasks → Tasks
unfolding set_result cancel_each
cancel r s = if s.cancelled then s else record (cancel_tasks (set_result r s)) { cancelled = true }

-- So many new tasks.
unfoldable pub create_tasks : ℕ → List Task
create_tasks zero = []
create_tasks (suc n) = record { running = true; cancel_requested = false } ∷ create_tasks n

unfoldable pub start : ℕ → Exec Tasks (Unit {0})
unfolding create_tasks cancel_each
start n s =
    if s.started
    then (err internal_error, s)
    else (let s' = record s {
      started = true;
      tasks = create_tasks n;
      tasks_remaining = s.tasks_remaining + n;
    } in
        (ok tt, if s'.cancelled then cancel_tasks s' else s'))

abbrev fail : Error → Tasks → Tasks
fail e s = cancel_tasks (set_result (result e) s)

abbrev handle : Outcome → Tasks → Tasks
handle was_cancelled s =
    if s.tasks_remaining == 0 && not s.have_result
    then record (set_result (result internal_error) s) { cancelled = true }
    else s
handle returned s = fail internal_error s
handle (raised e) s = fail e s

unfoldable pub task_done_handler : Outcome → Tasks → Tasks
unfolding set_result cancel_each
task_done_handler o s = handle o (record s { tasks_remaining = s.tasks_remaining - 1 })

abbrev pub call_first : List Outcome → Tasks → Tasks
call_first [] s = s
call_first (o ∷ os) s = task_done_handler o (record s { callbacks = os })

-- The event loop calls the next done-callback.
unfoldable pub run_callback : Tasks → Tasks
unfolding task_done_handler
run_callback s = call_first s.callbacks s

abbrev pub after : Task → Option (List Task) → Option (List Task)
after t none = none
after t (some ts) = some (t ∷ ts)

-- The task of number `i` ends; `none` if it is not running.
unfoldable pub end_task : ℕ → List Task → Option (List Task)
end_task i [] = none
end_task zero (t ∷ ts) = if t.running then some (record t { running = false } ∷ ts) else none
end_task (suc i) (t ∷ ts) = after t (end_task i ts)

abbrev pub ended : Option (List Task) → Outcome → Tasks → Tasks
ended none o s = s
ended (some ts) o s = record s { tasks = ts; callbacks = s.callbacks ++ o ∷ [] }

-- The task of number `i` ends.
unfoldable pub run_task : ℕ → Outcome → Tasks → Tasks
unfolding end_task
run_task i o s = ended (end_task i s.tasks) o s

-- The future of a delayed result is done.
unfoldable pub run_future : Error → Tasks → Tasks
run_future e s = elim s.delayed [
  | none ↦ s
  | some n ↦ record s { delayed = none; result_future = some e }
]
