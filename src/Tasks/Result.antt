-- ===== src/Tasks/Result.antt =====
-- The result of a client's tasks: there is one result, and from then on every task is asked to
-- stop.
use saltyrtc_server_python.Prelude.{
  ℕ, zero, suc, ◌+◌, ◌≡◌, ◌≢◌, refl, ap, ◌∙◌, Bool, true, false, ◌&&◌, Option, none, some, List, [],
  ◌∷◌, length, length-append, if◌then◌else◌, arith,
}
use saltyrtc_server_python.Exception.{Error}
use saltyrtc_server_python.Tasks.{
  Task, Outcome, was_cancelled, returned, raised, Reason, result, future, Tasks, cancel_each,
  cancel, create_tasks, start, after, call_first, ended, task_done_handler, run_callback, end_task,
  run_task, run_future,
}

pub data Event : Type 0 where
  starts : ℕ → Event
  cancels : Reason → Event
  ends : ℕ → Outcome → Event
  future_done : Error → Event
  calls_back : Event

unfoldable pub step : Event → Tasks → Tasks
step (starts n) s = (start n s).1
step (cancels r) s = cancel r s
step (ends i o) s = run_task i o s
step (future_done e) s = run_future e s
step calls_back s = run_callback s

abbrev pub running : List Task → ℕ
running [] = 0
running (t ∷ ts) = if t.running then suc (running ts) else running ts

-- Every running task was asked to stop.
abbrev pub stopping : List Task → Bool
stopping [] = true
stopping (t ∷ ts) = (if t.running then t.cancel_requested else true) && stopping ts

abbrev pub is_some {ℓ} : {A : Type ℓ} → Option A → Bool
is_some none = false
is_some (some a) = true

-- The tasks that are not done and the callbacks to come are counted; there is a result, or one to
-- come, only if the tasks have one; and then every running task was asked to stop.
abbrev pub IsValid : Tasks → Type 0
IsValid s =
    (s.tasks_remaining ≡ running s.tasks + length s.callbacks)
    × (s.started ≡ false → (s.tasks ≡ []) × (s.callbacks ≡ []))
    × (s.started ≡ false → s.have_result ≡ true → s.cancelled ≡ true)
    × (s.cancelled ≡ true → s.have_result ≡ true)
    × (s.have_result ≡ true → stopping s.tasks ≡ true)
    × (is_some s.result_future ≡ true → (s.have_result ≡ true) × (s.delayed ≡ none))
    × (is_some s.delayed ≡ true → s.have_result ≡ true)

running-cancel_each : (ts : List Task) → running (cancel_each ts) ≡ running ts
unfolding cancel_each
running-cancel_each [] = refl
running-cancel_each (t ∷ ts) = ground (arith, running-cancel_each ts)

stopping-cancel_each : (ts : List Task) → stopping (cancel_each ts) ≡ true
unfolding cancel_each
stopping-cancel_each [] = refl
stopping-cancel_each (t ∷ ts) = ground (arith, stopping-cancel_each ts)

stopping_none : (ts : List Task) → running ts ≡ 0 → stopping ts ≡ true
stopping_none [] h = refl
stopping_none (t ∷ ts) h = ground (arith, stopping_none ts)

cancel_each_nil : (ts : List Task) → ts ≡ [] → cancel_each ts ≡ []
unfolding cancel_each
cancel_each_nil ts h = rw h refl

running-create_tasks : (n : ℕ) → running (create_tasks n) ≡ n
unfolding create_tasks
running-create_tasks zero = refl
running-create_tasks (suc n) = ap suc (running-create_tasks n)

pub cancel-IsValid : (r : Reason) (s : Tasks) → IsValid s → IsValid (cancel r s)
unfolding cancel
cancel-IsValid (result e) s v =
    ground
      (arith, running-cancel_each s.tasks, stopping-cancel_each s.tasks, cancel_each_nil s.tasks)
cancel-IsValid (future n) s v =
    ground
      (arith, running-cancel_each s.tasks, stopping-cancel_each s.tasks, cancel_each_nil s.tasks)

start-IsValid : (n : ℕ) (s : Tasks) → IsValid s → IsValid (start n s).1
unfolding start
start-IsValid n s v =
    let new_tasks = create_tasks n in
    let count = running-create_tasks n in
    let none_yet : s.started ≡ false → running s.tasks ≡ 0 = λ h. ap running (v.1 h).0 in
    ground (arith, running-cancel_each new_tasks, stopping-cancel_each new_tasks)

task_done_handler-IsValid :
    (o : Outcome) (os : List Outcome) (s : Tasks)
    → s.callbacks ≡ o ∷ os
    → IsValid s
    → IsValid (task_done_handler o (record s { callbacks = os }))
unfolding task_done_handler
task_done_handler-IsValid was_cancelled os s e v =
    ground (arith, ap length e, stopping_none s.tasks)
task_done_handler-IsValid returned os s e v = ground (
  arith,
  ap length e,
  running-cancel_each s.tasks,
  stopping-cancel_each s.tasks,
  cancel_each_nil s.tasks,
)
task_done_handler-IsValid (raised x) os s e v = ground (
  arith,
  ap length e,
  running-cancel_each s.tasks,
  stopping-cancel_each s.tasks,
  cancel_each_nil s.tasks,
)

run_callback-IsValid : (s : Tasks) → IsValid s → IsValid (run_callback s)
unfolding run_callback
run_callback-IsValid s v = go s.callbacks refl
  where
    go : (os : List Outcome) → s.callbacks ≡ os → IsValid (call_first os s)
    go [] e = v
    go (o ∷ os) e = task_done_handler-IsValid o os s e v

-- What the end of a task changes in the list of tasks.
abbrev Ended : List Task → List Task → Type 0
Ended ts us =
    (running ts ≡ suc (running us)) × (stopping ts ≡ true → stopping us ≡ true) × (ts ≢ [])

after-Ended :
    (t : Task) (o : Option (List Task)) (ts us : List Task)
    → ((vs : List Task) → o ≡ some vs → Ended ts vs)
    → after t o ≡ some us
    → Ended (t ∷ ts) us
after-Ended t none ts us ih h = cc
after-Ended t (some vs) ts us ih h = ground (arith, ih vs refl)

end_task_lem : (i : ℕ) (ts us : List Task) → end_task i ts ≡ some us → Ended ts us
unfolding end_task
end_task_lem i [] us h = cc
end_task_lem zero (t ∷ ts) us h = ground arith
end_task_lem (suc i) (t ∷ ts) us h = after-Ended t (end_task i ts) ts us (end_task_lem i ts) h

ended-IsValid :
    (o : Option (List Task)) (i : ℕ) (c : Outcome) (s : Tasks)
    → end_task i s.tasks ≡ o
    → IsValid s
    → IsValid (ended o c s)
ended-IsValid none i c s e v = v
ended-IsValid (some ts) i c s e v =
    ground (arith, end_task_lem i s.tasks ts e, length-append s.callbacks (c ∷ []))

run_future-IsValid : (e : Error) (s : Tasks) → IsValid s → IsValid (run_future e s)
unfolding run_future
run_future-IsValid e s v = ground arith

-- Whatever happens to the tasks of a client: the number of remaining tasks is the number of tasks
-- that run or whose end was not handled yet; there is one result at most, given or to come; and
-- once there is one, every task that still runs was asked to stop, those included that were started
-- later.
pub step-IsValid : (e : Event) (s : Tasks) → IsValid s → IsValid (step e s)
unfolding step
step-IsValid (starts n) s v = start-IsValid n s v
step-IsValid (cancels r) s v = cancel-IsValid r s v
step-IsValid (ends i o) s v = unfold run_task in ended-IsValid (end_task i s.tasks) i o s refl v
step-IsValid (future_done e) s v = run_future-IsValid e s v
step-IsValid calls_back s v = run_callback-IsValid s v

ended_keeps :
    (o : Option (List Task)) (c : Outcome) (s : Tasks)
    → (ended o c s).result_future ≡ s.result_future
ended_keeps none c s = refl
ended_keeps (some ts) c s = refl

handler_keeps :
    (o : Outcome) (os : List Outcome) (s : Tasks)
    → s.have_result ≡ true
    → (task_done_handler o (record s { callbacks = os })).result_future ≡ s.result_future
unfolding task_done_handler
handler_keeps was_cancelled os s h = ground arith
handler_keeps returned os s h = ground arith
handler_keeps (raised x) os s h = ground arith

callback_keeps :
    (os : List Outcome) (s : Tasks)
    → s.have_result ≡ true
    → (call_first os s).result_future ≡ s.result_future
callback_keeps [] s h = refl
callback_keeps (o ∷ os) s h = handler_keeps o os s h

-- The result of the tasks is not replaced: whatever happens after it was set, it stays.
pub step_keeps_result :
    (e : Event) (s : Tasks) (x : Error)
    → IsValid s
    → s.result_future ≡ some x
    → (step e s).result_future ≡ some x
unfolding step
step_keeps_result (starts n) s x v h = unfold start in ground arith
step_keeps_result (cancels r) s x v h = unfold cancel in ground arith
step_keeps_result (ends i o) s x v h = unfold run_task in ended_keeps (end_task i s.tasks) o s ∙ h
step_keeps_result (future_done e) s x v h = unfold run_future in ground arith
step_keeps_result calls_back s x v h =
    unfold run_callback in callback_keeps s.callbacks s (ground arith) ∙ h
