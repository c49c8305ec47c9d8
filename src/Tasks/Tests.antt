-- ===== src/Tasks/Tests.antt =====
-- Two tasks of saltyrtc/server/task.py, of which one fails.
use saltyrtc_server_python.Prelude.{arith}
use saltyrtc_server_python.Exception.{ping_timeout_error}
use saltyrtc_server_python.Tasks.{Tasks, new, raised}
use saltyrtc_server_python.Tasks.Result.{IsValid, step, starts, ends, calls_back, step-IsValid}

pub new-IsValid : IsValid new
unfolding new
new-IsValid = ground arith

abbrev two : Tasks
two = step (starts 2) new

abbrev failed : Tasks
failed = step calls_back (step (ends 1 (raised ping_timeout_error)) two)

failed-IsValid : IsValid failed
failed-IsValid = step-IsValid calls_back (step (ends 1 (raised ping_timeout_error)) two) (
    step-IsValid (ends 1 (raised ping_timeout_error)) two (step-IsValid (starts 2) new new-IsValid))

step-IsValid_example : IsValid (step (starts 2) new)
step-IsValid_example = step-IsValid (starts 2) new new-IsValid
