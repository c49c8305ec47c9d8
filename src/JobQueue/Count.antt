-- ===== src/JobQueue/Count.antt =====
-- The queue's count of unfinished entries, for which `JobQueue.join` waits, as long as no task in
-- the queue has failed.
use saltyrtc_server_python.Prelude.{
  ℕ, suc, ◌+◌, ◌≡◌, refl, ap, ◌∙◌, Bool-cases, inl, inr, Option, none, some, List, All, [], ◌∷◌,
  map, ◌++◌, length, length-append, leb, arith,
}
use saltyrtc_server_python.Exception.{Error, Result, ok}
use saltyrtc_server_python.Exec.{modify, >>-ok}
use saltyrtc_server_python.JobQueue.{
  Job, coroutine, task, Entry, job, final, cancelled', state_value, Runner, not_started, awaiting,
  JobQueue, put, cancel_entry, put_jobs, stop, drain, cancel_active, mark_cancelled, cancel_all,
  cancel, interrupt_at, fail_at, job_callback,
}

-- The job that the runner has taken from the queue.
abbrev pub in_hand : Runner → ℕ
in_hand (awaiting j) = 1
in_hand _ = 0

-- Unfinished are the entries of the queue, the job in hand, and the jobs with a callback to come.
abbrev pub Counts : JobQueue → Type 0
Counts q = q.unfinished ≡ length q.queue + in_hand q.runner + length q.callbacks

-- The exception of a job of the queue, if it is a task that has failed.
abbrev pub failure_of : (Job → Option Error) → Entry → Option Error
failure_of failures (job (task n)) = failures (task n)
failure_of failures _ = none

abbrev pub active_failure : (Job → Option Error) → Option Job → Option Error
active_failure failures none = none
active_failure failures (some j) = failures j

abbrev pub Unfailed : (Job → Option Error) → List Entry → Type 0
Unfailed failures es = All (λ e. failure_of failures e ≡ none) es

-- No task that the runner awaits or that is in the queue has failed.
abbrev pub IsHealthy : JobQueue → Type 0
IsHealthy q = (active_failure q.failures q.active ≡ none) × Unfailed q.failures q.queue

put-Counts : (e : Entry) (q : JobQueue) → Counts q → Counts (put e q)
put-Counts e q h = omega (arith, length-append q.queue (e ∷ []))

pub put_jobs-Counts : (js : List Job) (q : JobQueue) → Counts q → Counts (put_jobs js q)
unfolding put_jobs
put_jobs-Counts [] q h = h
put_jobs-Counts (j ∷ js) q h = put_jobs-Counts js (put (job j) q) (put-Counts (job j) q h)

pub stop-Counts : (r : Error) (js : List Job) (q : JobQueue) → Counts q → Counts (stop r js q)
unfolding stop
stop-Counts r js q h = put-Counts (final r) (put_jobs js q) (put_jobs-Counts js q h)

-- What comes with a call that cancels jobs.
abbrev pub Cancellable : (Job → Option Error) → List Job → Type 0
Cancellable failures js = Unfailed failures (map job js)

-- An action that returns, and keeps the count.
abbrev pub Fine : Result (Unit {0}) × JobQueue → Type 0
Fine (r, q) = (r ≡ ok tt) × Counts q

-- What an entry that is taken from the queue owes to the count.
pub cancel_entry_lem :
    (e : Entry) (q : JobQueue) (n : ℕ)
    → q.unfinished ≡ suc n
    → failure_of q.failures e ≡ none
    → let (r, p) = cancel_entry e q in
      (r ≡ ok tt)
      × (p.failures ≡ q.failures)
      × (p.queue ≡ q.queue)
      × (p.runner ≡ q.runner)
      × (p.unfinished + length q.callbacks ≡ n + length p.callbacks)
unfolding cancel_entry
cancel_entry_lem (job (coroutine k)) q n h u = ground arith
cancel_entry_lem (job (task k)) q n h u = ground (arith, u, length-append q.callbacks (task k ∷ []))
cancel_entry_lem (final r) q n h u = ground arith

-- An action that returns, keeps the runner and empties the queue, with the count kept.
abbrev Emptied : JobQueue → Result (Unit {0}) × JobQueue → Type 0
Emptied q (r, p) = (r ≡ ok tt) × (p.queue ≡ []) × (p.runner ≡ q.runner) × Counts p

drain-Emptied :
    (es : List Entry) (q : JobQueue)
    → q.queue ≡ es
    → Unfailed q.failures es
    → Counts q
    → Emptied q (drain es q)
unfolding drain
drain-Emptied [] q e u h = (refl, e, refl, h)
drain-Emptied (x ∷ es) q e u h =
    let p = record q { queue = es } in
    let n = length es + in_hand q.runner + length q.callbacks in
    let (ran, known, rest, runner, count) =
      cancel_entry_lem x p n (omega (arith, ap length e)) u.0 in
    let p' = (cancel_entry x p).1 in
    let balanced : Counts p' = omega (arith, ap length rest, ap in_hand runner) in
    let (a, b, c, d) = drain-Emptied es p' rest (rw known u.1) balanced in
    rw (>>-ok (cancel_entry x) (drain es) p ran) (a, b, c ∙ runner, d)

-- The state in which the active job is cancelled.
abbrev pub inactive : JobQueue → JobQueue
inactive q = (cancel_active (mark_cancelled q)).1

pub inactive_lem :
    (q : JobQueue)
    → active_failure q.failures q.active ≡ none
    → ((cancel_active (mark_cancelled q)).0 ≡ ok tt)
      × ((inactive q).queue ≡ q.queue)
      × ((inactive q).runner ≡ q.runner)
      × ((inactive q).failures ≡ q.failures)
      × ((inactive q).callbacks ≡ q.callbacks)
      × ((inactive q).unfinished ≡ q.unfinished)
inactive_lem q u = ground (arith, u)

pub cancel_all-Emptied : (q : JobQueue) → IsHealthy q → Counts q → Emptied q (cancel_all q)
unfolding cancel_all
cancel_all-Emptied q (idle, u) h =
    let p = inactive q in
    let (ran, queue, runner, known, callbacks, unfinished) = inactive_lem q idle in
    let balanced : Counts p =
      omega (arith, ap length queue, ap in_hand runner, ap length callbacks, unfinished) in
    let (a, b, c, d) = drain-Emptied p.queue p refl (rw (known, queue) u) balanced in
    rw ran (a, b, c ∙ runner, d)

pub cancel-Fine : (r : Error) (q : JobQueue) → IsHealthy q → Counts q → Fine (cancel r q)
unfolding cancel
cancel-Fine r q u h = elim (Bool-cases (leb (state_value cancelled') (state_value q.state))) [
  | inl over ↦ rw over (refl, h)
  | inr live ↦
      let (a, b, c, d) = cancel_all-Emptied q u h in
      rw (live, >>-ok cancel_all (modify (stop r [])) q a)
        (refl, stop-Counts r [] (cancel_all q).1 d)
]

pub interrupt_at-Counts :
    (r : Runner) (q : JobQueue) → q.runner ≡ r → Counts q → Counts (interrupt_at r q)
interrupt_at-Counts (awaiting j) q e h =
    omega (arith, length-append q.callbacks (j ∷ []), ap in_hand e)
interrupt_at-Counts not_started q e h = h
interrupt_at-Counts _ q e h = h

pub cancel-runner :
    (r : Error) (q : JobQueue) → IsHealthy q → Counts q → (cancel r q).1.runner ≡ q.runner
unfolding cancel
cancel-runner r q u h = elim (Bool-cases (leb (state_value cancelled') (state_value q.state))) [
  | inl over ↦ rw over
  | inr live ↦
      let (a, b, c, d) = cancel_all-Emptied q u h in
      rw (live, >>-ok cancel_all (modify (stop r [])) q a) (unfold put_jobs in c)
]

pub fail_at-Fine :
    (r : Runner) (e : Error) (q : JobQueue)
    → q.runner ≡ r
    → Unfailed q.failures q.queue
    → Counts q
    → Fine (fail_at r e q)
fail_at-Fine (awaiting j) e q p u h =
    let q₁ = record q { active = none } in
    let (ran, count) = cancel-Fine e q₁ (refl, u) h in
    let q₂ = (cancel e q₁).1 in
    rw
      (>>-ok (cancel e) (modify (λ p. job_callback j (record p { results = p.results ++ e ∷ [] })))
        q₁ ran)
      (
        refl,
        interrupt_at-Counts (awaiting j) (record q₂ { results = q₂.results ++ e ∷ [] })
            (cancel-runner e q₁ (refl, u) h ∙ p) count,
      )
fail_at-Fine not_started e q p u h = (refl, h)
fail_at-Fine _ e q p u h = (refl, h)
