-- ===== src/JobQueue/Failing.antt =====
-- A task that has failed while it was in the job queue: `cancel_awaitable` raises its exception
-- again, out of `JobQueue.cancel`.
use saltyrtc_server_python.Prelude.{
  ℕ, suc, ◌+◌, ◌≡◌, refl, ap, ◌∙◌, false, none, some, List, [], ◌∷◌, ◌++◌, length, leb, arith,
}
use saltyrtc_server_python.Exception.{Error, Result, ok, err}
use saltyrtc_server_python.Exec.{modify, >>-ok, >>-err}
use saltyrtc_server_python.JobQueue.{
  task, Entry, job, cancelled', state_value, JobQueue, cancel_entry, drain, stop, cancel_all,
  cancel, mark_cancelled, cancel_active,
}
use saltyrtc_server_python.JobQueue.Count.{
  Counts, in_hand, Unfailed, active_failure, cancel_entry_lem, inactive, inactive_lem,
}

-- An action that raised `e` with the entries `es` still in the queue. One entry more is unfinished
-- than there are entries, jobs in hand and callbacks to come.
pub record IsStuck (e : Error) (es : List Entry) (q : JobQueue)
    (end' : Result (Unit {0}) × JobQueue) : Type 0 where
  pub raised : end'.0 ≡ err e
  pub queue : end'.1.queue ≡ es
  pub runner : end'.1.runner ≡ q.runner
  pub results : end'.1.results ≡ q.results
  pub state : end'.1.state ≡ q.state
  pub unfinished :
      end'.1.unfinished ≡ suc (length es + in_hand end'.1.runner + length end'.1.callbacks)

cancel_entry_frame :
    (x : Entry) (q : JobQueue)
    → let p = (cancel_entry x q).1 in (p.state ≡ q.state) × (p.results ≡ q.results)
unfolding cancel_entry saltyrtc_server_python.JobQueue.cancel_job
    saltyrtc_server_python.JobQueue.job_done
cancel_entry_frame (job (saltyrtc_server_python.JobQueue.coroutine k)) q = ground arith
cancel_entry_frame (job (task k)) q = ground arith
cancel_entry_frame (saltyrtc_server_python.JobQueue.final r) q = ground arith

drain-IsStuck :
    (n : ℕ) (e : Error) (before after : List Entry) (q : JobQueue)
    → q.queue ≡ before ++ job (task n) ∷ after
    → Unfailed q.failures before
    → q.failures (task n) ≡ some e
    → Counts q
    → IsStuck e after q (drain (before ++ job (task n) ∷ after) q)
unfolding drain cancel_entry saltyrtc_server_python.JobQueue.cancel_job
drain-IsStuck n e [] after q same u f h =
    let count = ap length same in
    record {
      raised = ground (arith, f);
      queue = ground (arith, f);
      runner = ground (arith, f);
      results = ground (arith, f);
      state = ground (arith, f);
      unfinished = ground (arith, f, count);
    }
drain-IsStuck n e (x ∷ before) after q same u f h =
    let es = before ++ job (task n) ∷ after in
    let p = record q { queue = es } in
    let m = length es + in_hand q.runner + length q.callbacks in
    let (ran, known, rest, runner, count) =
      cancel_entry_lem x p m (omega (arith, ap length same)) u.0 in
    let (state, results) = cancel_entry_frame x p in
    let p' = (cancel_entry x p).1 in
    let balanced : Counts p' = omega (arith, ap length rest, ap in_hand runner) in
    let s = drain-IsStuck n e before after p' rest (rw known u.1) (rw known f) balanced in
    rw (>>-ok (cancel_entry x) (drain es) p ran) (record {
      raised = s.raised;
      queue = s.queue;
      runner = s.runner ∙ runner;
      results = s.results ∙ results;
      state = s.state ∙ state;
      unfinished = s.unfinished;
    })

drain_all-IsStuck :
    (n : ℕ) (e : Error) (es before after : List Entry) (q : JobQueue)
    → es ≡ before ++ job (task n) ∷ after
    → q.queue ≡ es
    → Unfailed q.failures before
    → q.failures (task n) ≡ some e
    → Counts q
    → IsStuck e after q (drain es q)
drain_all-IsStuck n e es before after q same queue u f h =
    rw same (drain-IsStuck n e before after q (queue ∙ same) u f h)

inactive_frame :
    (q : JobQueue)
    → leb (state_value cancelled') (state_value q.state) ≡ false
    → active_failure q.failures q.active ≡ none
    → ((inactive q).state ≡ cancelled') × ((inactive q).results ≡ q.results)
inactive_frame q l u = ground (arith, l, u)

cancel_all-IsStuck :
    (n : ℕ) (e : Error) (before after : List Entry) (q : JobQueue)
    → leb (state_value cancelled') (state_value q.state) ≡ false
    → active_failure q.failures q.active ≡ none
    → q.queue ≡ before ++ job (task n) ∷ after
    → Unfailed q.failures before
    → q.failures (task n) ≡ some e
    → Counts q
    → IsStuck e after (record q { state = cancelled' }) (cancel_all q)
unfolding cancel_all
cancel_all-IsStuck n e before after q live idle same u f h =
    let p = inactive q in
    let (ran, queue, runner, known, callbacks, unfinished) = inactive_lem q idle in
    let (state, results) = inactive_frame q live idle in
    let balanced : Counts p =
      omega (arith, ap length queue, ap in_hand runner, ap length callbacks, unfinished) in
    let s =
      drain_all-IsStuck n e p.queue before after p (queue ∙ same) refl (rw known u) (rw known f)
        balanced in
    rw ran (record {
      raised = s.raised;
      queue = s.queue;
      runner = s.runner ∙ runner;
      results = s.results ∙ results;
      state = s.state ∙ state;
      unfinished = s.unfinished;
    })

cancel_again : (r : Error) (q : JobQueue) → q.state ≡ cancelled' → cancel r q ≡ (ok tt, q)
unfolding cancel
cancel_again r q h = rw h refl

-- When a job queue is cancelled that was not yet, its unfinished entries are counted, and a task in
-- it has failed, and none before it nor the one that the runner awaits, then `cancel` raises the
-- exception of that task. What was behind the task stays in the queue, no final job is added, the
-- runner is where it was, and one entry more is unfinished than there are entries, jobs in hand and
-- callbacks to come. The queue is cancelled then, so that a second `cancel` returns and changes
-- nothing.
pub cancel-IsStuck :
    (r e : Error) (n : ℕ) (before after : List Entry) (q : JobQueue)
    → leb (state_value cancelled') (state_value q.state) ≡ false
    → active_failure q.failures q.active ≡ none
    → q.queue ≡ before ++ job (task n) ∷ after
    → Unfailed q.failures before
    → q.failures (task n) ≡ some e
    → Counts q
    → IsStuck e after (record q { state = cancelled' }) (cancel r q)
      × ((r' : Error) → cancel r' (cancel r q).1 ≡ (ok tt, (cancel r q).1))
unfolding cancel
cancel-IsStuck r e n before after q live idle same u f h =
    let s = cancel_all-IsStuck n e before after q live idle same u f h in
    let p = (cancel_all q).1 in
    rw (live, >>-err cancel_all (modify (stop r [])) q s.raised)
      (
        record {
          raised = refl;
          queue = s.queue;
          runner = s.runner;
          results = s.results;
          state = s.state;
          unfinished = s.unfinished;
        },
        λ r'. cancel_again r' p s.state,
      )
