-- ===== src/JobQueue/Drain.antt =====
-- The jobs of a queue that is closed: `JobQueue._run` awaits each of them, in the order in which
-- they were added, and then stops.
use saltyrtc_server_python.Prelude.{
  suc, ◌+◌, ◌≡◌, refl, ap, sym, ◌∙◌, Option, none, some, List, [], ◌∷◌, ◌++◌, append_nil, map,
  length, arith,
}
use saltyrtc_server_python.Exception.{Error, Result, ok}
use saltyrtc_server_python.Exec.{Exec, ◌>>◌, >>-ok}
use saltyrtc_server_python.JobQueue.{
  Job, Entry, job, final, open', closed, completed, Runner, getting, JobQueue, put, put_jobs, stop,
  close, run_get, run_returned, run_failed, job_done,
}
use saltyrtc_server_python.JobQueue.Count.{Counts, in_hand, stop-Counts}

-- The runner gets a job and awaits it, as often as there are outcomes: a job returns, or raises an
-- exception. Then it gets the next entry.
unfoldable pub serve : List (Option Error) → Exec JobQueue (Unit {0})
unfolding run_get run_returned run_failed
serve [] = run_get
serve (none ∷ outcomes) = do (do run_get; run_returned); serve outcomes
serve (some e ∷ outcomes) = do (do run_get; run_failed e); serve outcomes

-- Every job returns.
abbrev pub all_return : List Job → List (Option Error)
all_return = map (λ j. none)

-- A runner that has come to its end, after the jobs `js` and with the result `r`.
abbrev pub Served : List Job → Error → JobQueue → Result (Unit {0}) × JobQueue → Type 0
Served js r q (result, p) =
    (result ≡ ok tt)
    × (p.queue ≡ [])
    × (p.state ≡ completed)
    × (p.runner ≡ Runner.done)
    × (p.processed ≡ q.processed ++ js)
    × (p.results ≡ q.results ++ r ∷ [])
    × (p.unfinished ≡ length p.callbacks)

append_assoc : (ps : List Job) (j : Job) (js : List Job) → (ps ++ j ∷ []) ++ js ≡ ps ++ j ∷ js
append_assoc [] j js = refl
append_assoc (p ∷ ps) j js = ap (◌∷◌ p) (append_assoc ps j js)

-- The state after one job, which has been awaited.
turn : Job → List Entry → JobQueue → JobQueue
turn j es q = record q {
  queue = es;
  processed = q.processed ++ j ∷ [];
  active = none;
  unfinished = length es + length q.callbacks;
}

turn_lem :
    (j : Job) (es : List Entry) (q : JobQueue)
    → q.queue ≡ job j ∷ es
    → q.runner ≡ getting
    → Counts q
    → (run_get >> run_returned) q ≡ (ok tt, turn j es q)
unfolding run_get run_returned job_done turn
turn_lem j es q e g h =
    let more : q.unfinished ≡ suc (length es + length q.callbacks) =
      omega (arith, ap length e, ap in_hand g) in
    ground arith

pub serve-Served :
    (js : List Job) (r : Error) (q : JobQueue)
    → q.queue ≡ map job js ++ final r ∷ []
    → q.runner ≡ getting
    → Counts q
    → Served js r q (serve (all_return js) q)
unfolding serve run_get job_done turn
serve-Served [] r q e g h =
    let more : q.unfinished ≡ suc (length q.callbacks) = omega (arith, ap length e, ap in_hand g) in
    let same = append_nil q.processed in ground arith
serve-Served (j ∷ js) r q e g h =
    let es = map job js ++ final r ∷ [] in
    let p = turn j es q in
    let first = turn_lem j es q e g h in
    let (a, b, c, d, f, k, l) = serve-Served js r p refl g (omega (arith, ap in_hand g)) in
    rw
      (
        >>-ok (run_get >> run_returned) (serve (all_return js)) q (ap (λ x. x.0) first),
        ap (λ x. x.1) first,
      )
      (a, b, c, d, f ∙ append_assoc q.processed j js, k, l)

append_jobs :
    (es : List Entry) (j : Job) (js : List Job)
    → (es ++ job j ∷ []) ++ map job js ≡ es ++ job j ∷ map job js
append_jobs [] j js = refl
append_jobs (e ∷ es) j js = ap (◌∷◌ e) (append_jobs es j js)

-- What putting jobs on the queue leaves as it was, and what it adds.
put_jobs_lem :
    (js : List Job) (q : JobQueue)
    → let p = put_jobs js q in
      (p.queue ≡ q.queue ++ map job js)
      × (p.runner ≡ q.runner)
      × (p.processed ≡ q.processed)
      × (p.results ≡ q.results)
unfolding put_jobs
put_jobs_lem [] q = (sym (append_nil q.queue), refl, refl, refl)
put_jobs_lem (j ∷ js) q =
    let (a, b, c, d) = put_jobs_lem js (put (job j) q) in (a ∙ append_jobs q.queue j js, b, c, d)

map_append : (js ks : List Job) → map job js ++ map job ks ≡ map job (js ++ ks)
map_append [] ks = refl
map_append (j ∷ js) ks = ap (◌∷◌ (job j)) (map_append js ks)

pub close_lem :
    (r : Error) (ks : List Job) (q : JobQueue)
    → q.state ≡ open'
    → close r ks q ≡ (ok tt, stop r ks (record q { state = closed }))
unfolding close
close_lem r ks q s = rw s refl

-- When a queue is closed whose runner waits for the next entry, and every job that is awaited
-- returns, the runner awaits all jobs that were added before, and the jobs that came with the
-- closing, in this order; it then ends with the given result as the only new one, nothing is left in
-- the queue, and only the jobs whose callback is still to be called are unfinished.
pub close-serve :
    (r : Error) (js ks : List Job) (q : JobQueue)
    → q.state ≡ open'
    → q.queue ≡ map job js
    → q.runner ≡ getting
    → Counts q
    → Served (js ++ ks) r q (serve (all_return (js ++ ks)) (close r ks q).1)
unfolding stop
close-serve r js ks q s e g h =
    let q₁ = record q { state = closed } in
    let (a, b, c, d) = put_jobs_lem ks q₁ in
    let entries =
      ap (λ es. es ++ final r ∷ []) (a ∙ ap (λ es. es ++ map job ks) e ∙ map_append js ks) in
    let (u, v, w, x, y, z, t) =
      serve-Served (js ++ ks) r (stop r ks q₁) entries (b ∙ g) (stop-Counts r ks q₁ h) in
    rw (close_lem r ks q s)
      (u, v, w, x, y ∙ ap (λ js'. js' ++ (js ++ ks)) c, z ∙ ap (λ es. es ++ r ∷ []) d, t)
