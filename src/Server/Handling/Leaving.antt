-- ===== src/Server/Handling/Leaving.antt =====
-- What is left of a client when its handler has ended.
use saltyrtc_server_python.Prelude.{
  ℕ, ◌≡◌, refl, sym, ap, ◌∙◌, true, false, arith, Bool-cases, inl, inr, if_cases, if◌then◌else◌,
}
use mathlib.Core.Path.{fun_ext}
use saltyrtc_server_python.Exception.{Error, ok, err}
use saltyrtc_server_python.Connection.{Connection}
use saltyrtc_server_python.JobQueue as queue
use saltyrtc_server_python.JobQueue.Count.{Counts, IsHealthy, cancel-Fine}
use saltyrtc_server_python.SignalingPath.{SignalingPath, remove_client, empty}
use saltyrtc_server_python.SignalingPath.Dict.{lookup}
use saltyrtc_server_python.SignalingPath.Validity.{IsValid}
use saltyrtc_server_python.SignalingPath.Invariant.{remove_client-IsValid}
use saltyrtc_server_python.SignalingPath.Removal.{
  IsGone, remove_client-IsGone, remove_client_frame, remove_client-detached,
}
use saltyrtc_server_python.Server.Exchange.{Exchange, world_of, set_connection}
use saltyrtc_server_python.Server.Shutdown.{remove_client_keeps}
use saltyrtc_server_python.Server.Handling.{Site, forget_client, clean_path, end_client}
use saltyrtc_server_python.Server.Handling.Cleaning.{
  IsSound, cleaned, clean_path_lem, cleaned-IsValid, cleaned-IsGone, cleaned_lem,
}

empty-IsGone : (r : ℕ) (p : SignalingPath) → empty p ≡ true → IsGone r p
unfolding empty lookup
empty-IsGone r p h = record {
  pending = ground (arith, h);
  initiator = λ e. ground (arith, h, e);
  responders = λ id e. ground (arith, h, e);
}

pub forget_client-IsGone :
    (r : ℕ) (x : Exchange)
    → IsValid (world_of x)
    → (x.path.attached ≡ false → empty x.path ≡ true)
    → let (result, y) = forget_client r x in
      (result ≡ ok tt)
      × IsValid (world_of y)
      × IsGone r y.path
      × (y.path.attached ≡ x.path.attached)
      × (y.path.number ≡ x.path.number)
      × (y.path.initiator_key ≡ x.path.initiator_key)
      × (y.path.attached ≡ false → empty y.path ≡ true)
unfolding forget_client
forget_client-IsGone r x v d =
    let w = world_of x in
    let (silent, keep) = remove_client_keeps r w in
    let (attached, number, key) = remove_client_frame r w in
    let gone = elim (Bool-cases x.path.attached) as (λ h. IsGone r (remove_client r w).1.path) [
      | inl h ↦ remove_client-IsGone r w v h
      | inr h ↦ rw (remove_client-detached r w h) (empty-IsGone r x.path (d h))
    ] in
    let after = remove_client-detached r w in
    (
      silent,
      remove_client-IsValid r w v,
      gone,
      attached,
      number,
      key,
      λ h. let off = sym attached ∙ h in ap empty (after off) ∙ d off,
    )

-- The client is off the path, and the path is detached if it is empty now; the dictionary has the
-- path.
pub record IsLeft (r : ℕ) (s t : Site) : Type 0 where
  pub gone : IsGone r t.exchange.path
  pub sound : IsSound t
  pub emptied : empty t.exchange.path ≡ true → t.exchange.path.attached ≡ false
  pub stored :
      s.exchange.path.attached ≡ true → t.paths.objects s.exchange.path.number ≡ t.exchange.path
  pub server : t.server ≡ s.server

-- The last step of `end_client` on a path that the client is not on.
clean_path-IsLeft :
    (r : ℕ) (s : Site)
    → IsSound s
    → IsGone r s.exchange.path
    → s.exchange.path.attached ≡ true
    → IsLeft r s (clean_path s)
clean_path-IsLeft r s v g a =
    let (path, stored, valid, server) = clean_path_lem s v in
    let (attached, number, key, vacant) = cleaned_lem s.exchange.path in
    let t = clean_path s in
    let here : t.exchange.path ≡ cleaned s.exchange.path = ap (λ x. x.path) path in
    record {
      gone = rw here (cleaned-IsGone r s.exchange.path g);
      sound = record {
        world = rw path (cleaned-IsValid s.exchange.path (world_of s.exchange).clients v.world);
        dictionary = valid;
        key = rw (here, number, stored) (ap (λ p. p.initiator_key) here);
        detached = rw here (λ h. ground (arith, vacant, attached, h));
      };
      emptied = rw here (λ h. ground (arith, vacant, attached, h));
      stored = λ h. stored;
      server = server;
    }

clean_attached-IsLeft :
    (r : ℕ) (s u : Site)
    → IsSound u
    → IsGone r u.exchange.path
    → u.exchange.path.attached ≡ s.exchange.path.attached
    → u.exchange.path.number ≡ s.exchange.path.number
    → u.server ≡ s.server
    → IsLeft r s (if u.exchange.path.attached then clean_path u else u)
clean_attached-IsLeft r s u sound gone attached number server =
    if_cases (IsLeft r s) u.exchange.path.attached
      (λ a.
        let l = clean_path-IsLeft r u sound gone a in
        record {
          gone = l.gone;
          sound = l.sound;
          emptied = l.emptied;
          stored = λ h. ap (clean_path u).paths.objects (sym number) ∙ l.stored a;
          server = l.server ∙ server;
        })
      (λ a. record {
        gone = gone;
        sound = sound;
        emptied = λ h. a;
        stored = λ h. cc;
        server = server;
      })

-- A change of a connection that keeps its client changes nothing for the path.
pub same_world :
    (r : ℕ) (c : Connection) (x : Exchange)
    → c.client ≡ (x.connections r).client
    → world_of (set_connection r c x) ≡ world_of x
same_world r c x h =
    ap (λ clients. record { path = x.path; clients = clients }) (fun_ext (λ q. ground (arith, h)))

-- The client has left the path, before the dictionary is cleaned.
abbrev pub forgotten : ℕ → Error → Site → Site
forgotten r e s =
    let c = s.exchange.connections r in
    let d = record c { jobs = (queue.cancel e c.jobs).1 } in
    record s { exchange = (forget_client r (set_connection r d s.exchange)).1 }

pub end_client_lem :
    (r : ℕ) (e : Error) (s : Site)
    → IsSound s
    → Counts (s.exchange.connections r).jobs
    → IsHealthy (s.exchange.connections r).jobs
    → let u = forgotten r e s in
      (end_client r e s ≡ (err e, if u.exchange.path.attached then clean_path u else u))
      × IsSound u
      × IsGone r u.exchange.path
      × (u.exchange.path.attached ≡ s.exchange.path.attached)
      × (u.exchange.path.number ≡ s.exchange.path.number)
unfolding end_client
end_client_lem r e s v counts healthy =
    let c = s.exchange.connections r in
    let (fine, count) = cancel-Fine e c.jobs healthy counts in
    let d = record c { jobs = (queue.cancel e c.jobs).1 } in
    let x = set_connection r d s.exchange in
    let same = same_world r d s.exchange refl in
    let (silent, valid, gone, attached, number, key, vacant) =
      forget_client-IsGone r x (rw same v.world) v.detached in
    (
      rw (fine, silent) refl,
      record {
        world = valid;
        dictionary = v.dictionary;
        key = rw (number, key) v.key;
        detached = vacant;
      },
      gone,
      attached,
      number,
    )

-- When the tasks of a client have ended on a sound server, and no task that its job queue awaits or
-- holds has failed and the unfinished entries of the queue are counted, `handle_client` raises the
-- result of the tasks after the client has left: it is on the path nowhere, the path is detached if
-- it is empty then, the dictionary has the path under its number if it was attached, the server is
-- sound again, and its registries are unchanged.
pub end_client-IsLeft :
    (r : ℕ) (e : Error) (s : Site)
    → IsSound s
    → Counts (s.exchange.connections r).jobs
    → IsHealthy (s.exchange.connections r).jobs
    → let (result, t) = end_client r e s in (result ≡ err e) × IsLeft r s t
end_client-IsLeft r e s v counts healthy =
    let (ended, sound, gone, attached, number) = end_client_lem r e s v counts healthy in
    rw ended (refl, clean_attached-IsLeft r s (forgotten r e s) sound gone attached number refl)
