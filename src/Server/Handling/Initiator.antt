-- ===== src/Server/Handling/Initiator.antt =====
-- What an initiator that leaves does to its path.
use saltyrtc_server_python.Prelude.{
  ℕ, ◌≡◌, ◌≢◌, refl, ap, ◌∙◌, true, false, some, none, arith, if_cases,
}
use saltyrtc_server_python.Exception.{Error, ok}
use saltyrtc_server_python.JobQueue as queue
use saltyrtc_server_python.JobQueue.Count.{Counts, IsHealthy}
use saltyrtc_server_python.SignalingPath.{SignalingPath, World, remove_client, is_empty, empty}
use saltyrtc_server_python.SignalingPath.Dict.{remove}
use saltyrtc_server_python.SignalingPath.Validity.{IsValid, remove_client_lem, remove_slot_lem}
use saltyrtc_server_python.Server.Exchange.{world_of, set_connection}
use saltyrtc_server_python.Server.Handling.{Site, end_client, forget_client, clean_path}
use saltyrtc_server_python.Server.Handling.Cleaning.{IsSound, clean_path_lem}
use saltyrtc_server_python.Server.Handling.Leaving.{forgotten, end_client_lem, same_world}

-- The path without its initiator.
abbrev without : ℕ → SignalingPath → SignalingPath
without r p = record p { pending = remove r p.pending; initiator = none }

remove_client-initiator :
    (r : ℕ) (w : World)
    → IsValid w
    → w.attached ≡ true
    → w.initiator ≡ some r
    → remove_client r w ≡ (ok tt, record w { path = without r w.path })
remove_client-initiator r w v a i = ground (
  arith,
  remove_client_lem r w,
  remove_slot_lem r (w.clients r).id
      (record w { path = record w.path { pending = remove r w.pending } }),
  v.initiator_id r i,
  a,
  i,
)

forgotten-initiator :
    (r : ℕ) (e : Error) (s : Site)
    → IsSound s
    → s.exchange.path.attached ≡ true
    → s.exchange.path.initiator ≡ some r
    → let u = forgotten r e s in
      (u.exchange.path ≡ without r s.exchange.path)
      × (u.exchange.scheduled ≡ s.exchange.scheduled)
      × ((q : ℕ) → (u.exchange.connections q).client ≡ (s.exchange.connections q).client)
      × ((q : ℕ) → q ≢ r → (u.exchange.connections q).jobs ≡ (s.exchange.connections q).jobs)
unfolding forget_client
forgotten-initiator r e s v a i =
    let c = s.exchange.connections r in
    let d = record c { jobs = (queue.cancel e c.jobs).1 } in
    let w = world_of (set_connection r d s.exchange) in
    let same = same_world r d s.exchange refl in
    let removed = remove_client-initiator r w (rw same v.world) a i in
    (
      ap (λ o. o.1.path) removed,
      refl,
      (λ q. ap (λ o. o.1.clients q) removed ∙ ap (λ u. u.clients q) same),
      (λ q n. ground (arith, n)),
    )

pub occupied_path : (p : SignalingPath) → is_empty p.responders ≡ false → empty p ≡ false
unfolding empty
occupied_path p n = ground (arith, n)

occupied : (r : ℕ) (p : SignalingPath) → is_empty p.responders ≡ false → empty (without r p) ≡ false
unfolding empty
occupied r p n = ground (arith, n)

-- The end of `handle_client` for the initiator of a path that has responders.
pub end_client-initiator :
    (r : ℕ) (e : Error) (s : Site)
    → IsSound s
    → Counts (s.exchange.connections r).jobs
    → IsHealthy (s.exchange.connections r).jobs
    → s.exchange.path.attached ≡ true
    → s.exchange.path.initiator ≡ some r
    → is_empty s.exchange.path.responders ≡ false
    → let t = (end_client r e s).1 in
      (t.exchange.path ≡ without r s.exchange.path)
      × (t.exchange.scheduled ≡ s.exchange.scheduled)
      × ((q : ℕ) → (t.exchange.connections q).client ≡ (s.exchange.connections q).client)
      × ((q : ℕ) → q ≢ r → (t.exchange.connections q).jobs ≡ (s.exchange.connections q).jobs)
end_client-initiator r e s v counts healthy a i n =
    let (ended, sound, gone, attached, number) = end_client_lem r e s v counts healthy in
    let (path, scheduled, client, jobs) = forgotten-initiator r e s v a i in
    let u = forgotten r e s in
    let full : empty u.exchange.path ≡ false = ap empty path ∙ occupied r s.exchange.path n in
    let (exchange, _, _, _) = clean_path_lem u sound in
    let kept : (clean_path u).exchange ≡ u.exchange = exchange ∙ rw full refl in
    let same : (end_client r e s).1.exchange ≡ u.exchange =
      ap (λ o. o.1.exchange) ended
      ∙ if_cases {A = Site} (λ t. t.exchange ≡ u.exchange) u.exchange.path.attached (λ h. kept)
          (λ h. refl) in
    (
      ap (λ x. x.path) same ∙ path,
      ap (λ x. x.scheduled) same ∙ scheduled,
      (λ q. ap (λ x. (x.connections q).client) same ∙ client q),
      (λ q n. ap (λ x. (x.connections q).jobs) same ∙ jobs q n),
    )
