-- ===== src/Server/Handling/Cleaning.antt =====
-- `Paths.clean` on the path of a client.
use saltyrtc_server_python.Prelude.{ℕ, ◌≡◌, refl, ap, true, false, arith, if_cases, if◌then◌else◌}
use saltyrtc_server_python.Client.{Client}
use saltyrtc_server_python.SignalingPath.{SignalingPath, empty, clear}
use saltyrtc_server_python.SignalingPath.Dict.{lookup}
use saltyrtc_server_python.SignalingPath.Validity.{IsValid}
use saltyrtc_server_python.SignalingPath.Removal.{IsGone}
use saltyrtc_server_python.Server.Paths as dictionary
use saltyrtc_server_python.Server.Paths.{Paths, store, clean_empty, clean_lem, clean-IsValid}
use saltyrtc_server_python.Server.Exchange.{world_of}
use saltyrtc_server_python.Server.Handling.{Site, clean_path}

-- The path is well formed, its object in the dictionary has its key, and a path that is detached is
-- empty.
pub record IsSound (s : Site) : Type 0 where
  pub world : IsValid (world_of s.exchange)
  pub dictionary : dictionary.IsValid s.paths
  pub key : (s.paths.objects s.exchange.path.number).initiator_key ≡ s.exchange.path.initiator_key
  pub detached : s.exchange.path.attached ≡ false → empty s.exchange.path ≡ true

-- The path is written to the dictionary.
abbrev written : Site → Paths
written s = record s.paths {
  objects = store s.paths.objects s.exchange.path.number s.exchange.path;
}

written-IsValid : (s : Site) → IsSound s → dictionary.IsValid (written s)
written-IsValid s v =
    let (named, right) = v.dictionary in
    (named, λ b m found. let known = right b m found in ground (arith, v.key))

-- What becomes of the path of the client when the dictionary is cleaned.
abbrev pub cleaned : SignalingPath → SignalingPath
cleaned p = if empty p then clear (record p { attached = false }) else p

pub clean_path_lem :
    (s : Site)
    → IsSound s
    → let t = clean_path s in
      (t.exchange ≡ record s.exchange { path = cleaned s.exchange.path })
      × (t.paths.objects s.exchange.path.number ≡ t.exchange.path)
      × dictionary.IsValid t.paths
      × (t.server ≡ s.server)
unfolding clean_path clean_empty
clean_path_lem s v =
    let n = s.exchange.path.number in
    let valid = written-IsValid s v in
    let same : (dictionary.clean n (written s)).objects n ≡ cleaned s.exchange.path =
      ground (arith, clean_lem n (written s) valid.0) in
    (ap (λ p. record s.exchange { path = p }) same, refl, clean-IsValid n (written s) valid, refl)

pub cleaned-IsValid :
    (p : SignalingPath) (clients : ℕ → Client)
    → IsValid (record { path = p; clients = clients })
    → IsValid (record { path = cleaned p; clients = clients })
unfolding clear lookup empty
cleaned-IsValid p clients v =
    if_cases (λ q. IsValid (record { path = q; clients = clients })) (empty p)
      (λ h. record {
        addressed = v.addressed;
        pending_restricted = λ r e. cc;
        initiator_id = λ r e. cc;
        slot_id = λ i r e. cc;
        distinct = tt;
      })
      (λ h. v)

pub cleaned-IsGone : (r : ℕ) (p : SignalingPath) → IsGone r p → IsGone r (cleaned p)
unfolding clear lookup
cleaned-IsGone r p g =
    if_cases (IsGone r) (empty p)
      (λ h. record { pending = refl; initiator = λ e. cc; responders = λ id e. cc }) (λ h. g)

pub cleaned_lem :
    (p : SignalingPath)
    → ((cleaned p).attached ≡ (if empty p then false else p.attached))
      × ((cleaned p).number ≡ p.number)
      × ((cleaned p).initiator_key ≡ p.initiator_key)
      × (empty (cleaned p) ≡ empty p)
unfolding clear empty
cleaned_lem p = ground arith
