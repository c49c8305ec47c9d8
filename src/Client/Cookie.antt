-- ===== src/Client/Cookie.antt =====
-- The cookies of a client: `PathClient.valid_cookie`, called for each message to the server.
use saltyrtc_server_python.Prelude.{
  ◌≡◌, ◌≢◌, ◌↔◌, refl, Bool, true, false, none, some, List, [], ◌∷◌, All, Bytes, bytes_eq,
  bytes_eq_sound, bytes_eq_refl, arith, if◌then◌else◌, Bool-cases, inl, inr,
}
use saltyrtc_server_python.Exception.{ok}
use saltyrtc_server_python.Exec.{Exec, pure, ◌>>=◌}
use saltyrtc_server_python.Client.{Client, or_draw, valid_cookie}

-- The messages of a connection, until a cookie is refused.
unfoldable pub receive_cookies : List Bytes → Exec Client Bool
receive_cookies [] = pure true
receive_cookies (k ∷ ks) = do
  valid ← valid_cookie k
  let rest = receive_cookies ks
  if valid then rest else pure false

-- The server's cookie for the client, drawn or not.
abbrev pub own_cookie : Client → Bytes
own_cookie c = or_draw c.cookie_out c.entropy.cookie

valid_cookie_next :
    (k j : Bytes) (c : Client) → c.cookie_in ≡ some k → valid_cookie j c ≡ (ok (bytes_eq j k), c)
unfolding valid_cookie
valid_cookie_next k j c e = ground arith

valid_cookie_first :
    (k : Bytes) (c : Client)
    → c.cookie_in ≡ none
    → valid_cookie k c ≡ (
        if bytes_eq k (own_cookie c)
        then (ok false, record c { cookie_out = some (own_cookie c) })
        else (ok true, record c { cookie_out = some (own_cookie c); cookie_in = some k }))
unfolding valid_cookie
valid_cookie_first k c e = ground arith

receive_same :
    (k : Bytes) (ks : List Bytes) (c : Client)
    → c.cookie_in ≡ some k
    → ((receive_cookies ks c).0 ≡ ok true) ↔ All (λ j. j ≡ k) ks
unfolding receive_cookies
receive_same k [] c e = (λ _. tt, λ _. refl)
receive_same k (j ∷ ks) c e = elim (Bool-cases (bytes_eq j k)) [
  | inl same ↦
      rw (valid_cookie_next k j c e, same)
        (
          (λ h. (bytes_eq_sound j k same, (receive_same k ks c e).0 h)),
          λ (_, h). (receive_same k ks c e).1 h,
        )
  | inr other ↦
      rw (valid_cookie_next k j c e, other) ((λ h. cc), λ (h, _). ground (arith, bytes_eq_refl k))
]

-- From a client that has not sent a message yet, the server accepts the cookies of a sequence of
-- messages exactly if the first differs from the server's own and all the others are the first.
pub receive_cookies_iff :
    (k : Bytes) (ks : List Bytes) (c : Client)
    → c.cookie_in ≡ none
    → ((receive_cookies (k ∷ ks) c).0 ≡ ok true) ↔ ((k ≢ own_cookie c) × All (λ j. j ≡ k) ks)
unfolding receive_cookies
receive_cookies_iff k ks c e = elim (Bool-cases (bytes_eq k (own_cookie c))) [
  | inl same ↦
      rw (valid_cookie_first k c e, same)
        ((λ h. cc), λ (h, _). absurd (h (bytes_eq_sound k _ same)))
  | inr other ↦
      let d = record c { cookie_out = some (own_cookie c); cookie_in = some k } in
      rw (valid_cookie_first k c e, other)
        (
          (λ h. ((λ p. ground (arith, bytes_eq_refl k)), (receive_same k ks d refl).0 h)),
          λ (_, h). (receive_same k ks d refl).1 h,
        )
]
