-- ===== src/Server/Subprotocol.antt =====
-- `ServerProtocol.select_subprotocol` of saltyrtc/server/server.py.
--
-- The order in which Python iterates over a set is the parameter `iteration`: the elements of a
-- set, each of them at least once and no others.
use saltyrtc_server_python.Prelude.{
  ℕ, ◌+◌, ◌≤◌, ◌≡◌, refl, ap, ◌∙◌, Bool, true, false, Option, none, some, List, [], ◌∷◌, bytes_eq,
  bytes_eq_sound, bytes_eq_refl, leb, arith, if◌then◌else◌,
}
use saltyrtc_server_python.Value.{Text}

-- `s in subprotocols`
unfoldable pub has : Text → List Text → Bool
has s [] = false
has s (x ∷ xs) = if bytes_eq s x then true else has s xs

-- `subprotocols.index(s)`, where `s` is there
unfoldable pub index : List Text → Text → ℕ
index [] s = 0
index (x ∷ xs) s = if bytes_eq s x then 0 else index xs s + 1

-- `set(client_subprotocols) & set(server_subprotocols)`
unfoldable pub common : List Text → List Text → List Text
unfolding has
common [] server_subprotocols = []
common (s ∷ ss) server_subprotocols =
    let rest = common ss server_subprotocols in if has s server_subprotocols then s ∷ rest else rest

unfoldable pub priority : List Text → List Text → Text → ℕ
unfolding index
priority client_subprotocols server_subprotocols s =
    index client_subprotocols s + index server_subprotocols s

-- `sorted(s ∷ ss, key=key)[0]`: sorting is stable, so the first one of the least key.
unfoldable pub first_least : (Text → ℕ) → Text → List Text → Text
first_least key s [] = s
first_least key s (x ∷ xs) =
    let least = first_least key x xs in if leb (key s) (key least) then s else least

abbrev first_sorted : (Text → ℕ) → List Text → Option Text
first_sorted key [] = none
first_sorted key (s ∷ ss) = some (first_least key s ss)

unfoldable pub select_subprotocol : (List Text → List Text) → List Text → List Text → Option Text
unfolding common priority first_least
select_subprotocol iteration client_subprotocols server_subprotocols =
    first_sorted (priority client_subprotocols server_subprotocols)
      (iteration (common client_subprotocols server_subprotocols))

-- The order of a set has the elements of the set.
abbrev pub Iterates : (List Text → List Text) → Type 0
Iterates iteration = (s : Text) (ss : List Text) → has s (iteration ss) ≡ has s ss

has-common :
    (s : Text) (cs ss : List Text) → has s (common cs ss) ≡ (if has s cs then has s ss else false)
unfolding has common
has-common s [] ss = refl
has-common s (c ∷ cs) ss = ground (arith, has-common s cs ss, bytes_eq_sound s c)

has-first_least :
    (key : Text → ℕ) (s : Text) (ss : List Text) → has (first_least key s ss) (s ∷ ss) ≡ true
unfolding has first_least
has-first_least key s [] = rw (bytes_eq_refl s) refl
has-first_least key s (x ∷ xs) = ground (arith, has-first_least key x xs, bytes_eq_refl s)

same_key : (key : Text → ℕ) (t s : Text) → bytes_eq t s ≡ true → key t ≡ key s
same_key key t s h = ap key (bytes_eq_sound t s h)

first_least-least :
    (key : Text → ℕ) (s t : Text) (ss : List Text)
    → has t (s ∷ ss) ≡ true
    → key (first_least key s ss) ≤ key t
unfolding has first_least
first_least-least key s t [] h = ground (arith, same_key key t s)
first_least-least key s t (x ∷ xs) h =
    ground (arith, same_key key t s, same_key key t x, first_least-least key x t xs)

-- What is selected, if `t` is one of the candidates: something of the client and of the server, and
-- of no larger combined index than `t`.
abbrev pub IsChoice : List Text → List Text → Text → Option Text → Type 0
IsChoice cs ss t none = ⊥
IsChoice cs ss t (some s) =
    (has s cs ≡ true) × (has s ss ≡ true) × (index cs s + index ss s ≤ index cs t + index ss t)

first_sorted-IsChoice :
    (cs ss order : List Text) (t : Text)
    → ((s : Text) → has s order ≡ (if has s cs then has s ss else false))
    → has t cs ≡ true
    → has t ss ≡ true
    → IsChoice cs ss t (first_sorted (priority cs ss) order)
unfolding has priority
first_sorted-IsChoice cs ss [] t same a b = ground (arith, same t)
first_sorted-IsChoice cs ss (s ∷ os) t same a b =
    let chosen = first_least (priority cs ss) s os in
    let here = has-first_least (priority cs ss) s os in
    (
      ground (arith, same chosen),
      ground (arith, same chosen),
      first_least-least (priority cs ss) s t os (ground (arith, same t)),
    )

-- If a sub-protocol `t` is both the client's and the server's, a sub-protocol is selected; it is
-- the client's and the server's, and its combined index is not larger than the one of `t`. The
-- order in which a set is iterated over does not matter.
pub select_subprotocol-IsChoice :
    (iteration : List Text → List Text)
    → Iterates iteration
    → (client_subprotocols server_subprotocols : List Text) (t : Text)
    → has t client_subprotocols ≡ true
    → has t server_subprotocols ≡ true
    → IsChoice client_subprotocols server_subprotocols t
        (select_subprotocol iteration client_subprotocols server_subprotocols)
unfolding select_subprotocol
select_subprotocol-IsChoice iteration iterates cs ss t a b =
    first_sorted-IsChoice cs ss (iteration (common cs ss)) t
      (λ s. iterates s (common cs ss) ∙ has-common s cs ss) a b
