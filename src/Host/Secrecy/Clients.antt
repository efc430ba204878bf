-- ===== src/Host/Secrecy/Clients.antt =====
-- bin/aria-bridge-host.js: what a socket does to a host, before anybody gives the secret.
use aria_bridge.Prelude.{
  ℕ, ◌==◌, Bool, true, false, not, ◌&&◌, ◌||◌, Text, text, if_elim, Option, none, some,
  Option-cases, List, [], ◌∷◌, All, subst, ◌≡◌, refl, arith, Bool-cases, inl, inr,
}
use aria_bridge.Value.{Value, null}
use aria_bridge.Socket.State.{Ready, connecting, opened, closing, closed}
use aria_bridge.Host.State.{Sock, Host, discard}
use aria_bridge.Host.Values.{prop, or, is_word}
use aria_bridge.Host.Routing.{find_sock}
use aria_bridge.Host.Sockets.{
  update_sock, drop_sock, start_close, close_with, auth_timeout_fires, handle_auth,
}
use aria_bridge.Host.Consumers.{
  handle_message, handle_raw, caught, receive, forget, on_close, drop_replies,
}
use aria_bridge.Host.Steps.{begin_close}

-- A message or a request that has the secret.
abbrev pub has_secret : Text → Value → Option Value → Bool
has_secret secret header none = false
has_secret secret header (some v) =
    is_word secret (prop (text "secret") v) || is_word secret (or (prop (text "secret") v) header)

abbrev pub IsStranger : Sock → Type 0
IsStranger s = s.is_authenticated ≡ false

-- Nothing went out, there are no clients, and no socket has been authenticated.
abbrev pub IsSilent : Text → Host → Type 0
IsSilent secret h =
    (h.secret ≡ secret)
    × (h.sent ≡ [])
    × (h.bridges ≡ [])
    × (h.consumers ≡ [])
    × (h.sessions ≡ [])
    × All IsStranger h.socks

pub update_sock-IsStranger :
    (id : ℕ) (f : Sock → Sock) (ss : List Sock)
    → ((s : Sock) → IsStranger s → IsStranger (f s))
    → All IsStranger ss
    → All IsStranger (update_sock id f ss)
unfolding update_sock
update_sock-IsStranger id f [] k h = tt
update_sock-IsStranger id f (s ∷ ss) k (p, h) =
    (if_elim IsStranger (s.id == id) (k s p) p, update_sock-IsStranger id f ss k h)

pub drop_sock-IsStranger :
    (id : ℕ) (ss : List Sock) → All IsStranger ss → All IsStranger (drop_sock id ss)
unfolding drop_sock
drop_sock-IsStranger id [] h = tt
drop_sock-IsStranger id (s ∷ ss) (p, h) =
    let rest = drop_sock-IsStranger id ss h in if_elim (All IsStranger) (s.id == id) rest (p, rest)

pub find_sock-IsStranger :
    (id : ℕ) (ss : List Sock) (s : Sock)
    → All IsStranger ss
    → find_sock id ss ≡ some s
    → IsStranger s
unfolding find_sock
find_sock-IsStranger id [] s h e = cc
find_sock-IsStranger id (x ∷ ss) s (p, h) e = elim (Bool-cases (x.id == id)) [
  | inl same ↦ let it : x ≡ s = ground arith in subst IsStranger it p
  | inr other ↦ find_sock-IsStranger id ss s h (ground arith)
]

pub start_close-IsStranger :
    (code : ℕ) (reason : Text) (r : Ready) (s : Sock)
    → IsStranger s
    → IsStranger (start_close code reason r s)
start_close-IsStranger code reason connecting s h = h
start_close-IsStranger code reason opened s h = h
start_close-IsStranger code reason closing s h = h
start_close-IsStranger code reason closed s h = h

pub begin_close-IsStranger : (r : Ready) (s : Sock) → IsStranger s → IsStranger (begin_close r s)
begin_close-IsStranger connecting s h = h
begin_close-IsStranger opened s h = h
begin_close-IsStranger closing s h = h
begin_close-IsStranger closed s h = h

pub close_with-IsSilent :
    {secret : Text} (id code : ℕ) (reason : Text) (h : Host)
    → IsSilent secret h
    → IsSilent secret (close_with id code reason h)
unfolding close_with
close_with-IsSilent id code reason h (a, b, c, d, e, f) = (
  a,
  b,
  c,
  d,
  e,
  update_sock-IsStranger id (λ s. start_close code reason s.ready s) h.socks
      (λ s. start_close-IsStranger code reason s.ready s) f,
)

pub auth_timeout_fires-IsSilent :
    {secret : Text} (s : Sock) (h : Host)
    → IsSilent secret h
    → IsSilent secret (auth_timeout_fires s h)
unfolding auth_timeout_fires
auth_timeout_fires-IsSilent {secret} s h (a, b, c, d, e, f) =
    let unset : Host = record h {
      socks = update_sock s.id (λ x. record x { auth_timeout = false }) h.socks;
    } in
    let silent : IsSilent secret unset = (
      a,
      b,
      c,
      d,
      e,
      update_sock-IsStranger s.id (λ x. record x { auth_timeout = false }) h.socks (λ x p. p) f,
    ) in
    if_elim (IsSilent secret) (s.auth_timeout && not s.is_authenticated)
      (close_with-IsSilent s.id 1008 (text "Authentication timeout") unset silent) silent

pub handle_auth-IsSilent :
    {secret : Text} (to_string : Value → Text) (now id : ℕ) (msg : Value) (h : Host)
    → IsSilent secret h
    → is_word secret (prop (text "secret") msg) ≡ false
    → IsSilent secret (handle_auth to_string now id msg h).0
unfolding handle_auth
handle_auth-IsSilent {secret} to_string now id msg h s e =
    let wrong : is_word h.secret (prop (text "secret") msg) ≡ false = rw (s.0) e in
    let closed = close_with-IsSilent id 1008 (text "Invalid secret") h s in
    if_elim (λ (r : Host × Bool). IsSilent secret r.0)
      (is_word (text "auth") (prop (text "type") msg)) (rw wrong closed)
      (close_with-IsSilent id 1008 (text "Authentication required") h s)

pub handle_raw-IsSilent :
    {secret : Text} (to_string : Value → Text) (now : ℕ) (s : Sock) (raw : Option Value) (h : Host)
    → IsSilent secret h
    → IsStranger s
    → has_secret secret null raw ≡ false
    → IsSilent secret (handle_raw to_string now s raw h).0
unfolding handle_message
handle_raw-IsSilent to_string now s none h q a e = q
handle_raw-IsSilent to_string now s (some null) h q a e = q
handle_raw-IsSilent to_string now s (some v) h q a e =
    rw a (handle_auth-IsSilent to_string now s.id v h q (ground arith))

pub caught-IsSilent :
    {secret : Text} (to_string : Value → Text) (id : ℕ) (r : Host × Bool)
    → IsSilent secret r.0
    → IsSilent secret (caught to_string id r)
caught-IsSilent to_string id (h, true) q = close_with-IsSilent id 1011 (text "Internal error") h q
caught-IsSilent to_string id (h, false) q = q

pub receive-IsSilent :
    {secret : Text} (to_string : Value → Text) (now id : ℕ) (raw : Option Value) (h : Host)
    → IsSilent secret h
    → has_secret secret null raw ≡ false
    → IsSilent secret (receive to_string now id raw h)
unfolding receive
receive-IsSilent to_string now id raw h q e = elim (Option-cases (find_sock id h.socks)) [
  | inl gone ↦ rw gone q
  | inr (s, found) ↦ rw found (
      caught-IsSilent to_string s.id (handle_raw to_string now s raw h) (
        handle_raw-IsSilent to_string now s raw h q (find_sock-IsStranger id h.socks s q.5 found)
          e))
]

pub on_close-IsSilent :
    {secret : Text} (s : Sock) (h : Host) → IsSilent secret h → IsSilent secret (on_close s h)
unfolding on_close forget discard
on_close-IsSilent {secret} s h (a, b, c, d, e, f) =
    let gone = drop_sock-IsStranger s.id h.socks f in
    let Quiet : Host → Type 0 = λ g.
      IsSilent secret
        (record g { pending = drop_replies s.id g.pending; socks = drop_sock s.id g.socks }) in
    if_elim Quiet (is_word (text "bridge") s.role) (a, b, rw c refl, d, e, gone)
      (if_elim Quiet (is_word (text "consumer") s.role) (a, b, c, rw d refl, e, gone)
        (a, b, c, d, e, gone))
