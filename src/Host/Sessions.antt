-- ===== src/Host/Sessions.antt =====
-- bin/aria-bridge-host.js: the sessions of the HTTP bridge are found again after they have changed.
use aria_bridge.Prelude.{
  ℕ, ◌==◌, true, if◌then◌else◌, if_elim, if_true, ◌∙◌, subst, sym, ==_iff, some, List, [], ◌∷◌, ◌≡◌,
  refl, ap, arith, Bool-cases, inl, inr,
}
use aria_bridge.Value.{Value}
use aria_bridge.Host.State.{Session, Host, update_session}
use aria_bridge.Host.Values.{is_word}
use aria_bridge.Host.Http.{get_http_session, touch, session_poll}

get_http_session-eq :
    (key : Value) (ss : List Session) (s : Session)
    → get_http_session key ss ≡ some s
    → is_word s.session_id key ≡ true
unfolding get_http_session
get_http_session-eq key [] s e = cc
get_http_session-eq key (x ∷ ss) s e = elim (Bool-cases (is_word x.session_id key)) [
  | inl same ↦ let it : x ≡ s = ground arith in rw (← it) same
  | inr other ↦ get_http_session-eq key ss s (ground arith)
]

pub get_http_session-update :
    (key : Value) (f : Session → Session) (ss : List Session) (s : Session)
    → ((x : Session) → (f x).session_id ≡ x.session_id)
    → get_http_session key ss ≡ some s
    → get_http_session key (update_session s.id f ss) ≡ some (f s)
unfolding get_http_session update_session
get_http_session-update key f [] s k e = cc
get_http_session-update key f (x ∷ ss) s k e = elim (Bool-cases (is_word x.session_id key)) [
  | inl same ↦
      let it : x ≡ s = ground arith in
      let rest = get_http_session key (update_session s.id f ss) in
      let id : (x.id == s.id) ≡ true = ground (arith, ==_iff x.id s.id) in
      let now : (if x.id == s.id then f x else x) ≡ f s = if_true (f x) x id ∙ ap f it in
      let named : is_word (f s).session_id key ≡ true =
        subst (λ t. is_word t key ≡ true) (sym (k s)) (get_http_session-eq key (x ∷ ss) s e) in
      subst (λ y. (if is_word y.session_id key then some y else rest) ≡ some (f s)) (sym now)
        (if_true (some (f s)) rest named)
  | inr other ↦
      let rest = get_http_session-update key f ss s k (ground arith) in
      let named : (if x.id == s.id then f x else x).session_id ≡ x.session_id =
        if_elim (λ (y : Session). y.session_id ≡ x.session_id) (x.id == s.id) (k x) refl in
      rw (named, other) rest
]

abbrev pub seen : ℕ → Session → Session
seen now b = record b { last_seen = now }

abbrev pub drained : ℕ → Session → Session
drained now b = record b { last_seen = now; queue = [] }

pub touch-session :
    (now : ℕ) (b : Session) (key : Value) (h : Host)
    → get_http_session key h.sessions ≡ some b
    → get_http_session key (touch now b h).sessions ≡ some (seen now b)
unfolding touch
touch-session now b key h e = get_http_session-update key (seen now) h.sessions b (λ x. refl) e

pub session_poll-session :
    (now : ℕ) (b : Session) (key body : Value) (h : Host)
    → get_http_session key h.sessions ≡ some b
    → get_http_session key (session_poll now b body h).0.sessions ≡ some (drained now b)
unfolding session_poll
session_poll-session now b key body h e =
    get_http_session-update key (λ x. record x { queue = [] }) (touch now b h).sessions (seen now b)
      (λ x. refl) (touch-session now b key h e)
