-- ===== src/Host/Frames.antt =====
-- bin/aria-bridge-host.js: which frames go out, and what routing a message leaves alone.
use aria_bridge.Prelude.{
  ℕ, ◌+◌, ltb, ◌==◌, Bool, true, false, Text, if_elim, Option, none, some, List, [], ◌∷◌, ◌++◌,
  append_assoc, append-nil, All, All-append, ◌≡◌, refl, ap, sym, ◌∙◌, subst,
}
use aria_bridge.Value.{Value}
use aria_bridge.Socket.State.{Frame}
use aria_bridge.Host.State.{Peer, same_peer, Host, Subscription, Hello, lookup}
use aria_bridge.Host.Routing.{
  is_open, send_to, renew_window, count_event, filter_event, filter_if, suits_if, should_route,
  offer, proceed, offer_all, window_ms,
}
use aria_bridge.Host.Bridges.{send_all_to}

-- Frames with a property went out, and no time of a screenshot changed.
abbrev pub Adds : (Frame → Type 0) → Host → Host → Type 0
Adds P h g =
    ((new : List Frame) × (g.sent ≡ h.sent ++ new) × All P new)
    × (g.last_screenshot ≡ h.last_screenshot)

pub Adds-refl : (P : Frame → Type 0) (h : Host) → Adds P h h
Adds-refl P h = (([], sym (append-nil h.sent), tt), refl)

pub Adds-trans : {P : Frame → Type 0} (f g h : Host) → Adds P f g → Adds P g h → Adds P f h
Adds-trans {P} f g h ((xs, e, p), k) ((ys, d, q), l) = (
  (xs ++ ys, d ∙ ap (λ zs. zs ++ ys) e ∙ append_assoc f.sent xs ys, All-append P xs ys p q),
  l ∙ k,
)

pub send_to-Adds :
    {P : Frame → Type 0} (id : ℕ) (body : Value) (h : Host)
    → P (record { socket = id; body = body })
    → Adds P h (send_to id body h)
unfolding send_to
send_to-Adds {P} id body h p =
    if_elim (Adds P h) (is_open id h)
      ((record { socket = id; body = body } ∷ [], refl, (p, tt)), refl) (Adds-refl P h)

pub send_all_to-Adds :
    {P : Frame → Type 0} (cs : List ℕ) (body : Value) (h : Host)
    → ((c : ℕ) → P (record { socket = c; body = body }))
    → Adds P h (send_all_to cs body h)
unfolding send_all_to
send_all_to-Adds {P} [] body h p = Adds-refl P h
send_all_to-Adds (c ∷ cs) body h p =
    Adds-trans h (send_to c body h) (send_all_to cs body (send_to c body h))
      (send_to-Adds c body h (p c)) (send_all_to-Adds cs body (send_to c body h) p)

-- The window alone has changed.
abbrev pub Same : Host → Host → Type 0
Same h g = (g.sent ≡ h.sent) × (g.last_screenshot ≡ h.last_screenshot)

pub count_event-Same : (now : ℕ) (h : Host) → Same h (count_event now h)
unfolding count_event renew_window
count_event-Same now h =
    if_elim (Same h) (ltb (h.window_start + window_ms) now) (refl, refl) (refl, refl)

module _ (to_string : Value → Text) where
  pub filter_if-Same :
      (now : ℕ) (msg : Value) (sub : Option Subscription) (h : Host)
      → Same h (filter_if to_string now msg sub h).0
  unfolding filter_event
  filter_if-Same now msg none h = (refl, refl)
  filter_if-Same now msg (some s) h = count_event-Same now h

  pub suits_if-host :
      (r : Host × Bool) (sub : Option Subscription) (hello : Option Hello) (msg : Value)
      → (suits_if to_string r sub hello msg).0 ≡ r.0
  suits_if-host (h, true) sub hello msg = refl
  suits_if-host (h, false) sub hello msg = refl

  pub offer-Same :
      (now : ℕ) (msg : Value) (bridge : Peer) (c : ℕ) (h : Host)
      → Same h (offer to_string now msg none bridge c h).0
  unfolding offer should_route
  offer-Same now msg bridge c h =
      let sub = lookup (λ a b. a == b) c h.subscriptions in
      let r = filter_if to_string now msg sub h in
      let hello = lookup same_peer bridge h.capabilities in
      if_elim (λ (x : Host × Option Bool). Same h x.0) (is_open c h)
        (subst (Same h) (sym (suits_if-host r sub hello msg)) (filter_if-Same now msg sub h))
        (refl, refl)

  pub proceed-Same :
      (c : ℕ) (r : Host × Option Bool) (chosen : List ℕ)
      (k : List ℕ → Host → Host × Option (List ℕ)) (h : Host)
      → Same h r.0
      → ((cs : List ℕ) (g : Host) → Same g (k cs g).0)
      → Same h (proceed to_string c r chosen k).0
  proceed-Same c (g, none) chosen k h s f = s
  proceed-Same c (g, some false) chosen k h (e, d) f = let (e', d') = f chosen g in (e' ∙ e, d' ∙ d)
  proceed-Same c (g, some true) chosen k h (e, d) f =
      let (e', d') = f (chosen ++ c ∷ []) g in (e' ∙ e, d' ∙ d)

  pub offer_all-Same :
      (now : ℕ) (msg : Value) (bridge : Peer) (chosen cs : List ℕ) (h : Host)
      → Same h (offer_all to_string now msg none bridge chosen cs h).0
  unfolding offer_all
  offer_all-Same now msg bridge [] chosen h = (refl, refl)
  offer_all-Same now msg bridge (c ∷ cs) chosen h =
      proceed-Same c (offer to_string now msg none bridge c h) chosen
        (offer_all to_string now msg none bridge cs) h (offer-Same now msg bridge c h)
        (λ ch g. offer_all-Same now msg bridge cs ch g)

pub Same-Adds : {P : Frame → Type 0} (f g h : Host) → Same f g → Adds P g h → Adds P f h
Same-Adds f g h (e, d) ((new, k, p), l) = ((new, k ∙ ap (λ xs. xs ++ new) e, p), l ∙ d)
