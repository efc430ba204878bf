-- ===== src/Host/References/Routing.antt =====
-- bin/aria-bridge-host.js: to route a message changes no reference.
use aria_bridge.Prelude.{
  ℕ, ◌+◌, ◌==◌, ltb, Bool, true, false, Text, ap, if_elim, Option, none, some, List, [], ◌∷◌, ◌++◌,
  ◌≡◌, refl, ◌∙◌,
}
use aria_bridge.Value.{Value}
use aria_bridge.Host.State.{Peer, same_peer, Subscription, Host, lookup}
use aria_bridge.Host.Routing.{
  window_ms, is_open, send_to, renew_window, count_event, filter_event, filter_if, suits_if,
  should_route, hand_over, offer, proceed, offer_all,
}
use aria_bridge.Host.Frames.{suits_if-host}
use aria_bridge.Host.Bridges.{send_all_to}
use aria_bridge.Host.References.{tracked}
use aria_bridge.Host.References.Operations.{send_to-tracked}

count_event-tracked : (now : ℕ) (h : Host) → tracked (count_event now h) ≡ tracked h
unfolding count_event renew_window
count_event-tracked now h =
    if_elim (λ (g : Host). tracked (record g { window_count = g.window_count + 1 }) ≡ tracked h)
      (ltb (h.window_start + window_ms) now) refl refl

pub send_all_to-tracked :
    (cs : List ℕ) (body : Value) (h : Host) → tracked (send_all_to cs body h) ≡ tracked h
unfolding send_all_to
send_all_to-tracked [] body h = refl
send_all_to-tracked (c ∷ cs) body h =
    send_all_to-tracked cs body (send_to c body h) ∙ send_to-tracked c body h

module _ (to_string : Value → Text) where
  filter_if-tracked :
      (now : ℕ) (msg : Value) (sub : Option Subscription) (h : Host)
      → tracked (filter_if to_string now msg sub h).0 ≡ tracked h
  unfolding filter_event
  filter_if-tracked now msg none h = refl
  filter_if-tracked now msg (some s) h = count_event-tracked now h

  hand_over-tracked :
      (payload : Option Value) (c : ℕ) (r : Host × Option Bool)
      → tracked (hand_over to_string payload c r).0 ≡ tracked r.0
  hand_over-tracked none c (h, o) = refl
  hand_over-tracked (some p) c (h, none) = refl
  hand_over-tracked (some p) c (h, some false) = refl
  hand_over-tracked (some p) c (h, some true) = send_to-tracked c p h

  pub offer-tracked :
      (now : ℕ) (msg : Value) (payload : Option Value) (bridge : Peer) (c : ℕ) (h : Host)
      → tracked (offer to_string now msg payload bridge c h).0 ≡ tracked h
  unfolding offer should_route
  offer-tracked now msg payload bridge c h =
      let sub = lookup (λ a b. a == b) c h.subscriptions in
      let r = filter_if to_string now msg sub h in
      let hello = lookup same_peer bridge h.capabilities in
      if_elim (λ (x : Host × Option Bool). tracked x.0 ≡ tracked h) (is_open c h)
        (hand_over-tracked payload c (suits_if to_string r sub hello msg)
          ∙ ap tracked (suits_if-host to_string r sub hello msg)
          ∙ filter_if-tracked now msg sub h)
        refl

  proceed-tracked :
      (c : ℕ) (r : Host × Option Bool) (chosen : List ℕ)
      (k : List ℕ → Host → Host × Option (List ℕ)) (h : Host)
      → tracked r.0 ≡ tracked h
      → ((cs : List ℕ) (g : Host) → tracked (k cs g).0 ≡ tracked g)
      → tracked (proceed to_string c r chosen k).0 ≡ tracked h
  proceed-tracked c (g, none) chosen k h e f = e
  proceed-tracked c (g, some false) chosen k h e f = f chosen g ∙ e
  proceed-tracked c (g, some true) chosen k h e f = f (chosen ++ c ∷ []) g ∙ e

  pub offer_all-tracked :
      (now : ℕ) (msg : Value) (payload : Option Value) (bridge : Peer) (cs chosen : List ℕ)
      (h : Host)
      → tracked (offer_all to_string now msg payload bridge cs chosen h).0 ≡ tracked h
  unfolding offer_all
  offer_all-tracked now msg payload bridge [] chosen h = refl
  offer_all-tracked now msg payload bridge (c ∷ cs) chosen h =
      proceed-tracked c (offer to_string now msg payload bridge c h) chosen
        (offer_all to_string now msg payload bridge cs) h (offer-tracked now msg payload bridge c h)
        (λ ch g. offer_all-tracked now msg payload bridge cs ch g)
