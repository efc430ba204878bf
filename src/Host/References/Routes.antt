-- ===== src/Host/References/Routes.antt =====
-- bin/aria-bridge-host.js: to route an event of an open bridge throws no error.
use aria_bridge.Prelude.{
  ℕ, ==_iff, Bool, true, false, Text, if_true, if_false, Option, none, some, List, [], ◌∷◌, ◌++◌,
  All, ◌≡◌, refl, ap, sym, subst, ◌∙◌, arith, Bool-cases, inl, inr,
}
use aria_bridge.Value.{Value}
use aria_bridge.Host.State.{
  Peer, socket, session, same_peer, Hello, Subscription, Host, lookup, init,
}
use aria_bridge.Host.Routing.{
  find_sock, is_ready, is_open, levels_of, requested_of, caps_of, filter_if, suits, suits_if,
  should_route, hand_over, offer, proceed, offer_all,
}
use aria_bridge.Host.Sockets.{same_id}
use aria_bridge.Host.Steps.{Reach}
use aria_bridge.Host.References.{Tidy, Tracked, IsTidy, is_list, Greets, Subscribes}
use aria_bridge.Host.References.Routing.{offer-tracked}
use aria_bridge.Host.References.Reach.{Reach-IsTidy}
use aria_bridge.Host.References.Suits.{IsReadable, Returns, suits-Returns}

-- An entry that is found has what all entries have.
All-lookup {ℓ κ} :
    {K : Type ℓ} {V : Type κ} (same : K → K → Bool) (P : K × V → Type 0) (k : K) (m : List (K × V))
    (v : V)
    → All P m
    → lookup same k m ≡ some v
    → (j : K) × P (j, v) × (same j k ≡ true)
unfolding lookup
All-lookup same P k [] v h e = cc
All-lookup same P k ((j, w) ∷ m) v (p, h) e = elim (Bool-cases (same j k)) [
  | inl here ↦ let it : w ≡ v = ground arith in (j, subst (λ x. P (j, x)) it p, here)
  | inr other ↦ All-lookup same P k m v h (ground arith)
]

module _ (to_string : Value → Text) where
  suits_if-Returns :
      (x : Host × Bool) (sub : Option Subscription) (hello : Option Hello) (msg : Value)
      → Returns (suits to_string sub hello msg)
      → Returns (suits_if to_string x sub hello msg).1
  suits_if-Returns (h, false) sub hello msg k = tt
  suits_if-Returns (h, true) sub hello msg k = k

  hand_over-Returns :
      (payload : Option Value) (c : ℕ) (r : Host × Option Bool)
      → Returns r.1
      → Returns (hand_over to_string payload c r).1
  hand_over-Returns none c (h, o) k = k
  hand_over-Returns (some p) c (h, none) k = k
  hand_over-Returns (some p) c (h, some false) k = tt
  hand_over-Returns (some p) c (h, some true) k = tt

  levels-IsReadable :
      (c : ℕ) (h : Host) (o : Option Subscription)
      → IsTidy h
      → is_open c h ≡ true
      → lookup same_id c h.subscriptions ≡ o
      → IsReadable (levels_of o) × IsReadable (requested_of o)
  unfolding is_open
  levels-IsReadable c h none t opens e = (inr refl, inr refl)
  levels-IsReadable c h (some sub) t opens e =
      let (j, (_, told), same) =
        All-lookup same_id (Subscribes h.socks) c h.subscriptions sub t.3 e in
      let at : j ≡ c = (==_iff j c).0 same in
      let (l, r) = told (ap (λ i. is_ready (find_sock i h.socks)) at ∙ opens) in (inl l, inl r)

  told_list :
      (b : ℕ) (m : Hello) (p : Peer) (h : Host)
      → same_peer p (socket b) ≡ true
      → is_ready (find_sock b h.socks) ≡ true
      → Greets h.socks (p, m)
      → is_list m.capabilities ≡ true
  told_list b m (socket j) h same opens (_, told) =
      told (ap (λ i. is_ready (find_sock i h.socks)) ((==_iff j b).0 same) ∙ opens)
  told_list b m (session j) h same opens g = cc

  caps-IsReadable :
      (b : ℕ) (h : Host) (o : Option Hello)
      → IsTidy h
      → is_open b h ≡ true
      → lookup same_peer (socket b) h.capabilities ≡ o
      → IsReadable (caps_of o)
  unfolding is_open
  caps-IsReadable b h none t opens e = inr refl
  caps-IsReadable b h (some m) t opens e =
      let (p, g, same) = All-lookup same_peer (Greets h.socks) (socket b) h.capabilities m t.2 e in
      inl (told_list b m p h same opens g)

  offer-Returns :
      (now : ℕ) (msg : Value) (payload : Option Value) (b c : ℕ) (h : Host)
      → IsTidy h
      → is_open b h ≡ true
      → Returns (offer to_string now msg payload (socket b) c h).1
  unfolding offer should_route
  offer-Returns now msg payload b c h t opens =
      let sub = lookup same_id c h.subscriptions in
      let hello = lookup same_peer (socket b) h.capabilities in
      let r = suits_if to_string (filter_if to_string now msg sub h) sub hello msg in
      let routed = hand_over to_string payload c r in
      let Goal : Host × Option Bool → Type 0 = λ x. Returns x.1 in
      elim (Bool-cases (is_open c h)) [
        | inl e ↦
            let (l, q) = levels-IsReadable c h sub t e refl in
            subst Goal (sym (if_true routed (h, some false) e)) (
              hand_over-Returns payload c r (
                suits_if-Returns (filter_if to_string now msg sub h) sub hello msg (
                  suits-Returns to_string sub hello msg l q
                    (caps-IsReadable b h hello t opens refl))))
        | inr e ↦ subst Goal (sym (if_false routed (h, some false) e)) tt
      ]

  proceed-Returns :
      (c : ℕ) (r : Host × Option Bool) (chosen : List ℕ)
      (k : List ℕ → Host → Host × Option (List ℕ))
      → Returns r.1
      → ((cs : List ℕ) → Returns (k cs r.0).1)
      → Returns (proceed to_string c r chosen k).1
  proceed-Returns c (g, none) chosen k h f = absurd h
  proceed-Returns c (g, some false) chosen k h f = f chosen
  proceed-Returns c (g, some true) chosen k h f = f (chosen ++ c ∷ [])

  offer_all-Returns :
      (now : ℕ) (msg : Value) (payload : Option Value) (b : ℕ) (cs chosen : List ℕ) (h : Host)
      → IsTidy h
      → is_open b h ≡ true
      → Returns (offer_all to_string now msg payload (socket b) cs chosen h).1
  unfolding offer_all is_open
  offer_all-Returns now msg payload b [] chosen h t opens = tt
  offer_all-Returns now msg payload b (c ∷ cs) chosen h t opens =
      let r = offer to_string now msg payload (socket b) c h in
      let same = offer-tracked to_string now msg payload (socket b) c h in
      let still : is_ready (find_sock b r.0.socks) ≡ true =
        ap (λ (x : Tracked). is_ready (find_sock b x.0)) same ∙ opens in
      proceed-Returns c r chosen (offer_all to_string now msg payload (socket b) cs)
        (offer-Returns now msg payload b c h t opens)
        (λ ch. offer_all-Returns now msg payload b cs ch r.0 (subst Tidy (sym same) t) still)

  -- Whatever happened before, and whatever the message is, the loop over the consumers that routes a
  -- message of a bridge on an open WebSocket returns the consumers that get it, and never throws.
  pub Reach-routes :
      (secret : Text) (start now b : ℕ) (msg : Value) (payload : Option Value) {h : Host}
      → Reach to_string (λ e. Unit {0}) (init secret start) h
      → is_open b h ≡ true
      → Returns (offer_all to_string now msg payload (socket b) h.consumers [] h).1
  Reach-routes secret start now b msg payload {h} r opens =
      offer_all-Returns now msg payload b h.consumers [] h (Reach-IsTidy to_string secret start r)
        opens
