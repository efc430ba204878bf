-- ===== src/Host/Screenshots.antt =====
-- bin/aria-bridge-host.js: what a bridge's screenshot leads to, and how often one passes.
use aria_bridge.Prelude.{
  ℕ, ◌+◌, ◌≤◌, ◌==◌, ==_iff, Bool, true, false, not, ◌&&◌, ◌||◌, Text, text, if_elim, Option, none,
  some, List, [], ◌∷◌, ◌++◌, All, ◌≡◌, refl, ap, ◌∙◌, ◌⊎◌, inl, inr, arith, Bool-cases,
}
use aria_bridge.Value.{Value, str, obj, Fields, truthy}
use aria_bridge.Value.Props.{get}
use aria_bridge.Socket.State.{Frame}
use aria_bridge.Host.State.{socket, same_peer, Sock, Host, lookup, insert}
use aria_bridge.Host.Values.{printable, or, prop}
use aria_bridge.Host.Routing.{send_to, offer_all}
use aria_bridge.Host.Sockets.{same_id, logged, return, notice}
use aria_bridge.Host.Bridges.{
  has_screenshot, too_soon, wait_of, rate_limit_notice, send_all_to, complete_screenshot,
  forward_screenshot, screenshot_chosen, screenshot_checked, on_screenshot,
}
use aria_bridge.Host.Frames.{
  Same, Adds, Adds-refl, Same-Adds, offer_all-Same, send_all_to-Adds, send_to-Adds,
}

-- A line of the log changes nothing.
pub logged-Holds :
    (P : Host → Type 0) (b : Bool) (k : Host → Host × Bool) (h : Host)
    → P h
    → P (k h).0
    → P (logged b k h).0
logged-Holds P true k h p q = q
logged-Holds P false k h p q = p

-- A screenshot may pass: there was none before, or its time was 0 or is 2 s ago.
abbrev pub IsDue : ℕ → Option ℕ → Type 0
IsDue now none = Unit
IsDue now (some last) = (last ≡ 0) ⊎ (last + 2000 ≤ now)

too_soon-IsDue : (now : ℕ) (last : Option ℕ) → too_soon now last ≡ false → IsDue now last
too_soon-IsDue now none e = tt
too_soon-IsDue now (some last) e = ground (arith, ==_iff last 0)

abbrev pub last_of : Sock → Host → Option ℕ
last_of s h = lookup same_id s.id h.last_screenshot

abbrev pub ToBridge : Sock → Frame → Type 0
ToBridge s f = f.socket ≡ s.id

abbrev pub Passes : (Value → Text) → ℕ → Sock → Fields → Frame → Type 0
Passes to_string now s msg f = ToBridge s f ⊎ (f.body ≡ obj (complete_screenshot to_string now msg))

-- A screenshot was refused, and the bridge alone was told, or it was due, and its time was kept.
abbrev pub Outcome : (Value → Text) → ℕ → Sock → Fields → Host → Host → Type 0
Outcome to_string now s msg h g =
    Adds (ToBridge s) h g
    ⊎ (IsDue now (last_of s h)
        × (last_of s g ≡ some now)
        × ((new : List Frame) × (g.sent ≡ h.sent ++ new) × All (Passes to_string now s msg) new))

last_of-insert :
    (now id : ℕ) (m : List (ℕ × ℕ)) → lookup same_id id (insert same_id id now m) ≡ some now
unfolding lookup
last_of-insert now id m = let own : (id == id) ≡ true = ground arith in rw own refl

module _ (to_string : Value → Text) where
  forward_screenshot-Outcome :
      (now : ℕ) (s : Sock) (msg : Fields) (chosen : List ℕ) (h g : Host)
      → Same h g
      → IsDue now (last_of s h)
      → Outcome to_string now s msg h (forward_screenshot to_string now s msg chosen g).0
  unfolding forward_screenshot
  forward_screenshot-Outcome now s msg chosen h g same due =
      let limited : Host = record g {
        last_screenshot = insert same_id s.id now g.last_screenshot;
      } in
      let Passed : Frame → Type 0 = Passes to_string now s msg in
      let Goal : Host → Type 0 = Adds Passed limited in
      let body = obj (complete_screenshot to_string now msg) in
      let notice =
        notice (text "invalid_format") (text "Screenshot missing required fields: mime, data") in
      let r = forward_screenshot to_string now s msg chosen g in
      let told = truthy (get (text "mime") msg) && truthy (get (text "data") msg) in
      let page = or (get (text "route") msg) (or (get (text "url") msg) (str (text "unknown"))) in
      let has_page = truthy (get (text "message") msg) || printable page in
      let in_log =
        printable s.client_id
        && printable (get (text "mime") msg)
        && printable (prop (text "length") (get (text "data") msg)) in
      let passed = send_all_to-Adds chosen body limited (λ c. inr refl) in
      let adds : Goal r.0 =
        if_elim (λ (x : Host × Bool). Goal x.0) (not told)
          (logged-Holds Goal (printable s.client_id) (λ x. return (send_to s.id notice x)) limited
            (Adds-refl Passed limited) (send_to-Adds s.id notice limited (inl refl)))
          (logged-Holds Goal has_page (λ x. logged in_log return (send_all_to chosen body x))
            limited (Adds-refl Passed limited)
            (logged-Holds Goal in_log return (send_all_to chosen body limited) passed passed)) in
      let ((new, e, p), kept) = adds in
      inr (
        due,
        ap (lookup same_id s.id) kept ∙ last_of-insert now s.id g.last_screenshot,
        (new, e ∙ ap (λ xs. xs ++ new) same.0, p),
      )

  screenshot_chosen-Outcome :
      (now : ℕ) (s : Sock) (msg : Fields) (r : Host × Option (List ℕ)) (h : Host)
      → Same h r.0
      → IsDue now (last_of s h)
      → Outcome to_string now s msg h (screenshot_chosen to_string now s msg r).0
  screenshot_chosen-Outcome now s msg (g, none) h same due =
      inl (Same-Adds h g g same (Adds-refl (ToBridge s) g))
  screenshot_chosen-Outcome now s msg (g, some []) h same due =
      let notice =
        notice (text "no_consumers") (text "No consumers subscribed to screenshot capability") in
      inl (
        logged-Holds (Adds (ToBridge s) h) (printable s.client_id)
          (λ x. return (send_to s.id notice x)) g (Same-Adds h g g same (Adds-refl (ToBridge s) g))
          (Same-Adds h g (send_to s.id notice g) same (send_to-Adds s.id notice g refl)))
  screenshot_chosen-Outcome now s msg (g, some (c ∷ cs)) h same due =
      forward_screenshot-Outcome now s msg (c ∷ cs) h g same due

  refused :
      (now : ℕ) (s : Sock) (msg : Fields) (body : Value) (h : Host)
      → Outcome to_string now s msg h
          (logged (printable s.client_id) (λ x. return (send_to s.id body x)) h).0
  refused now s msg body h = inl (
      logged-Holds (Adds (ToBridge s) h) (printable s.client_id) (λ x. return (send_to s.id body x))
        h (Adds-refl (ToBridge s) h) (send_to-Adds s.id body h refl))

  screenshot_checked-Outcome :
      (now : ℕ) (s : Sock) (msg : Fields) (o : Option Bool) (h : Host)
      → Outcome to_string now s msg h (screenshot_checked to_string o now s msg h).0
  screenshot_checked-Outcome now s msg none h = inl (Adds-refl (ToBridge s) h)
  screenshot_checked-Outcome now s msg (some false) h = refused now s msg _ h
  screenshot_checked-Outcome now s msg (some true) h =
      elim (Bool-cases (too_soon now (last_of s h))) [
        | inl soon ↦ rw soon (refused now s msg (rate_limit_notice (wait_of now (last_of s h))) h)
        | inr due ↦
            let r = offer_all to_string now (obj msg) none (socket s.id) h.consumers [] h in
            let same = offer_all-Same to_string now (obj msg) (socket s.id) h.consumers [] h in
            rw due
              (screenshot_chosen-Outcome now s msg r h same (too_soon-IsDue now (last_of s h) due))
      ]

  -- A screenshot of a bridge is refused, when the bridge alone may be told and no time of a
  -- screenshot changes, or the bridge's last one was at the time 0, at least 2 s ago or never, and
  -- then its time is kept as the last one, and each frame that goes out is the completed screenshot
  -- or goes to the bridge.
  pub on_screenshot-paced :
      (now : ℕ) (s : Sock) (msg : Fields) (h : Host)
      → Outcome to_string now s msg h (on_screenshot to_string now s msg h).0
  unfolding on_screenshot
  on_screenshot-paced now s msg h =
      screenshot_checked-Outcome now s msg
        (has_screenshot (lookup same_peer (socket s.id) h.capabilities)) h
