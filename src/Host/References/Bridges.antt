-- ===== src/Host/References/Bridges.antt =====
-- bin/aria-bridge-host.js: the messages of a bridge keep the references right.
use aria_bridge.Prelude.{
  ℕ, Bool, true, false, not, ◌&&◌, ◌||◌, Text, text, if_elim, Option, none, some, List, [], ◌∷◌, ap,
  sym, subst,
}
use aria_bridge.Value.{Value, str, obj, Fields, truthy}
use aria_bridge.Value.Props.{get, put}
use aria_bridge.Host.State.{socket, same_peer, Sock, Host, insert, lookup, same_key}
use aria_bridge.Host.Values.{is_word, prop, or, printable, spread}
use aria_bridge.Host.Routing.{send_to, offer_all}
use aria_bridge.Host.Sockets.{same_id, logged, return, notice, failed_control}
use aria_bridge.Host.Bridges.{
  has_screenshot, too_soon, wait_of, rate_limit_notice, send_all_to, complete_screenshot,
  forward_screenshot, screenshot_chosen, screenshot_checked, on_screenshot, request_offered,
  on_request, event_offered, on_event, handle_bridge,
}
use aria_bridge.Host.Consumers.{caught}
use aria_bridge.Host.Screenshots.{logged-Holds}
use aria_bridge.Host.References.{Tracked, Tidy, IsTidy, Known, Shoots, Asks}
use aria_bridge.Host.References.Maps.{All-erase_kept}
use aria_bridge.Host.References.Operations.{
  send_to-IsTidy, on_result-IsTidy, pending-IsTidy, caught-IsTidy,
}
use aria_bridge.Host.References.Routing.{offer_all-tracked, send_all_to-tracked}
use aria_bridge.Host.References.Greeting.{Acts, acting, on_hello-IsTidy}

shot-IsTidy :
    (now id : ℕ) (h : Host)
    → IsTidy h
    → Shoots h.socks (id, now)
    → IsTidy (record h { last_screenshot = insert same_id id now h.last_screenshot })
shot-IsTidy now id h (b, c, g, s, l, p, n) k =
    (b, c, g, s, (k, All-erase_kept same_id (Shoots h.socks) id h.last_screenshot l), p, n)

module _ (to_string : Value → Text) where
  offered-IsTidy :
      (now : ℕ) (msg : Value) (payload : Option Value) (s : Sock) (h : Host)
      → IsTidy h
      → IsTidy (offer_all to_string now msg payload (socket s.id) h.consumers [] h).0
  offered-IsTidy now msg payload s h t =
      subst Tidy (sym (offer_all-tracked to_string now msg payload (socket s.id) h.consumers [] h))
        t

  request_offered-IsTidy :
      (s : Sock) (id : Value) (r : Host × Option (List ℕ))
      → IsTidy r.0
      → Known (text "bridge") r.0.socks s.id
      → IsTidy (request_offered to_string s id r).0
  request_offered-IsTidy s id (h, none) t k = t
  request_offered-IsTidy s id (h, some []) t k =
      send_to-IsTidy s.id (failed_control id (text "No consumers connected for control")) h t
  request_offered-IsTidy s id (h, some (c ∷ cs)) t (x, found, a, _) =
      pending-IsTidy h (insert same_key id s.id h.pending) t
        ((x, found, a), All-erase_kept same_key (Asks h.socks) id h.pending t.5)

  pub event_offered-IsTidy :
      (client_id msg : Value) (r : Host × Option (List ℕ))
      → IsTidy r.0
      → IsTidy (event_offered to_string client_id msg r).0
  event_offered-IsTidy client_id msg (h, none) t = t
  event_offered-IsTidy client_id msg (h, some []) t = t
  event_offered-IsTidy client_id msg (h, some (c ∷ cs)) t =
      logged-Holds IsTidy
        (printable client_id
          && printable (or (prop (text "type") msg) (str (text "unknown")))
          && printable (or (prop (text "level") msg) (str (text "none"))))
        return h t t

  forward_screenshot-IsTidy :
      (now : ℕ) (s : Sock) (msg : Fields) (chosen : List ℕ) (h : Host)
      → IsTidy h
      → Known (text "bridge") h.socks s.id
      → IsTidy (forward_screenshot to_string now s msg chosen h).0
  unfolding forward_screenshot
  forward_screenshot-IsTidy now s msg chosen h t k =
      let limited : Host = record h {
        last_screenshot = insert same_id s.id now h.last_screenshot;
      } in
      let tidy : IsTidy limited = shot-IsTidy now s.id h t k in
      let told =
        notice (text "invalid_format") (text "Screenshot missing required fields: mime, data") in
      let body = obj (complete_screenshot to_string now msg) in
      let has_both = truthy (get (text "mime") msg) && truthy (get (text "data") msg) in
      let page = or (get (text "route") msg) (or (get (text "url") msg) (str (text "unknown"))) in
      let has_page = truthy (get (text "message") msg) || printable page in
      let in_log =
        printable s.client_id
        && printable (get (text "mime") msg)
        && printable (prop (text "length") (get (text "data") msg)) in
      let sent : IsTidy (send_all_to chosen body limited) =
        subst Tidy (sym (send_all_to-tracked chosen body limited)) tidy in
      if_elim (λ (r : Host × Bool). IsTidy r.0) (not has_both)
        (logged-Holds IsTidy (printable s.client_id) (λ x. return (send_to s.id told x)) limited
          tidy (send_to-IsTidy s.id told limited tidy))
        (logged-Holds IsTidy has_page (λ x. logged in_log return (send_all_to chosen body x))
          limited tidy
          (logged-Holds IsTidy in_log return (send_all_to chosen body limited) sent sent))

  noted-IsTidy :
      (s : Sock) (body : Value) (h : Host)
      → IsTidy h
      → IsTidy (logged (printable s.client_id) (λ x. return (send_to s.id body x)) h).0
  noted-IsTidy s body h t =
      logged-Holds IsTidy (printable s.client_id) (λ x. return (send_to s.id body x)) h t
        (send_to-IsTidy s.id body h t)

  screenshot_chosen-IsTidy :
      (now : ℕ) (s : Sock) (msg : Fields) (r : Host × Option (List ℕ))
      → IsTidy r.0
      → Known (text "bridge") r.0.socks s.id
      → IsTidy (screenshot_chosen to_string now s msg r).0
  screenshot_chosen-IsTidy now s msg (h, none) t k = t
  screenshot_chosen-IsTidy now s msg (h, some []) t k =
      noted-IsTidy s
        (notice (text "no_consumers") (text "No consumers subscribed to screenshot capability")) h t
  screenshot_chosen-IsTidy now s msg (h, some (c ∷ cs)) t k =
      forward_screenshot-IsTidy now s msg (c ∷ cs) h t k

  -- The socket is known to the host that has offered a message, too.
  offered-Known :
      (now : ℕ) (msg : Value) (payload : Option Value) (s : Sock) (h : Host)
      → Known (text "bridge") h.socks s.id
      → Known
          (text "bridge")
          (offer_all to_string now msg payload (socket s.id) h.consumers [] h).0.socks
          s.id
  offered-Known now msg payload s h k =
      let same = offer_all-tracked to_string now msg payload (socket s.id) h.consumers [] h in
      subst (λ ss. Known (text "bridge") ss s.id) (sym (ap (λ (x : Tracked). x.0) same)) k

  screenshot_checked-IsTidy :
      (o : Option Bool) (now : ℕ) (s : Sock) (msg : Fields) (h : Host)
      → IsTidy h
      → Known (text "bridge") h.socks s.id
      → IsTidy (screenshot_checked to_string o now s msg h).0
  screenshot_checked-IsTidy none now s msg h t k = t
  screenshot_checked-IsTidy (some false) now s msg h t k =
      noted-IsTidy s
        (notice (text "missing_capability") (text "Screenshot capability not advertised in hello"))
        h t
  screenshot_checked-IsTidy (some true) now s msg h t k =
      let last = lookup same_id s.id h.last_screenshot in
      if_elim (λ (r : Host × Bool). IsTidy r.0) (too_soon now last)
        (noted-IsTidy s (rate_limit_notice (wait_of now last)) h t)
        (screenshot_chosen-IsTidy now s msg
          (offer_all to_string now (obj msg) none (socket s.id) h.consumers [] h)
          (offered-IsTidy now (obj msg) none s h t) (offered-Known now (obj msg) none s h k))

  pub handle_bridge-IsTidy :
      (now : ℕ) (s : Sock) (msg : Value) (h : Host)
      → IsTidy h
      → Acts (text "bridge") s h
      → IsTidy (caught to_string s.id (handle_bridge to_string now s msg h))
  unfolding handle_bridge on_request on_screenshot on_event
  handle_bridge-IsTidy now s msg h t a =
      let kind = prop (text "type") msg in
      let id = prop (text "id") msg in
      let Goal : Host × Bool → Type 0 = λ r. IsTidy (caught to_string s.id r) in
      let leveled = obj (put (text "level") (str (text "info")) (spread msg)) in
      let k = acting (text "bridge") s h a in
      let requested =
        request_offered to_string s id
          (offer_all to_string now leveled (some msg) (socket s.id) h.consumers [] h) in
      let shot =
        screenshot_checked to_string
          (has_screenshot (lookup same_peer (socket s.id) h.capabilities)) now s (spread msg) h in
      let routed =
        event_offered to_string s.client_id msg
          (offer_all to_string now msg (some msg) (socket s.id) h.consumers [] h) in
      if_elim Goal (is_word (text "hello") kind) (on_hello-IsTidy to_string s msg h t a) (
        if_elim Goal (is_word (text "control_result") kind) (on_result-IsTidy id msg h t) (
          if_elim Goal (is_word (text "control_request") kind)
            (caught-IsTidy to_string s.id requested (
              request_offered-IsTidy s id
                (offer_all to_string now leveled (some msg) (socket s.id) h.consumers [] h)
                (offered-IsTidy now leveled (some msg) s h t)
                (offered-Known now leveled (some msg) s h k)))
            (if_elim Goal (is_word (text "screenshot") kind)
              (caught-IsTidy to_string s.id shot (
                screenshot_checked-IsTidy
                  (has_screenshot (lookup same_peer (socket s.id) h.capabilities)) now s
                  (spread msg) h t k))
              (caught-IsTidy to_string s.id routed (
                event_offered-IsTidy s.client_id msg
                  (offer_all to_string now msg (some msg) (socket s.id) h.consumers [] h)
                  (offered-IsTidy now msg (some msg) s h t))))))
