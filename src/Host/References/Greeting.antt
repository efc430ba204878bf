-- ===== src/Host/References/Greeting.antt =====
-- bin/aria-bridge-host.js: the hello of a bridge, and what a socket that is told to close keeps.
use aria_bridge.Prelude.{
  ℕ, Bool, true, false, ◌&&◌, Text, text, some, [], ◌∷◌, ◌≡◌, refl, ap, sym, subst, ◌∙◌, arith,
}
use aria_bridge.Value.{Value, str, nat, arr, nil}
use aria_bridge.Socket.State.{Ready, connecting, opened, closing, closed, is_opened}
use aria_bridge.Host.State.{socket, same_peer, Sock, Hello, Host, insert}
use aria_bridge.Host.Values.{is_word, prop, or, printable, joins}
use aria_bridge.Host.Routing.{find_sock, is_ready, send_to}
use aria_bridge.Host.Sockets.{start_close, close_with, logged, return}
use aria_bridge.Host.Bridges.{hello_ack, on_hello}
use aria_bridge.Host.Consumers.{caught}
use aria_bridge.Host.References.{IsTidy, is_list, Known, Greets}
use aria_bridge.Host.References.Maps.{All-erase_kept}
use aria_bridge.Host.References.Sockets.{find_sock-update_own, start_close-IsMild}
use aria_bridge.Host.References.Operations.{close_with-IsTidy, send_to-IsTidy}

-- The socket has been authenticated, in this role.
abbrev pub Acts : Text → Sock → Host → Type 0
Acts role s h =
    (find_sock s.id h.socks ≡ some s) × (s.is_authenticated ≡ true) × (is_word role s.role ≡ true)

pub acting : (role : Text) (s : Sock) (h : Host) → Acts role s h → Known role h.socks s.id
acting role s h (found, a, r) = (s, found, a, r)

pub joins-is_list : (v : Value) → joins v ≡ true → is_list v ≡ true
joins-is_list (arr xs) e = refl
joins-is_list _ e = cc

-- A socket that was told to close is not open.
pub start_close-ready :
    (code : ℕ) (reason : Text) (r : Ready) (s : Sock)
    → s.ready ≡ r
    → is_opened (start_close code reason r s).ready ≡ false
start_close-ready code reason connecting s e = refl
start_close-ready code reason opened s e = refl
start_close-ready code reason closing s e = ap is_opened e
start_close-ready code reason closed s e = ap is_opened e

pub close_with-ready :
    (code : ℕ) (reason : Text) (s : Sock) (h : Host)
    → find_sock s.id h.socks ≡ some s
    → is_ready (find_sock s.id (close_with s.id code reason h).socks) ≡ false
unfolding close_with
close_with-ready code reason s h found =
    ap is_ready (
      find_sock-update_own s.id (λ x. start_close code reason x.ready x)
        (λ x. (start_close-IsMild code reason x).0) h.socks s found)
    ∙ start_close-ready code reason s.ready s refl

pub close_with-Known :
    (role : Text) (code : ℕ) (reason : Text) (s : Sock) (h : Host)
    → Acts role s h
    → Known role (close_with s.id code reason h).socks s.id
unfolding close_with
close_with-Known role code reason s h (found, a, r) =
    let f : Sock → Sock = λ x. start_close code reason x.ready x in
    let (_, b, c, _) = start_close-IsMild code reason s in
    (
      f s,
      find_sock-update_own s.id f (λ x. (start_close-IsMild code reason x).0) h.socks s found,
      b ∙ a,
      subst (λ v. is_word role v ≡ true) (sym c) r,
    )

pub and_second : (a b c d e : Bool) → (a && b && c && d && e) ≡ true → b ≡ true
and_second a b c d e h = ground arith

pub hello-IsTidy :
    (id : ℕ) (m : Hello) (h : Host)
    → IsTidy h
    → Greets h.socks (socket id, m)
    → IsTidy (record h { capabilities = insert same_peer (socket id) m h.capabilities })
hello-IsTidy id m h (b, c, g, s, l, p, n) k =
    (b, c, (k, All-erase_kept same_peer (Greets h.socks) (socket id) h.capabilities g), s, l, p, n)

module _ (to_string : Value → Text) where
  -- A hello whose capabilities are no list throws, and the socket is closed.
  pub logged-hello :
      (b : Bool) (ack : Value) (s : Sock) (m : Hello) (h : Host)
      → IsTidy h
      → Acts (text "bridge") s h
      → (b ≡ true → is_list m.capabilities ≡ true)
      → IsTidy (
          caught to_string s.id (
            logged b
              (λ x. return (send_to s.id ack x))
              (record h { capabilities = insert same_peer (socket s.id) m h.capabilities })))
  unfolding close_with
  logged-hello true ack s m h t a e =
      let told : Host = record h {
        capabilities = insert same_peer (socket s.id) m h.capabilities;
      } in
      send_to-IsTidy s.id ack told
        (hello-IsTidy s.id m h t (acting (text "bridge") s h a, λ o. e refl))
  logged-hello false ack s m h t a e =
      let reason = text "Internal error" in
      let shut = close_with s.id 1011 reason h in
      hello-IsTidy s.id m shut (close_with-IsTidy s.id 1011 reason h t) (
        close_with-Known (text "bridge") 1011 reason s h a,
        λ o. absurd (ground (arith, close_with-ready 1011 reason s h a.0)),
      )

  pub on_hello-IsTidy :
      (s : Sock) (msg : Value) (h : Host)
      → IsTidy h
      → Acts (text "bridge") s h
      → IsTidy (caught to_string s.id (on_hello s msg h))
  unfolding on_hello
  on_hello-IsTidy s msg h t a =
      let capabilities = or (prop (text "capabilities") msg) (arr nil) in
      let route = prop (text "route") msg in
      let url = prop (text "url") msg in
      let protocol = or (prop (text "protocol") msg) (nat 1) in
      let m : Hello = record {
        capabilities = capabilities;
        rest =
            route ∷ url ∷ protocol ∷ prop (text "platform") msg ∷ prop (text "projectId") msg ∷ [];
      } in
      let fits : Bool =
        printable s.client_id
        && joins capabilities
        && printable (or route (str (text "none")))
        && printable (or url (str (text "none")))
        && printable protocol in
      logged-hello fits (hello_ack s.client_id protocol) s m h t a
        (λ e. joins-is_list capabilities (and_second _ _ _ _ _ e))
