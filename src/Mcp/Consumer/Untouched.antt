-- ===== src/Mcp/Consumer/Untouched.antt =====
-- src/mcp/consumer.ts: a promise that nothing refers to. No step settles it or sets a timer for it.
mod Mentions
unfoldable pub use Mentions.*
use aria_bridge.Prelude.{
  get_elem?, ℕ, ◌+◌, ◌<◌, ◌≤◌, Bool, true, false, ◌&&◌, ◌||◌, Text, text, ◌==◌, Bool-cases, Option,
  none, some, List, [], ◌∷◌, ◌++◌, if_elim, if◌then◌else◌, arith, ◌≡◌, refl, ◌⊎◌, inl, inr, ◌≢◌,
}
use aria_bridge.Value.{Value, str, obj, Fields, truthy}
use aria_bridge.Value.Props.{get}
use aria_bridge.Socket.State.{is_open}
use aria_bridge.Mcp.Consumer.State.{
  Outcome, rejected, Timeout, Purpose, Listener, Awaited, auth_success, subscribe_ack, Pending,
  HostConsumer, done, auth_timeout, subscribe_timeout, control_timeout,
}
use aria_bridge.Mcp.Consumer.Operations.{
  reason, settle, drop_timer, clear, set_timeout, refuse, send, connect, on_error, subscribe,
  send_control, lookup, drop_pending, forget, answer, emit, handle_fields, hear, hear_all, receive,
  timeout_fires, is_type, is_internal, awaited_type, announce, drop_listener, includes, drop_id,
  expire, not_connected, verdict, drop_timers, close,
}
use aria_bridge.Mcp.Consumer.Promises.{runs, runs-drop_timer, is_settled, is_settled-settle}

-- Nothing refers to the promise, settled or not.
abbrev pub IsUntouched : ℕ → HostConsumer → Type 0
IsUntouched p s =
    (is_settled p s ≡ false)
    × (runs p s.timers ≡ false)
    × (pends p s.pending ≡ false)
    × (hears p s.listeners ≡ false)
    × (includes p s.fails ≡ false)

module _ (p : ℕ) where
  settle-IsUntouched :
      (q : ℕ) (o : Outcome) (s : HostConsumer)
      → (q == p) ≡ false
      → IsUntouched p s
      → IsUntouched p (settle q o s)
  unfolding settle
  settle-IsUntouched q o s e (u, t, pe, he, fa) =
      (ground (arith, is_settled-settle p q o s), t, pe, he, fa)

  clear-IsUntouched : (q : ℕ) (s : HostConsumer) → IsUntouched p s → IsUntouched p (clear q s)
  unfolding clear is_settled
  clear-IsUntouched q s (u, t, pe, he, fa) =
      (u, ground (arith, runs-drop_timer p q s.timers), pe, he, fa)

  set_timeout-IsUntouched :
      (purpose : Purpose) (s : HostConsumer)
      → (s.next_id == p) ≡ false
      → IsUntouched p s
      → IsUntouched p (set_timeout purpose s)
  unfolding set_timeout is_settled runs
  set_timeout-IsUntouched purpose s e (u, t, pe, he, fa) = (u, ground arith, pe, he, fa)

  refuse-IsUntouched :
      (reason : Value) (s : HostConsumer)
      → (s.next_id == p) ≡ false
      → IsUntouched p s
      → IsUntouched p (refuse reason s)
  unfolding refuse is_settled
  refuse-IsUntouched reason s e u =
      settle-IsUntouched s.next_id (rejected reason) (record s { next_id = s.next_id + 1 }) e u

  pub connect-IsUntouched :
      (thrown : Option Value) (s : HostConsumer)
      → (s.next_id == p) ≡ false
      → IsUntouched p s
      → IsUntouched p (connect thrown s)
  unfolding connect set_timeout is_settled runs includes
  connect-IsUntouched (some thrown) s e u = refuse-IsUntouched thrown s e u
  connect-IsUntouched none s e (u, t, pe, he, fa) =
      (u, ground arith, pe, hears-append p _ s.listeners he e, ground arith)

  pub subscribe-IsUntouched :
      (message : Value) (s : HostConsumer)
      → (s.next_id == p) ≡ false
      → IsUntouched p s
      → IsUntouched p (subscribe message s)
  unfolding subscribe send set_timeout is_settled runs
  subscribe-IsUntouched message s e (u, t, pe, he, fa) =
      if_elim (IsUntouched p) (is_open s.ws)
        (u, ground arith, pe, hears-append p _ s.listeners he e, fa)
        (refuse-IsUntouched not_connected s e (u, t, pe, he, fa))

  pub send_control-IsUntouched :
      (id action : Text) (args : Value) (s : HostConsumer)
      → (s.next_id == p) ≡ false
      → IsUntouched p s
      → IsUntouched p (send_control id action args s)
  unfolding send_control send set_timeout is_settled runs pends
  send_control-IsUntouched id action args s e (u, t, pe, he, fa) =
      if_elim (IsUntouched p) (is_open s.ws)
        (u, ground arith, ground (arith, pends-drop_pending p id s.pending), he, fa)
        (refuse-IsUntouched not_connected s e (u, t, pe, he, fa))

  pub pends-forget :
      (id : Value) (es : List Pending) → pends p es ≡ false → pends p (forget id es) ≡ false
  pends-forget (str id) es h = pends-drop_pending p id es h
  pends-forget _ es h = h

  lookup_other :
      (q : ℕ) (id : Value) (es : List Pending)
      → pends p es ≡ false
      → lookup id es ≡ some q
      → (q == p) ≡ false
  lookup_other q (str id) es h e = pends_of_find p q id es h e
  lookup_other q _ es h e = ground arith

  answer-IsUntouched :
      (found : Option ℕ) (msg : Fields) (s : HostConsumer)
      → lookup (get (text "id") msg) s.pending ≡ found
      → IsUntouched p s
      → IsUntouched p (answer found msg s)
  unfolding answer clear is_settled
  answer-IsUntouched none msg s e u = u
  answer-IsUntouched (some q) msg s e (u, t, pe, he, fa) =
      let id = get (text "id") msg in
      settle-IsUntouched q (verdict msg) (record (clear q s) { pending = forget id s.pending })
        (lookup_other q id s.pending pe e)
        (u, ground (arith, runs-drop_timer p q s.timers), pends-forget id s.pending pe, he, fa)

  handle_fields-IsUntouched :
      (msg : Fields) (s : HostConsumer) → IsUntouched p s → IsUntouched p (handle_fields msg s)
  unfolding handle_fields emit is_settled
  handle_fields-IsUntouched msg s u =
      let kind = get (text "type") msg in
      let found = lookup (get (text "id") msg) s.pending in
      if_elim (IsUntouched p) (is_type (text "control_result") kind)
        (answer-IsUntouched found msg s refl u)
        (if_elim (IsUntouched p) (truthy kind && (if is_internal kind then false else true)) u u)

  announce-IsUntouched :
      (awaits : Awaited) (msg : Fields) (s : HostConsumer)
      → IsUntouched p s
      → IsUntouched p (announce awaits msg s)
  unfolding emit is_settled
  announce-IsUntouched auth_success msg s u = u
  announce-IsUntouched subscribe_ack msg s u = u

  hear-IsUntouched :
      (l : Listener) (msg : Fields) (s : HostConsumer)
      → (l.promise == p) ≡ false
      → IsUntouched p s
      → IsUntouched p (hear l msg s)
  unfolding hear clear is_settled
  hear-IsUntouched l msg s e (u, t, pe, he, fa) =
      if_elim (IsUntouched p) (is_type (awaited_type l.awaits) (get (text "type") msg))
        (settle-IsUntouched l.promise done _ e (
          announce-IsUntouched l.awaits msg
            (record (clear l.promise s) { listeners = drop_listener s.ws l s.listeners })
            (
              u,
              ground (arith, runs-drop_timer p l.promise s.timers),
              pe,
              hears-drop_listener p s.ws l s.listeners he,
              fa,
            )))
        (u, t, pe, he, fa)

  hear_all-IsUntouched :
      (id : ℕ) (ls : List Listener) (msg : Fields) (s : HostConsumer)
      → hears p ls ≡ false
      → IsUntouched p s
      → IsUntouched p (hear_all id ls msg s)
  unfolding hear_all hears
  hear_all-IsUntouched id [] msg s h u = u
  hear_all-IsUntouched id (l ∷ ls) msg s h u =
      hear_all-IsUntouched id ls msg (if l.socket == id then hear l msg s else s) (ground arith)
        (if_elim (IsUntouched p) (l.socket == id) (hear-IsUntouched l msg s (ground arith) u) u)

  pub on_error-IsUntouched :
      (id : ℕ) (message : Value) (s : HostConsumer)
      → IsUntouched p s
      → IsUntouched p (on_error id message s)
  unfolding on_error is_settled
  on_error-IsUntouched id message s (u, t, pe, he, fa) = elim (Bool-cases (includes id s.fails)) [
    | inl heard ↦ rw heard (
        settle-IsUntouched id (rejected message) (record s { fails = drop_id id s.fails })
          (includes_other p id s.fails fa heard) (u, t, pe, he, includes-drop_id p id s.fails fa))
    | inr silent ↦ rw silent (u, t, pe, he, fa)
  ]

  pub receive-IsUntouched :
      (id : ℕ) (raw : Option Value) (s : HostConsumer)
      → IsUntouched p s
      → IsUntouched p (receive id raw s)
  unfolding receive
  receive-IsUntouched id (some (obj msg)) s (u, t, pe, he, fa) =
      hear_all-IsUntouched id s.listeners msg (handle_fields msg s) he
        (handle_fields-IsUntouched msg s (u, t, pe, he, fa))
  receive-IsUntouched id _ s u = u

  pub pends-expire :
      (purpose : Purpose) (es : List Pending)
      → pends p es ≡ false
      → pends p (expire purpose es) ≡ false
  pends-expire (control_timeout id) es h = pends-drop_pending p id es h
  pends-expire auth_timeout es h = h
  pends-expire subscribe_timeout es h = h

  pub timeout_fires-IsUntouched :
      (i : ℕ) (t : Timeout) (s : HostConsumer)
      → get_elem? s.timers i ≡ some t
      → IsUntouched p s
      → IsUntouched p (timeout_fires t s)
  unfolding timeout_fires clear is_settled
  timeout_fires-IsUntouched i t s e (u, ti, pe, he, fa) =
      settle-IsUntouched t.promise (rejected (reason t.purpose))
        (record (clear t.promise s) { pending = expire t.purpose s.pending })
        (runs_other p i t s.timers ti e)
        (
          u,
          ground (arith, runs-drop_timer p t.promise s.timers),
          pends-expire t.purpose s.pending pe,
          he,
          fa,
        )

  pub close-IsUntouched : (s : HostConsumer) → IsUntouched p s → IsUntouched p (close s)
  unfolding close pends is_settled
  close-IsUntouched s (u, t, pe, he, fa) =
      (u, runs-drop_timers p s.pending s.timers t, refl, he, fa)
