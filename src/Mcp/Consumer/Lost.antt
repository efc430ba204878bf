-- ===== src/Mcp/Consumer/Lost.antt =====
-- src/mcp/consumer.ts: a promise that was handed out and that nothing refers to stays so.
use aria_bridge.Prelude.{
  ℕ, ◌+◌, ◌<◌, ◌≤◌, true, false, ◌&&◌, Text, text, ◌==◌, ==_iff, Option, none, some, List, [], ◌∷◌,
  if_elim, if◌then◌else◌, arith, ◌≡◌, refl, ◌⊎◌, inl, inr,
}
use aria_bridge.Value.{Value, obj, truthy}
use aria_bridge.Value.Props.{get}
use aria_bridge.Mcp.Consumer.State.{
  Listener, Awaited, auth_success, subscribe_ack, HostConsumer, init,
}
use aria_bridge.Mcp.Consumer.Operations.{
  outcome_of, settle, clear, set_timeout, refuse, send, connect, on_error, on_open, subscribe,
  send_control, lookup, answer, emit, handle_fields, hear, hear_all, receive, timeout_fires,
  is_type, is_internal, awaited_type, announce, drop_listener, close, includes,
}
use aria_bridge.Mcp.Consumer.Steps.{
  Call, connects, opens, errs, changes, subscribes, controls, receives, expires, Reach, fresh, next,
  calls, closes, Steps, stop, further,
}
use aria_bridge.Mcp.Consumer.Promises.{runs, is_settled}
use aria_bridge.Mcp.Consumer.Untouched.{
  hears, IsUntouched, connect-IsUntouched, subscribe-IsUntouched, send_control-IsUntouched,
  on_error-IsUntouched, receive-IsUntouched, timeout_fires-IsUntouched, close-IsUntouched, pends,
}

-- Numbers are handed out in order.
abbrev pub Grown : ℕ → HostConsumer → Type 0
Grown n s = n ≤ s.next_id

receive-Grown :
    (n id : ℕ) (raw : Option Value) (s : HostConsumer) → Grown n s → Grown n (receive id raw s)
unfolding receive answer settle clear handle_fields emit hear hear_all
receive-Grown n id (some (obj msg)) s g = hear_all-Grown s.listeners (handle_fields msg s) handles
  where
    answers : (found : Option ℕ) → Grown n (answer found msg s)
    answers none = g
    answers (some p) = g

    handles : Grown n (handle_fields msg s)
    handles =
        let kind = get (text "type") msg in
        if_elim (Grown n) (is_type (text "control_result") kind)
          (answers (lookup (get (text "id") msg) s.pending))
          (if_elim (Grown n) (truthy kind && (if is_internal kind then false else true)) g g)

    announces : (awaits : Awaited) (t : HostConsumer) → Grown n t → Grown n (announce awaits msg t)
    announces auth_success t h = h
    announces subscribe_ack t h = h

    hears_one : (l : Listener) (t : HostConsumer) → Grown n t → Grown n (hear l msg t)
    hears_one l t h =
        if_elim (Grown n) (is_type (awaited_type l.awaits) (get (text "type") msg))
          (announces l.awaits
            (record (clear l.promise t) { listeners = drop_listener t.ws l t.listeners }) h)
          h

    hear_all-Grown :
        (ls : List Listener) (t : HostConsumer) → Grown n t → Grown n (hear_all id ls msg t)
    hear_all-Grown [] t h = h
    hear_all-Grown (l ∷ ls) t h =
        hear_all-Grown ls (if l.socket == id then hear l msg t else t)
          (if_elim (Grown n) (l.socket == id) (hears_one l t h) h)
receive-Grown n id _ s g = g

connect-next :
    (thrown : Option Value) (s : HostConsumer) → (connect thrown s).next_id ≡ s.next_id + 1
unfolding connect refuse settle set_timeout
connect-next none s = refl
connect-next (some thrown) s = refl

subscribe-next :
    (message : Value) (s : HostConsumer) → (subscribe message s).next_id ≡ s.next_id + 1
unfolding subscribe send refuse settle set_timeout
subscribe-next message s = ground arith

send_control-next :
    (id action : Text) (args : Value) (s : HostConsumer)
    → (send_control id action args s).next_id ≡ s.next_id + 1
unfolding send_control send refuse settle set_timeout
send_control-next id action args s = ground arith

pub Call-Grown : {s t : HostConsumer} → Call s t → Grown s.next_id t
unfolding on_open send on_error timeout_fires settle clear
Call-Grown {s} (connects thrown) = ground (arith, connect-next thrown s)
Call-Grown (opens id) = ground arith
Call-Grown (errs id message) = ground arith
Call-Grown (changes id ready) = ground arith
Call-Grown {s} (subscribes message) = ground (arith, subscribe-next message s)
Call-Grown {s} (controls id action args) = ground (arith, send_control-next id action args s)
Call-Grown {s} (receives id raw) = receive-Grown s.next_id id raw s (ground arith)
Call-Grown (expires i t at) = ground arith

-- A number that was handed out before, or is not handed out yet.
abbrev pub Apart : ℕ → HostConsumer → HostConsumer → Type 0
Apart p s t = (p < s.next_id) ⊎ (t.next_id ≤ p)

pub Call-IsUntouched :
    (p : ℕ) {s t : HostConsumer} → Call s t → Apart p s t → IsUntouched p s → IsUntouched p t
unfolding on_open send is_settled
Call-IsUntouched p {s} (connects thrown) a u =
    connect-IsUntouched p thrown s (ground (arith, connect-next thrown s, ==_iff s.next_id p)) u
Call-IsUntouched p (opens id) a u = u
Call-IsUntouched p {s} (errs id message) a u = on_error-IsUntouched p id message s u
Call-IsUntouched p (changes id ready) a u = u
Call-IsUntouched p {s} (subscribes message) a u =
    subscribe-IsUntouched p message s (ground (arith, subscribe-next message s, ==_iff s.next_id p))
      u
Call-IsUntouched p {s} (controls id action args) a u =
    send_control-IsUntouched p id action args s
      (ground (arith, send_control-next id action args s, ==_iff s.next_id p)) u
Call-IsUntouched p {s} (receives id raw) a u = receive-IsUntouched p id raw s u
Call-IsUntouched p {s} (expires i t at) a u = timeout_fires-IsUntouched p i t s at u

-- A number that is not handed out yet is not referred to.
pub Reach-IsUntouched :
    (url secret client_id : Text) (s : HostConsumer) (p : ℕ)
    → Reach url secret client_id s
    → s.next_id ≤ p
    → IsUntouched p s
unfolding init is_settled outcome_of runs pends hears includes
Reach-IsUntouched url secret client_id s p fresh h = (refl, refl, refl, refl, refl)
Reach-IsUntouched url secret client_id s p (next {s = r} reach c) h =
    Call-IsUntouched p c (inr h)
      (Reach-IsUntouched url secret client_id r p reach (ground (arith, Call-Grown c)))

-- A promise that was handed out and that nothing refers to.
abbrev pub IsLost : ℕ → HostConsumer → Type 0
IsLost p s = (p < s.next_id) × IsUntouched p s

pub Steps-IsLost : (p : ℕ) {s t : HostConsumer} → Steps s t → IsLost p s → IsLost p t
unfolding close is_settled
Steps-IsLost p stop l = l
Steps-IsLost p (further st (calls c)) l =
    let (h, u) = Steps-IsLost p st l in
    (ground (arith, Call-Grown c), Call-IsUntouched p c (inl h) u)
Steps-IsLost p (further {t = t} st closes) l =
    let (h, u) = Steps-IsLost p st l in (h, close-IsUntouched p t u)
