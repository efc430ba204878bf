-- ===== src/Mcp/Consumer/Close.antt =====
-- src/mcp/consumer.ts: what becomes of the control requests that wait when the consumer is closed.
use aria_bridge.Prelude.{
  ℕ, ◌<◌, true, false, ◌&&◌, Text, text, ◌==◌, ==_iff, Option, none, some, if_elim, if◌then◌else◌,
  arith, ◌≡◌, refl, ap, ◌∙◌, sym, Bool-cases, text_eq_refl, ltb, ltb→lt, le_of_ltb-false, inl, inr,
}
use aria_bridge.Value.{Value, obj, truthy}
use aria_bridge.Value.Props.{get}
use aria_bridge.Socket.State.{is_open}
use aria_bridge.Mcp.Consumer.State.{HostConsumer, init}
use aria_bridge.Mcp.Consumer.Operations.{
  settle, clear, set_timeout, refuse, send, connect, on_error, on_open, subscribe, send_control,
  lookup, answer, emit, handle_fields, receive, timeout_fires, is_type, is_internal, close,
}
use aria_bridge.Mcp.Consumer.Steps.{
  Call, connects, opens, errs, changes, subscribes, controls, receives, expires, Reach, fresh, next,
  Steps,
}
use aria_bridge.Mcp.Consumer.Promises.{runs, is_settled}
use aria_bridge.Mcp.Consumer.Asked.{
  IsAsked, strays, misfires, strays_of_pends, misfires_of_runs, strays-drop_pending,
  runs-drop_timers_of_pends,
}
use aria_bridge.Mcp.Consumer.Asked.Calls.{
  hear_all-pending, connect-IsAsked, subscribe-IsAsked, send_control-IsAsked, on_error-IsAsked,
  handle_fields-Waits, hear_all-IsAsked, timeout_fires-Waits,
}
use aria_bridge.Mcp.Consumer.Untouched.{
  pends-forget, pends-expire, pends-drop_pending, IsUntouched, pends,
}
use aria_bridge.Mcp.Consumer.Lost.{Reach-IsUntouched, IsLost, Steps-IsLost}

receive-gone :
    (p id : ℕ) (raw : Option Value) (s : HostConsumer)
    → pends p s.pending ≡ false
    → pends p (receive id raw s).pending ≡ false
unfolding receive handle_fields emit answer clear settle
receive-gone p id (some (obj msg)) s g =
    ap (pends p) (hear_all-pending id s.listeners msg (handle_fields msg s))
    ∙ if_elim Gone (is_type (text "control_result") kind) (answered (lookup key s.pending))
        (if_elim Gone (truthy kind && (if is_internal kind then false else true)) g g)
  where
    Gone : HostConsumer → Type 0
    Gone t = pends p t.pending ≡ false

    kind : Value
    kind = get (text "type") msg

    key : Value
    key = get (text "id") msg

    answered : (found : Option ℕ) → pends p (answer found msg s).pending ≡ false
    answered none = g
    answered (some q) = pends-forget p key s.pending g
receive-gone p id _ s g = g

send_control-born :
    (p : ℕ) (id action : Text) (args : Value) (s : HostConsumer)
    → pends p s.pending ≡ false
    → ((s.next_id == p) ≡ true → IsUntouched p s)
    → pends p (send_control id action args s).pending ≡ true
    → IsAsked p id (send_control id action args s)
unfolding send_control send set_timeout refuse settle is_settled misfires strays pends
send_control-born p id action args s g new =
    if_elim (λ (t : HostConsumer). pends p t.pending ≡ true → IsAsked p id t) (is_open s.ws)
      (λ w.
        let mine : (s.next_id == p) ≡ true = ground (arith, pends-drop_pending p id s.pending g) in
        let (u, ti, pe, he, fa) = new mine in
        (
          u,
          ground (arith, text_eq_refl id, misfires_of_runs p id s.timers ti),
          ground (
            arith,
            text_eq_refl id,
            strays-drop_pending p id id s.pending (strays_of_pends p id s.pending pe),
          ),
          he,
          fa,
        ))
      (λ w. absurd (ground arith))

-- A promise comes to be pending when its control request is sent, and then it is asked.
Call-born :
    (p : ℕ) {s t : HostConsumer}
    → Call s t
    → pends p s.pending ≡ false
    → ((s.next_id == p) ≡ true → IsUntouched p s)
    → pends p t.pending ≡ true
    → (r : Text) × IsAsked p r t
unfolding connect refuse settle set_timeout on_open send subscribe on_error timeout_fires clear
Call-born p (connects none) g new w = cc
Call-born p (connects (some thrown)) g new w = cc
Call-born p (opens id) g new w = cc
Call-born p {s} (errs id message) g new w = absurd (ground arith)
Call-born p (changes id ready) g new w = cc
Call-born p {s} (subscribes message) g new w = absurd (ground arith)
Call-born p {s} (controls id action args) g new w =
    (id, send_control-born p id action args s g new w)
Call-born p {s} (receives id raw) g new w = let gone = receive-gone p id raw s g in cc
Call-born p {s} (expires i t at) g new w = let gone = pends-expire p t.purpose s.pending g in cc

Call-IsAsked :
    (p : ℕ) (r : Text) {s t : HostConsumer}
    → Call s t
    → (s.next_id == p) ≡ false
    → IsAsked p r s
    → pends p t.pending ≡ true
    → IsAsked p r t
unfolding on_open send is_settled receive
Call-IsAsked p r {s} (connects thrown) e a w = connect-IsAsked p r thrown s e a
Call-IsAsked p r (opens id) e a w = a
Call-IsAsked p r {s} (errs id message) e a w = on_error-IsAsked p r id message s a
Call-IsAsked p r (changes id ready) e a w = a
Call-IsAsked p r {s} (subscribes message) e a w = subscribe-IsAsked p r message s e a
Call-IsAsked p r {s} (controls id action args) e a w = send_control-IsAsked p r id action args s e a
Call-IsAsked p r {s} (receives id (some (obj msg))) e a w =
    let same = ap (pends p) (hear_all-pending id s.listeners msg (handle_fields msg s)) in
    let (u, m, st, he, fa) = a in
    hear_all-IsAsked p r id s.listeners msg (handle_fields msg s) he
      (handle_fields-Waits p r msg s a (sym same ∙ w))
Call-IsAsked p r {s} (receives id _) e a w = a
Call-IsAsked p r {s} (expires i t at) e a w = timeout_fires-Waits p r i t s at a w

-- A promise that is pending is asked.
Reach-IsAsked :
    (url secret client_id : Text) (p : ℕ) (s : HostConsumer)
    → Reach url secret client_id s
    → pends p s.pending ≡ true
    → (r : Text) × IsAsked p r s
unfolding init pends
Reach-IsAsked url secret client_id p s fresh w = cc
Reach-IsAsked url secret client_id p t (next {s} reach c) w =
    let unused : (s.next_id == p) ≡ true → IsUntouched p s =
      λ e. Reach-IsUntouched url secret client_id s p reach (ground (arith, ==_iff s.next_id p)) in
    elim (Bool-cases (pends p s.pending)) [
      | inl before ↦
          let (r, a) = Reach-IsAsked url secret client_id p s reach before in
          (r, Call-IsAsked p r c (other s before unused) a w)
      | inr gone ↦ Call-born p c gone unused w
    ]
  where
    other :
        (s : HostConsumer)
        → pends p s.pending ≡ true
        → ((s.next_id == p) ≡ true → IsUntouched p s)
        → (s.next_id == p) ≡ false
    other s before unused = elim (Bool-cases (s.next_id == p)) [
      | inl same ↦ let (u, t, pe, he, fa) = unused same in absurd (ground arith)
      | inr new ↦ new
    ]

pends-below :
    (url secret client_id : Text) (p : ℕ) (s : HostConsumer)
    → Reach url secret client_id s
    → pends p s.pending ≡ true
    → p < s.next_id
pends-below url secret client_id p s reach w = elim (Bool-cases (ltb p s.next_id)) [
  | inl below ↦ ltb→lt p s.next_id below
  | inr above ↦
      let (u, t, pe, he, fa) =
        Reach-IsUntouched url secret client_id s p reach (le_of_ltb-false p s.next_id above) in
      absurd (ground arith)
]

close-IsLost :
    (p : ℕ) (r : Text) (s : HostConsumer)
    → p < s.next_id
    → pends p s.pending ≡ true
    → IsAsked p r s
    → IsLost p (close s)
unfolding close is_settled pends
close-IsLost p r s h w (u, m, st, he, fa) =
    (h, (u, runs-drop_timers_of_pends p s.pending s.timers w, refl, he, fa))

-- A control request that waits when the consumer is closed is never answered: whatever happened
-- before and whatever happens afterwards, its promise is not settled, and no timer runs that would
-- reject it.
pub close-abandons :
    (url secret client_id : Text) (p : ℕ) (s t : HostConsumer)
    → Reach url secret client_id s
    → pends p s.pending ≡ true
    → Steps (close s) t
    → (is_settled p t ≡ false) × (runs p t.timers ≡ false)
close-abandons url secret client_id p s t reach w st =
    let (r, a) = Reach-IsAsked url secret client_id p s reach w in
    let (h, (u, ti, pe, he, fa)) =
      Steps-IsLost p st (close-IsLost p r s (pends-below url secret client_id p s reach w) w a) in
    (u, ti)
