-- ===== src/Mcp/Consumer/Promises.antt =====
-- src/mcp/consumer.ts: no promise is lost. As long as the consumer is not closed, each one is settled
-- or has a timer that will reject it.
use aria_bridge.Prelude.{
  ℕ, ◌+◌, ◌<◌, Bool, true, false, ◌&&◌, ◌||◌, Text, text, ◌==◌, ==_iff, Bool-cases, Option, none,
  some, List, [], ◌∷◌, if_elim, if◌then◌else◌, arith, ◌≡◌, refl, inl, inr,
}
use aria_bridge.Value.{Value, obj, Fields, truthy}
use aria_bridge.Value.Props.{get}
use aria_bridge.Socket.State.{is_open}
use aria_bridge.Mcp.Consumer.State.{
  done, Outcome, rejected, Settlement, Timeout, Purpose, Listener, Awaited, auth_success,
  subscribe_ack, HostConsumer, init, auth_timeout, subscribe_timeout, control_timeout,
}
use aria_bridge.Mcp.Consumer.Operations.{
  includes, is_internal, outcome_of, settle_new, settle, drop_timer, clear, set_timeout, refuse,
  send, connect, on_error, on_open, subscribe, send_control, lookup, answer, emit, handle_fields,
  hear, hear_all, receive, timeout_fires, is_type, awaited_type, announce, drop_listener,
  not_connected,
}
use aria_bridge.Mcp.Consumer.Steps.{
  Call, connects, opens, errs, changes, subscribes, controls, receives, expires, Reach, fresh, next,
}

-- A timer that was set with the promise runs.
unfoldable pub runs : ℕ → List Timeout → Bool
runs p [] = false
runs p (t ∷ ts) = t.promise == p || runs p ts

pub runs-drop_timer :
    (n p : ℕ) (ts : List Timeout) → runs n (drop_timer p ts) ≡ (if p == n then false else runs n ts)
unfolding runs drop_timer
runs-drop_timer n p [] = ground arith
runs-drop_timer n p (t ∷ ts) =
    ground (arith, ==_iff t.promise p, ==_iff p n, ==_iff t.promise n, runs-drop_timer n p ts)

abbrev pub is_some : Option Outcome → Bool
is_some none = false
is_some (some o) = true

outcome_of-settle_new :
    (n p : ℕ) (o : Outcome) (r : Option Outcome) (xs : List Settlement)
    → outcome_of p xs ≡ r
    → is_some (outcome_of n (settle_new r p o xs)) ≡ (p == n || is_some (outcome_of n xs))
unfolding outcome_of
outcome_of-settle_new n p o none xs e = elim (Bool-cases (p == n)) [
  | inl same ↦ rw same refl
  | inr other ↦ rw other refl
]
outcome_of-settle_new n p o (some r) xs e = elim (Bool-cases (p == n)) [
  | inl same ↦ rw (same, ← (==_iff p n).0 same, e) refl
  | inr other ↦ rw other refl
]

-- The promise is settled.
unfoldable pub is_settled : ℕ → HostConsumer → Bool
is_settled p s = is_some (outcome_of p s.settled)

pub is_settled-settle :
    (n p : ℕ) (o : Outcome) (s : HostConsumer)
    → is_settled n (settle p o s) ≡ (p == n || is_settled n s)
unfolding is_settled settle
is_settled-settle n p o s = outcome_of-settle_new n p o (outcome_of p s.settled) s.settled refl

-- A promise is settled, or a timer runs for it.
abbrev pub lives : ℕ → HostConsumer → Bool
lives n s = is_settled n s || runs n s.timers

-- Each promise that was handed out lives.
abbrev pub IsAnswered : HostConsumer → Type 0
IsAnswered s = (n : ℕ) → n < s.next_id → lives n s ≡ true

settle-IsAnswered :
    (p : ℕ) (o : Outcome) (s : HostConsumer) → IsAnswered s → IsAnswered (settle p o s)
unfolding settle
settle-IsAnswered p o s a = λ n h. ground (arith, is_settled-settle n p o s, a n h)

settle-clear-IsAnswered :
    (p : ℕ) (o : Outcome) (s : HostConsumer) → IsAnswered s → IsAnswered (settle p o (clear p s))
unfolding settle clear is_settled
settle-clear-IsAnswered p o s a =
    λ n h. ground (arith, is_settled-settle n p o (clear p s), runs-drop_timer n p s.timers, a n h)

set_timeout-IsAnswered :
    (purpose : Purpose) (s : HostConsumer) → IsAnswered s → IsAnswered (set_timeout purpose s)
unfolding set_timeout is_settled runs
set_timeout-IsAnswered purpose s a = λ n h. elim (Bool-cases (s.next_id == n)) [
  | inl same ↦ ground (arith, same)
  | inr other ↦ ground (arith, other, ==_iff s.next_id n, a n)
]

refuse-IsAnswered :
    (reason : Value) (s : HostConsumer) → IsAnswered s → IsAnswered (refuse reason s)
unfolding refuse settle is_settled
refuse-IsAnswered reason s a = λ n h. elim (Bool-cases (s.next_id == n)) [
  | inl same ↦ ground (
    arith,
    same,
    is_settled-settle n s.next_id (rejected reason) (record s { next_id = s.next_id + 1 }),
  )
  | inr other ↦ ground (
    arith,
    other,
    ==_iff s.next_id n,
    a n,
    is_settled-settle n s.next_id (rejected reason) (record s { next_id = s.next_id + 1 }),
  )
]

connect-IsAnswered :
    (thrown : Option Value) (s : HostConsumer) → IsAnswered s → IsAnswered (connect thrown s)
unfolding connect set_timeout is_settled
connect-IsAnswered (some thrown) s a = refuse-IsAnswered thrown s a
connect-IsAnswered none s a = set_timeout-IsAnswered auth_timeout s a

subscribe-IsAnswered :
    (message : Value) (s : HostConsumer) → IsAnswered s → IsAnswered (subscribe message s)
unfolding subscribe send set_timeout is_settled
subscribe-IsAnswered message s a =
    if_elim IsAnswered (is_open s.ws) (set_timeout-IsAnswered subscribe_timeout s a)
      (refuse-IsAnswered not_connected s a)

send_control-IsAnswered :
    (id action : Text) (args : Value) (s : HostConsumer)
    → IsAnswered s
    → IsAnswered (send_control id action args s)
unfolding send_control send set_timeout is_settled
send_control-IsAnswered id action args s a =
    if_elim IsAnswered (is_open s.ws) (set_timeout-IsAnswered (control_timeout id) s a)
      (refuse-IsAnswered not_connected s a)

answer-IsAnswered :
    (p : Option ℕ) (msg : Fields) (s : HostConsumer) → IsAnswered s → IsAnswered (answer p msg s)
unfolding answer settle clear is_settled
answer-IsAnswered none msg s a = a
answer-IsAnswered (some p) msg s a = settle-clear-IsAnswered p _ s a

handle_fields-IsAnswered :
    (msg : Fields) (s : HostConsumer) → IsAnswered s → IsAnswered (handle_fields msg s)
unfolding handle_fields emit is_settled
handle_fields-IsAnswered msg s a =
    let kind = get (text "type") msg in
    let found = lookup (get (text "id") msg) s.pending in
    if_elim IsAnswered (is_type (text "control_result") kind) (answer-IsAnswered found msg s a)
      (if_elim IsAnswered (truthy kind && (if is_internal kind then false else true)) a a)

settle-announce-IsAnswered :
    (awaits : Awaited) (p : ℕ) (o : Outcome) (msg : Fields) (ls : List Listener) (s : HostConsumer)
    → IsAnswered s
    → IsAnswered (settle p o (announce awaits msg (record (clear p s) { listeners = ls })))
unfolding emit settle clear is_settled
settle-announce-IsAnswered auth_success p o msg ls s a = settle-clear-IsAnswered p o s a
settle-announce-IsAnswered subscribe_ack p o msg ls s a = settle-clear-IsAnswered p o s a

hear-IsAnswered :
    (l : Listener) (msg : Fields) (s : HostConsumer) → IsAnswered s → IsAnswered (hear l msg s)
unfolding hear
hear-IsAnswered l msg s a =
    if_elim IsAnswered (is_type (awaited_type l.awaits) (get (text "type") msg))
      (settle-announce-IsAnswered l.awaits l.promise done msg (drop_listener s.ws l s.listeners) s
        a)
      a

hear_all-IsAnswered :
    (id : ℕ) (ls : List Listener) (msg : Fields) (s : HostConsumer)
    → IsAnswered s
    → IsAnswered (hear_all id ls msg s)
unfolding hear_all
hear_all-IsAnswered id [] msg s a = a
hear_all-IsAnswered id (l ∷ ls) msg s a =
    hear_all-IsAnswered id ls msg (if l.socket == id then hear l msg s else s)
      (if_elim IsAnswered (l.socket == id) (hear-IsAnswered l msg s a) (a))

receive-IsAnswered :
    (id : ℕ) (raw : Option Value) (s : HostConsumer) → IsAnswered s → IsAnswered (receive id raw s)
unfolding receive
receive-IsAnswered id (some (obj msg)) s a =
    hear_all-IsAnswered id s.listeners msg (handle_fields msg s) (handle_fields-IsAnswered msg s a)
receive-IsAnswered id _ s a = a

Call-IsAnswered : {s t : HostConsumer} → Call s t → IsAnswered s → IsAnswered t
unfolding on_open send on_error timeout_fires settle clear is_settled
Call-IsAnswered {s} (connects thrown) a = connect-IsAnswered thrown s a
Call-IsAnswered (opens id) a = a
Call-IsAnswered {s} (errs id message) a =
    if_elim IsAnswered (includes id s.fails) (settle-IsAnswered id (rejected message) s a) a
Call-IsAnswered (changes id ready) a = a
Call-IsAnswered {s} (subscribes message) a = subscribe-IsAnswered message s a
Call-IsAnswered {s} (controls id action args) a = send_control-IsAnswered id action args s a
Call-IsAnswered {s} (receives id raw) a = receive-IsAnswered id raw s a
Call-IsAnswered {s} (expires i t at) a = settle-clear-IsAnswered t.promise _ s a

-- As long as close is not called, every promise that a method handed out is settled, or a timer runs
-- that rejects it.
pub Reach-answers :
    (url secret client_id : Text) (s : HostConsumer) (p : ℕ)
    → Reach url secret client_id s
    → p < s.next_id
    → lives p s ≡ true
unfolding init
Reach-answers url secret client_id s p fresh h = ground arith
Reach-answers url secret client_id s p (next {s = t} r c) h =
    Call-IsAnswered c (λ n. Reach-answers url secret client_id t n r) p h
