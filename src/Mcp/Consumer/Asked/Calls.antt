-- ===== src/Mcp/Consumer/Asked/Calls.antt =====
-- src/mcp/consumer.ts: a control request that is asked stays so, or is no longer pending.
use aria_bridge.Prelude.{
  get_elem?, ℕ, ◌+◌, true, false, ◌&&◌, Text, text, ◌==◌, ==_iff, Bool-cases, Option, none, some,
  List, [], ◌∷◌, if_elim, if◌then◌else◌, arith, ◌≡◌, refl, inl, inr, ap, ◌∙◌, sym, text_eq_iff,
}
use aria_bridge.Value.{Value, str, Fields, truthy}
use aria_bridge.Value.Props.{get}
use aria_bridge.Socket.State.{is_open}
use aria_bridge.Mcp.Consumer.State.{
  Outcome, Timeout, Purpose, Listener, Awaited, auth_success, subscribe_ack, HostConsumer,
  auth_timeout, subscribe_timeout, control_timeout, rejected, done,
}
use aria_bridge.Mcp.Consumer.Operations.{
  reason, settle, clear, set_timeout, refuse, send, connect, on_error, subscribe, send_control,
  lookup, find_pending, drop_pending, forget, answer, emit, handle_fields, hear, hear_all,
  timeout_fires, is_type, is_internal, awaited_type, announce, drop_listener, includes, drop_id,
  expire, verdict, not_connected,
}
use aria_bridge.Mcp.Consumer.Promises.{is_settled, is_settled-settle}
use aria_bridge.Mcp.Consumer.Untouched.{
  pends, hears, hears-append, hears-drop_listener, includes-drop_id, includes_other,
}
use aria_bridge.Mcp.Consumer.Asked.{
  IsAsked, strays, misfires, is_control, strays-drop_pending, misfires-drop_timer, pends-drop_self,
  find_pending-strays, misfires_at,
}

module _ (p : ℕ) (r : Text) where
  -- What is no longer pending, or is asked.
  abbrev pub Waits : HostConsumer → Type 0
  Waits s = pends p s.pending ≡ true → IsAsked p r s

  settle-IsAsked :
      (q : ℕ) (o : Outcome) (s : HostConsumer)
      → (q == p) ≡ false
      → IsAsked p r s
      → IsAsked p r (settle q o s)
  unfolding settle
  settle-IsAsked q o s e (u, m, st, he, fa) =
      (ground (arith, is_settled-settle p q o s), m, st, he, fa)

  refuse-IsAsked :
      (reason : Value) (s : HostConsumer)
      → (s.next_id == p) ≡ false
      → IsAsked p r s
      → IsAsked p r (refuse reason s)
  unfolding refuse is_settled
  refuse-IsAsked reason s e a =
      settle-IsAsked s.next_id (rejected reason) (record s { next_id = s.next_id + 1 }) e a

  pub connect-IsAsked :
      (thrown : Option Value) (s : HostConsumer)
      → (s.next_id == p) ≡ false
      → IsAsked p r s
      → IsAsked p r (connect thrown s)
  unfolding connect set_timeout is_settled misfires includes
  connect-IsAsked (some thrown) s e a = refuse-IsAsked thrown s e a
  connect-IsAsked none s e (u, m, st, he, fa) =
      (u, ground arith, st, hears-append p _ s.listeners he e, ground arith)

  pub subscribe-IsAsked :
      (message : Value) (s : HostConsumer)
      → (s.next_id == p) ≡ false
      → IsAsked p r s
      → IsAsked p r (subscribe message s)
  unfolding subscribe send set_timeout is_settled misfires
  subscribe-IsAsked message s e (u, m, st, he, fa) =
      if_elim (IsAsked p r) (is_open s.ws)
        (u, ground arith, st, hears-append p _ s.listeners he e, fa)
        (refuse-IsAsked not_connected s e (u, m, st, he, fa))

  pub send_control-IsAsked :
      (id action : Text) (args : Value) (s : HostConsumer)
      → (s.next_id == p) ≡ false
      → IsAsked p r s
      → IsAsked p r (send_control id action args s)
  unfolding send_control send set_timeout is_settled misfires strays
  send_control-IsAsked id action args s e (u, m, st, he, fa) =
      if_elim (IsAsked p r) (is_open s.ws)
        (u, ground arith, ground (arith, strays-drop_pending p r id s.pending), he, fa)
        (refuse-IsAsked not_connected s e (u, m, st, he, fa))

  pub on_error-IsAsked :
      (id : ℕ) (message : Value) (s : HostConsumer)
      → IsAsked p r s
      → IsAsked p r (on_error id message s)
  unfolding on_error is_settled
  on_error-IsAsked id message s (u, m, st, he, fa) = elim (Bool-cases (includes id s.fails)) [
    | inl heard ↦ rw heard (
        settle-IsAsked id (rejected message) (record s { fails = drop_id id s.fails })
          (includes_other p id s.fails fa heard) (u, m, st, he, includes-drop_id p id s.fails fa))
    | inr silent ↦ rw silent (u, m, st, he, fa)
  ]

  -- An answer to the promise itself takes its entry away.
  answer-Waits :
      (id : Value) (found : Option ℕ) (msg : Fields) (s : HostConsumer)
      → get (text "id") msg ≡ id
      → lookup id s.pending ≡ found
      → IsAsked p r s
      → Waits (answer found msg s)
  unfolding answer clear is_settled settle
  answer-Waits id none msg s i e a w = a
  answer-Waits (str k) (some q) msg s i e (u, m, st, he, fa) w = elim (Bool-cases (q == p)) [
    | inl same ↦
        let found : find_pending k s.pending ≡ some p = ground (arith, ==_iff q p) in
        let key = find_pending-strays p r k s.pending st found in
        let gone : pends p (drop_pending k s.pending) ≡ false =
          rw key (pends-drop_self p r s.pending st) in
        let still : pends p (drop_pending k s.pending) ≡ true =
          ap (λ v. pends p (forget v s.pending)) (sym i) ∙ w in
        absurd (ground arith)
    | inr other ↦
        settle-IsAsked q (verdict msg)
          (record (clear q s) { pending = forget (get (text "id") msg) s.pending }) other
          (
            u,
            misfires-drop_timer p q r s.timers m,
            rw i (strays-drop_pending p r k s.pending st),
            he,
            fa,
          )
  ]
  answer-Waits _ (some q) msg s i e a w = cc

  pub handle_fields-Waits :
      (msg : Fields) (s : HostConsumer) → IsAsked p r s → Waits (handle_fields msg s)
  unfolding handle_fields emit is_settled
  handle_fields-Waits msg s a =
      let kind = get (text "type") msg in
      let id = get (text "id") msg in
      if_elim Waits (is_type (text "control_result") kind)
        (answer-Waits id (lookup id s.pending) msg s refl refl a)
        (if_elim Waits (truthy kind && (if is_internal kind then false else true)) (λ w. a)
          (λ w. a))

  announce-IsAsked :
      (awaits : Awaited) (msg : Fields) (s : HostConsumer)
      → IsAsked p r s
      → IsAsked p r (announce awaits msg s)
  unfolding emit is_settled
  announce-IsAsked auth_success msg s a = a
  announce-IsAsked subscribe_ack msg s a = a

  hear-IsAsked :
      (l : Listener) (msg : Fields) (s : HostConsumer)
      → (l.promise == p) ≡ false
      → IsAsked p r s
      → IsAsked p r (hear l msg s)
  unfolding hear clear is_settled
  hear-IsAsked l msg s e (u, m, st, he, fa) =
      if_elim (IsAsked p r) (is_type (awaited_type l.awaits) (get (text "type") msg))
        (settle-IsAsked l.promise done _ e (
          announce-IsAsked l.awaits msg
            (record (clear l.promise s) { listeners = drop_listener s.ws l s.listeners })
            (
              u,
              misfires-drop_timer p l.promise r s.timers m,
              st,
              hears-drop_listener p s.ws l s.listeners he,
              fa,
            )))
        (u, m, st, he, fa)

  pub hear_all-IsAsked :
      (id : ℕ) (ls : List Listener) (msg : Fields) (s : HostConsumer)
      → hears p ls ≡ false
      → IsAsked p r s
      → IsAsked p r (hear_all id ls msg s)
  unfolding hear_all hears
  hear_all-IsAsked id [] msg s h a = a
  hear_all-IsAsked id (l ∷ ls) msg s h a =
      hear_all-IsAsked id ls msg (if l.socket == id then hear l msg s else s) (ground arith)
        (if_elim (IsAsked p r) (l.socket == id) (hear-IsAsked l msg s (ground arith) a) a)

  pub timeout_fires-Waits :
      (i : ℕ) (t : Timeout) (s : HostConsumer)
      → get_elem? s.timers i ≡ some t
      → IsAsked p r s
      → Waits (timeout_fires t s)
  unfolding timeout_fires clear is_settled settle
  timeout_fires-Waits i t s e (u, m, st, he, fa) w = elim (Bool-cases (t.promise == p)) [
    | inl same ↦ let own = misfires_at p i r t s.timers m e same in absurd (expired t.purpose own w)
    | inr other ↦
        settle-IsAsked t.promise (rejected (reason t.purpose))
          (record (clear t.promise s) { pending = expire t.purpose s.pending }) other
          (u, misfires-drop_timer p t.promise r s.timers m, expire-strays t.purpose, he, fa)
  ]
    where
      expired :
          (purpose : Purpose)
          → is_control r purpose ≡ true
          → pends p (expire purpose s.pending) ≡ true
          → ⊥
      expired (control_timeout id) own still =
          let key : id ≡ r = (text_eq_iff id r).0 own in
          let gone : pends p (drop_pending id s.pending) ≡ false =
            rw key (pends-drop_self p r s.pending st) in
          ground arith
      expired auth_timeout own still = cc
      expired subscribe_timeout own still = cc

      expire-strays : (purpose : Purpose) → strays p r (expire purpose s.pending) ≡ false
      expire-strays (control_timeout id) = strays-drop_pending p r id s.pending st
      expire-strays auth_timeout = st
      expire-strays subscribe_timeout = st

hear-pending : (l : Listener) (msg : Fields) (s : HostConsumer) → (hear l msg s).pending ≡ s.pending
unfolding hear clear settle emit
hear-pending l msg s =
    if_elim (λ (t : HostConsumer). t.pending ≡ s.pending)
      (is_type (awaited_type l.awaits) (get (text "type") msg)) (announced l.awaits) refl
  where
    announced :
        (awaits : Awaited)
        → (announce awaits msg
            (record (clear l.promise s) { listeners = drop_listener s.ws l s.listeners })).pending
          ≡ s.pending
    announced auth_success = refl
    announced subscribe_ack = refl

pub hear_all-pending :
    (id : ℕ) (ls : List Listener) (msg : Fields) (s : HostConsumer)
    → (hear_all id ls msg s).pending ≡ s.pending
unfolding hear_all
hear_all-pending id [] msg s = refl
hear_all-pending id (l ∷ ls) msg s =
    hear_all-pending id ls msg (if l.socket == id then hear l msg s else s)
    ∙ if_elim (λ (t : HostConsumer). t.pending ≡ s.pending) (l.socket == id) (hear-pending l msg s)
        refl
