-- ===== src/Mcp/Consumer/Asked.antt =====
-- src/mcp/consumer.ts: a control request that waits. Its promise stands in no list but the pending
-- controls and the timers, under its id.
pub mod Calls
use aria_bridge.Prelude.{
  get_elem?, zero, suc, ℕ, ◌+◌, Bool, true, false, not, ◌&&◌, ◌||◌, Text, text, text_eq,
  text_eq_iff, ◌==◌, ==_iff, Bool-cases, Option, none, some, List, [], ◌∷◌, ◌++◌, if_elim,
  if◌then◌else◌, arith, ◌≡◌, refl, inl, inr, sym, subst, ap, ◌∙◌,
}
use aria_bridge.Value.{Value, str, obj, Fields, truthy}
use aria_bridge.Value.Props.{get}
use aria_bridge.Mcp.Consumer.State.{
  Outcome, Timeout, Purpose, Listener, Awaited, auth_success, subscribe_ack, Pending, HostConsumer,
  auth_timeout, subscribe_timeout, control_timeout, rejected, done,
}
use aria_bridge.Mcp.Consumer.Operations.{
  reason, settle, drop_timer, clear, lookup, find_pending, drop_pending, forget, answer, emit,
  handle_fields, hear, hear_all, receive, timeout_fires, is_type, is_internal, awaited_type,
  announce, drop_listener, includes, expire, verdict, drop_timers, close,
}
use aria_bridge.Mcp.Consumer.Promises.{runs, runs-drop_timer, is_settled, is_settled-settle}
use aria_bridge.Mcp.Consumer.Untouched.{
  pends, hears, hears-append, hears-drop_listener, pends-drop_pending, runs-drop_timers,
}

-- An entry with another id holds the promise.
unfoldable pub strays : ℕ → Text → List Pending → Bool
strays p r [] = false
strays p r (e ∷ es) = (e.promise == p && not (text_eq e.request r)) || strays p r es

abbrev pub is_control : Text → Purpose → Bool
is_control r (control_timeout id) = text_eq id r
is_control r purpose = false

-- A timer with another purpose would reject the promise.
unfoldable pub misfires : ℕ → Text → List Timeout → Bool
misfires p r [] = false
misfires p r (t ∷ ts) = (t.promise == p && not (is_control r t.purpose)) || misfires p r ts

pub strays_of_pends :
    (p : ℕ) (r : Text) (es : List Pending) → pends p es ≡ false → strays p r es ≡ false
unfolding pends strays
strays_of_pends p r [] h = refl
strays_of_pends p r (e ∷ es) h = ground (arith, strays_of_pends p r es)

pub misfires_of_runs :
    (p : ℕ) (r : Text) (ts : List Timeout) → runs p ts ≡ false → misfires p r ts ≡ false
unfolding runs misfires
misfires_of_runs p r [] h = refl
misfires_of_runs p r (t ∷ ts) h = ground (arith, misfires_of_runs p r ts)

pub strays-drop_pending :
    (p : ℕ) (r id : Text) (es : List Pending)
    → strays p r es ≡ false
    → strays p r (drop_pending id es) ≡ false
unfolding strays drop_pending
strays-drop_pending p r id [] h = h
strays-drop_pending p r id (e ∷ es) h = ground (arith, strays-drop_pending p r id es)

pub misfires-drop_timer :
    (p q : ℕ) (r : Text) (ts : List Timeout)
    → misfires p r ts ≡ false
    → misfires p r (drop_timer q ts) ≡ false
unfolding misfires drop_timer
misfires-drop_timer p q r [] h = h
misfires-drop_timer p q r (t ∷ ts) h = ground (arith, misfires-drop_timer p q r ts)

pub pends-drop_self :
    (p : ℕ) (r : Text) (es : List Pending)
    → strays p r es ≡ false
    → pends p (drop_pending r es) ≡ false
unfolding strays drop_pending pends
pends-drop_self p r [] h = refl
pends-drop_self p r (e ∷ es) h = ground (arith, pends-drop_self p r es)

pub find_pending-strays :
    (p : ℕ) (r k : Text) (es : List Pending)
    → strays p r es ≡ false
    → find_pending k es ≡ some p
    → k ≡ r
unfolding strays find_pending
find_pending-strays p r k [] h e = cc
find_pending-strays p r k (x ∷ es) h e = ground (
  arith,
  find_pending-strays p r k es,
  text_eq_iff x.request k,
  text_eq_iff x.request r,
  ==_iff x.promise p,
)

pub misfires_at :
    (p i : ℕ) (r : Text) (t : Timeout) (ts : List Timeout)
    → misfires p r ts ≡ false
    → get_elem? ts i ≡ some t
    → (t.promise == p) ≡ true
    → is_control r t.purpose ≡ true
unfolding misfires
misfires_at p i r t [] h e same = cc
misfires_at p zero r t (x ∷ ts) h e same =
    let e' : x ≡ t = cc in
    let h' : ((x.promise == p && not (is_control r x.purpose)) || misfires p r ts) ≡ false = h in
    let h'' = rw e' at h' in ground arith
misfires_at p (suc i) r t (x ∷ ts) h e same = ground (arith, misfires_at p i r t ts)

pub runs-drop_timers_of_pends :
    (p : ℕ) (es : List Pending) (ts : List Timeout)
    → pends p es ≡ true
    → runs p (drop_timers es ts) ≡ false
unfolding pends drop_timers
runs-drop_timers_of_pends p [] ts h = ground arith
runs-drop_timers_of_pends p (e ∷ es) ts h = elim (Bool-cases (e.promise == p)) [
  | inl same ↦
      runs-drop_timers p es (drop_timer e.promise ts)
        (ground (arith, runs-drop_timer p e.promise ts))
  | inr other ↦ runs-drop_timers_of_pends p es (drop_timer e.promise ts) (ground arith)
]

-- The promise `p` waits for the answer to the request `r`, as long as the request is pending.
abbrev pub IsAsked : ℕ → Text → HostConsumer → Type 0
IsAsked p r s =
    (is_settled p s ≡ false)
    × (misfires p r s.timers ≡ false)
    × (strays p r s.pending ≡ false)
    × (hears p s.listeners ≡ false)
    × (includes p s.fails ≡ false)
