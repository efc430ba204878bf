-- ===== src/Mcp/Consumer/Operations.antt =====
-- src/mcp/consumer.ts: the methods of `HostConsumer` and the callbacks that it sets.
use aria_bridge.Prelude.{
  ℕ, ◌+◌, Bool, true, false, ◌&&◌, ◌||◌, Text, text, text_eq, ◌==◌, if◌then◌else◌, Option, none,
  some, List, [], ◌∷◌, ◌++◌,
}
use aria_bridge.Value.{Value, undefined, str, obj, Fields, end, field, truthy}
use aria_bridge.Value.Props.{get}
use aria_bridge.Socket.State.{Connection, connecting, is_open}
use aria_bridge.Socket.Operations.{transmit}
use aria_bridge.Mcp.Consumer.State.{
  Awaited, Emitted, HostConsumer, Listener, Outcome, Pending, Purpose, Settlement, Timeout,
  acknowledged, auth_success, auth_timeout, bridge_event, control_result, control_timeout, done,
  rejected, resolved, subscribe_ack, subscribe_timeout,
}

unfoldable pub outcome_of : ℕ → List Settlement → Option Outcome
outcome_of p [] = none
outcome_of p (x ∷ xs) = if x.promise == p then some x.outcome else outcome_of p xs

-- A promise settles once: of two outcomes the first counts.
abbrev pub settle_new : Option Outcome → ℕ → Outcome → List Settlement → List Settlement
settle_new (some o) p outcome xs = xs
settle_new none p outcome xs = record { promise = p; outcome = outcome } ∷ xs

-- `resolve` and `reject`.
unfoldable pub settle : ℕ → Outcome → HostConsumer → HostConsumer
settle p outcome s = record s { settled = settle_new (outcome_of p s.settled) p outcome s.settled }

unfoldable pub drop_timer : ℕ → List Timeout → List Timeout
drop_timer p [] = []
drop_timer p (t ∷ ts) = if t.promise == p then drop_timer p ts else t ∷ drop_timer p ts

-- `clearTimeout` of the timer that was set with the promise.
unfoldable pub clear : ℕ → HostConsumer → HostConsumer
clear p s = record s { timers = drop_timer p s.timers }

-- A method that returns a promise takes the next number for it.
unfoldable pub set_timeout : Purpose → HostConsumer → HostConsumer
set_timeout purpose s = record s {
  timers = record { promise = s.next_id; purpose = purpose } ∷ s.timers;
  next_id = s.next_id + 1;
}

-- A promise that is rejected at once.
unfoldable pub refuse : Value → HostConsumer → HostConsumer
refuse reason s = settle s.next_id (rejected reason) (record s { next_id = s.next_id + 1 })

unfoldable pub send : Value → HostConsumer → HostConsumer
send payload s = record s { wire = transmit s.ws payload s.wire }

-- `connect`. `made` is what the constructor of the socket threw, if it threw. The socket and the
-- promise have the same number.
unfoldable pub connect : Option Value → HostConsumer → HostConsumer
connect (some thrown) s = refuse thrown s
connect none s = set_timeout auth_timeout (record s {
  ws = some (record { id = s.next_id; ready = connecting });
  listeners =
      s.listeners ++ record { socket = s.next_id; awaits = auth_success; promise = s.next_id } ∷ [];
  fails = s.next_id ∷ s.fails;
})

unfoldable pub includes : ℕ → List ℕ → Bool
includes id [] = false
includes id (x ∷ xs) = x == id || includes id xs

unfoldable pub drop_id : ℕ → List ℕ → List ℕ
drop_id id [] = []
drop_id id (x ∷ xs) = if x == id then drop_id id xs else x ∷ drop_id id xs

-- `fail`, which hears the first error of the socket `id`; the promise has the same number.
unfoldable pub on_error : ℕ → Value → HostConsumer → HostConsumer
on_error id message s =
    if includes id s.fails
    then settle id (rejected message) (record s { fails = drop_id id s.fails })
    else s

abbrev pub auth_message : HostConsumer → Value
auth_message s = obj (
    field (text "type") (str (text "auth")) (
      field (text "secret") (str s.secret) (
        field (text "role") (str (text "consumer"))
          (field (text "clientId") (str s.client_id) end))))

unfoldable pub on_open : HostConsumer → HostConsumer
on_open s = send (auth_message s) s

abbrev pub not_connected : Value
not_connected = str (text "Not connected")

-- The number of the socket that `this.ws` holds.
abbrev pub socket_of : Option Connection → ℕ
socket_of none = 0
socket_of (some c) = c.id

unfoldable pub subscribe : Value → HostConsumer → HostConsumer
subscribe message s =
    if is_open s.ws
    then send message (
        set_timeout subscribe_timeout (record s {
          listeners =
              s.listeners
              ++ record { socket = socket_of s.ws; awaits = subscribe_ack; promise = s.next_id }
                ∷ [];
        }))
    else refuse not_connected s

unfoldable pub drop_pending : Text → List Pending → List Pending
drop_pending id [] = []
drop_pending id (e ∷ es) =
    if text_eq e.request id then drop_pending id es else e ∷ drop_pending id es

abbrev pub control_request : (id action : Text) → Value → Value
control_request id action args = obj (
    field (text "type") (str (text "control_request")) (
      field (text "id") (str id)
        (field (text "action") (str action) (field (text "args") args end))))

-- `sendControl`: an entry with the same id is replaced, and its timer goes on.
unfoldable pub send_control : (id action : Text) → Value → HostConsumer → HostConsumer
send_control id action args s =
    if is_open s.ws
    then send (control_request id action args) (
        set_timeout (control_timeout id) (record s {
          pending = record { request = id; promise = s.next_id } ∷ drop_pending id s.pending;
        }))
    else refuse not_connected s

unfoldable pub drop_timers : List Pending → List Timeout → List Timeout
drop_timers [] timers = timers
drop_timers (e ∷ es) timers = drop_timers es (drop_timer e.promise timers)

unfoldable pub close : HostConsumer → HostConsumer
close s = record s { timers = drop_timers s.pending s.timers; pending = []; ws = none }

unfoldable pub find_pending : Text → List Pending → Option ℕ
find_pending id [] = none
find_pending id (e ∷ es) = if text_eq e.request id then some e.promise else find_pending id es

-- `pendingControls.get(msg.id)`: the keys are texts.
abbrev pub lookup : Value → List Pending → Option ℕ
lookup (str id) es = find_pending id es
lookup v es = none

abbrev pub forget : Value → List Pending → List Pending
forget (str id) es = drop_pending id es
forget v es = es

-- `msg.error?.message`.
abbrev pub message_of : Value → Value
message_of (obj error) = get (text "message") error
message_of v = undefined

-- `msg.error?.message || 'control failed'`.
abbrev pub failure : Value → Value
failure message = if truthy message then message else str (text "control failed")

unfoldable pub verdict : Fields → Outcome
verdict msg =
    if truthy (get (text "ok") msg)
    then resolved (obj msg)
    else rejected (failure (message_of (get (text "error") msg)))

-- `if (pending)`, given what was found.
unfoldable pub answer : Option ℕ → Fields → HostConsumer → HostConsumer
answer none msg s = s
answer (some p) msg s =
    settle p (verdict msg) (record (clear p s) { pending = forget (get (text "id") msg) s.pending })

unfoldable pub emit : Emitted → HostConsumer → HostConsumer
emit e s = record s { emitted = s.emitted ++ e ∷ [] }

abbrev pub is_type : Text → Value → Bool
is_type word (str kind) = text_eq kind word
is_type word v = false

-- The messages that another listener handles, and those that are ignored.
abbrev pub is_internal : Value → Bool
is_internal kind =
    is_type (text "rate_limit_notice") kind
    || is_type (text "auth_success") kind
    || is_type (text "subscribe_ack") kind
    || is_type (text "control_forwarded") kind

-- `handleMessage` on an object.
unfoldable pub handle_fields : Fields → HostConsumer → HostConsumer
handle_fields msg s =
    let kind = get (text "type") msg in
    if is_type (text "control_result") kind
    then emit (control_result msg) (answer (lookup (get (text "id") msg) s.pending) msg s)
    else if truthy kind && (if is_internal kind then false else true)
    then emit (bridge_event msg) s
    else s

abbrev pub awaited_type : Awaited → Text
awaited_type auth_success = text "auth_success"
awaited_type subscribe_ack = text "subscribe_ack"

-- `this.ws?.off('message', listener)`: only the socket that is held loses the listener.
unfoldable pub drop_listener : Option Connection → Listener → List Listener → List Listener
drop_listener none l ls = ls
drop_listener (some c) l [] = []
drop_listener (some c) l (k ∷ ks) =
    let rest = drop_listener (some c) l ks in
    if k.promise == l.promise && k.socket == c.id then rest else k ∷ rest

abbrev pub announce : Awaited → Fields → HostConsumer → HostConsumer
announce auth_success msg s = s
announce subscribe_ack msg s = emit (acknowledged msg) s

-- `authListener` and the listener of `subscribe`.
unfoldable pub hear : Listener → Fields → HostConsumer → HostConsumer
hear l msg s =
    if is_type (awaited_type l.awaits) (get (text "type") msg)
    then settle l.promise done (
        announce l.awaits msg
          (record (clear l.promise s) { listeners = drop_listener s.ws l s.listeners }))
    else s

-- The listeners of the socket `id`, in the order in which they were added.
unfoldable pub hear_all : ℕ → List Listener → Fields → HostConsumer → HostConsumer
hear_all id [] msg s = s
hear_all id (l ∷ ls) msg s = hear_all id ls msg (if l.socket == id then hear l msg s else s)

-- A message of the socket `id`: `none` is a text that `JSON.parse` refuses. A value that is no object
-- has no type, and that of `null` throws; nothing changes then.
unfoldable pub receive : ℕ → Option Value → HostConsumer → HostConsumer
receive id (some (obj msg)) s = hear_all id s.listeners msg (handle_fields msg s)
receive id raw s = s

abbrev pub reason : Purpose → Value
reason auth_timeout = str (text "Timed out waiting for auth_success")
reason subscribe_timeout = str (text "Timed out waiting for subscribe_ack")
reason (control_timeout id) = str (text "Control request timed out")

abbrev pub expire : Purpose → List Pending → List Pending
expire (control_timeout id) es = drop_pending id es
expire purpose es = es

-- The callback of a timer.
unfoldable pub timeout_fires : Timeout → HostConsumer → HostConsumer
timeout_fires t s =
    settle t.promise (rejected (reason t.purpose))
      (record (clear t.promise s) { pending = expire t.purpose s.pending })
