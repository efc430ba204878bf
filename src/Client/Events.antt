-- ===== src/Client/Events.antt =====
-- `startBridge`, src/client.ts: the breadcrumbs, `sendEvent`, the patched console, and what the
-- connection offers.
pub mod Delivery
pub mod Breadcrumbs
use aria_bridge.Prelude.{
  ℕ, ◌+◌, Bool, true, false, ◌&&◌, ◌||◌, Text, text, text_eq, length, ltb, drop, if◌then◌else◌,
  List, [], ◌∷◌, ◌++◌,
}
use aria_bridge.Value.{
  Value, undefined, null, nat, str, arr, obj, items, Fields, end, field, truthy,
}
use aria_bridge.Value.Props.{get}
use aria_bridge.Socket.State.{BridgeWebSocket, init}
use aria_bridge.Socket.Operations as Socket
use aria_bridge.Socket.Operations.{opt}
use aria_bridge.Client.Throttle as Throttle
use aria_bridge.Client.Throttle.{Throttler, should_allow}
use aria_bridge.Client.Options.{Settings, capabilities}

-- The variables of `startBridge` that its functions share.
pub record Bridge : Type 0 where
  pub settings : Settings
  pub platform : Text
  pub breadcrumbs : List Value
  pub throttler : Throttler
  pub ws : BridgeWebSocket
  -- Whether the methods of the console are the patched ones, and what the original ones were given.
  pub console_patched : Bool
  pub printed : List (Text × Value)

-- The state once `startBridge` returns. `made` says whether the socket could be made.
unfoldable pub start : Bool → Text → Settings → Bridge
start made platform s = record {
  settings = s;
  platform = platform;
  breadcrumbs = [];
  throttler = Throttle.init s.throttle_ms;
  ws = Socket.connect false made (
      Socket.set_control_handler (
        init (record {
          secret = s.secret;
          capabilities = capabilities s;
          platform = platform;
          project_id = s.project_id;
        })));
  console_patched = true;
  printed = [];
}

abbrev pub breadcrumb : ℕ → Text → Text → Value
breadcrumb now level message = obj (
    field (text "timestamp") (nat now)
      (field (text "level") (str level) (field (text "message") (str message) end)))

-- `breadcrumbs.shift()` where there are too many.
unfoldable pub trim : ℕ → List Value → List Value
trim max crumbs = if ltb max (length crumbs) then drop 1 crumbs else crumbs

unfoldable pub add_breadcrumb : ℕ → Text → Text → Bridge → Bridge
add_breadcrumb now level message b = record b {
  breadcrumbs =
      trim b.settings.max_breadcrumbs (b.breadcrumbs ++ breadcrumb now level message ∷ []);
}

-- `v ?? w`.
abbrev pub nullish : Value → Value → Value
nullish undefined w = w
nullish null w = w
nullish v w = v

abbrev pub is_word : Text → Value → Bool
is_word word (str s) = text_eq s word
is_word word v = false

-- The events that are never throttled.
unfoldable pub is_urgent : Value → Bool
is_urgent kind =
    is_word (text "error") kind || is_word (text "navigation") kind || is_word (text "network") kind

unfoldable pub full_event : ℕ → Fields → Bridge → Fields
full_event now e b = field (text "type") (nullish (get (text "type") e) (str (text "log"))) (
    field (text "level") (nullish (get (text "level") e) (str (text "info"))) (
      field (text "message") (nullish (get (text "message") e) (str [])) (
        field (text "stack") (get (text "stack") e) (
          field (text "timestamp") (nat now) (
            field (text "platform") (str b.platform) (
              field (text "projectId") (opt b.settings.project_id) (
                field (text "breadcrumbs") (arr (items b.breadcrumbs)) (
                  field (text "url") (get (text "url") e) (
                    field (text "route") (get (text "route") e) (
                      field (text "mime") (get (text "mime") e) (
                        field (text "data") (get (text "data") e) (
                          field (text "args") (get (text "args") e) (
                            field (text "navigation") (get (text "navigation") e)
                              (field (text "network") (get (text "network") e) end))))))))))))))

-- `ws.send(fullEvent)`.
unfoldable pub pass_on : ℕ → Fields → Bridge → Bridge
pass_on now e b = record b { ws = Socket.send (obj (full_event now e b)) b.ws }

-- What `throttler.shouldAllow()` came to.
abbrev pub if_allowed : ℕ → Fields → Throttler × Bool → Bridge → Bridge
if_allowed now e (t, true) b = pass_on now e (record b { throttler = t })
if_allowed now e (t, false) b = record b { throttler = t }

-- `sendEvent`; `bypass` is the option `bypassThrottle`.
unfoldable pub send_event : ℕ → Bool → Fields → Bridge → Bridge
send_event now bypass e b =
    if bypass || is_urgent (get (text "type") e)
    then pass_on now e b
    else if_allowed now e (should_allow now b.throttler) b

-- A method of the console, given the message and the arguments as `patchConsole` serializes them, and
-- the arguments themselves.
unfoldable pub log_patched : ℕ → Text → Text → Value → Value → Bridge → Bridge
log_patched now level message serialized args b0 =
    let crumbed = add_breadcrumb now level message b0 in
    let b =
      send_event now (text_eq level (text "error") || text_eq level (text "warn"))
        (field (text "type") (str (text "console")) (
          field (text "level") (str level)
            (field (text "message") (str message) (field (text "args") serialized end))))
        crumbed in
    record b { printed = b.printed ++ (level, args) ∷ [] }

unfoldable pub log : ℕ → Text → Text → Value → Value → Bridge → Bridge
log now level message serialized args b =
    if b.console_patched
    then log_patched now level message serialized args b
    else record b { printed = b.printed ++ (level, args) ∷ [] }

abbrev pub error_event : Value → Value → Value → Value → Fields
error_event message stack url route = field (text "type") (str (text "error")) (
    field (text "level") (str (text "error")) (
      field (text "message") message
        (field (text "stack") stack (field (text "url") url (field (text "route") route end)))))

-- The handlers of errors and of rejections that nothing handles; outside of the web there is no url
-- and no route.
unfoldable pub handle_error : ℕ → Value → Value → Value → Value → Bridge → Bridge
handle_error now message stack url route b =
    send_event now true (error_event message stack url route) b

-- `info` of `trackNavigation`, which is sent as it is.
pub record NavigationInfo : Type 0 where
  pub from : Value
  pub to : Text
  pub route : Value
  pub initiator : Text

unfoldable pub navigation_value : NavigationInfo → Value
navigation_value i = obj (
    field (text "from") i.from (
      field (text "to") (str i.to)
        (field (text "route") i.route (field (text "initiator") (str i.initiator) end))))

abbrev pub shown : Value → Text
shown (str s) = s
shown v = []

unfoldable pub navigation_event : Text → NavigationInfo → Fields
navigation_event message i = field (text "type") (str (text "navigation")) (
    field (text "level") (str (text "info")) (
      field (text "message") (str message) (
        field (text "url") (str i.to)
          (field (text "route") i.route (field (text "navigation") (navigation_value i) end)))))

unfoldable pub navigation_message : Text → NavigationInfo → Text
navigation_message from i =
    text "Navigation (" ++ (i.initiator ++ (text "): " ++ (from ++ (text " -> " ++ i.to))))

unfoldable pub track_navigation : ℕ → NavigationInfo → Bridge → Bridge
track_navigation now i b =
    if b.settings.enable_navigation
    then send_event now true
        (navigation_event (navigation_message (shown (nullish i.from (str (text "unknown")))) i) i)
        b
    else b

-- `a || b || 'unknown'`.
abbrev pub or_unknown : Value → Value → Value
or_unknown route url =
    if truthy route then route else if truthy url then url else str (text "unknown")

unfoldable pub pageview_event : Value → Value → Fields
pageview_event url route = field (text "type") (str (text "pageview")) (
    field (text "level") (str (text "info")) (
      field (text "message") (str (text "Pageview: " ++ shown (or_unknown route url)))
        (field (text "url") url (field (text "route") route end))))

-- `params.url ?? window.location.href`, and so the route; without a window the page is undefined.
unfoldable pub track_pageview : ℕ → Value × Value → Value → Value → Bridge → Bridge
track_pageview now (href, pathname) url route b =
    if b.settings.enable_pageview
    then send_event now false (pageview_event (nullish url href) (nullish route pathname)) b
    else b

unfoldable pub screenshot_event : Text → Text → Value → Value → Fields
screenshot_event mime body url route = field (text "type") (str (text "screenshot")) (
    field (text "level") (str (text "info")) (
      field (text "message") (str (text "Screenshot: " ++ shown (or_unknown route url))) (
        field (text "mime") (str mime) (
          field (text "data") (str body)
            (field (text "url") url (field (text "route") route end))))))

unfoldable pub send_screenshot : ℕ → Value × Value → Text → Text → Value → Value → Bridge → Bridge
send_screenshot now (href, pathname) mime body url route b =
    if b.settings.enable_screenshot
    then send_event now true
        (screenshot_event mime body (nullish url href) (nullish route pathname)) b
    else b

unfoldable pub disconnect : Bridge → Bridge
disconnect b = record b { console_patched = false; ws = Socket.disconnect b.ws }
