-- ===== src/Mcp/Server/Announcements.antt =====
-- src/mcp/server.ts: which resources are announced to have changed when an event comes.
use aria_bridge.Prelude.{
  ℕ, ◌+◌, Bool, true, false, ◌||◌, Text, text, text_eq, length, filter, filter-append,
  length-append, ◌⊎◌, append-nil, get_last?, List, [], ◌∷◌, ◌++◌, includes, if◌then◌else◌, if_false,
  ◌≡◌, refl, ap, subst, sym, ◌∙◌, inl, inr,
}
use aria_bridge.Value.{Number, Value, bool, nat, obj, Fields}
use aria_bridge.Value.Props.{get, put, get-put}
use aria_bridge.Value.Numbers.{exceeds, trunc}
use aria_bridge.Mcp.EventBuffer.{
  EventBuffer, stamp, push, is_text, has_type, slice_last, network, navigation, latest_screenshot,
}
use aria_bridge.Mcp.EventBuffer.Queries.{latest_screenshot_lem}
use aria_bridge.Mcp.Validation.{ok}
use aria_bridge.Mcp.Server.{
  McpServer, project_metadata, updated_uris, on_bridge_event, read_connected, read_resource,
  screenshot_or_none, event_list, to_json_content,
}

-- The resources, from the tests of the type.
abbrev uris : (a b c d : Bool) → List Text
uris a b c d =
    (text "bridge://events/recent" ∷ text "bridge://stats" ∷ [])
    ++ ((if a then text "bridge://events/errors" ∷ [] else [])
        ++ ((if b then text "bridge://events/network" ∷ [] else [])
            ++ ((if c then text "bridge://events/navigation" ∷ [] else [])
                ++ (if d then text "bridge://events/screenshot" ∷ [] else []))))

network-off :
    (a b c d : Bool) → includes (uris a b c d) (text "bridge://events/network") ≡ false → b ≡ false
unfolding text_eq includes
network-off a false c d e = refl
network-off true true c d e = cc
network-off false true c d e = cc

navigation-off :
    (a b c d : Bool)
    → includes (uris a b c d) (text "bridge://events/navigation") ≡ false
    → c ≡ false
unfolding text_eq includes
navigation-off a b false d e = refl
navigation-off true true true d e = cc
navigation-off true false true d e = cc
navigation-off false true true d e = cc
navigation-off false false true d e = cc

screenshot-off :
    (a b c d : Bool)
    → includes (uris a b c d) (text "bridge://events/screenshot") ≡ false
    → d ≡ false
unfolding text_eq includes
screenshot-off a b c false e = refl
screenshot-off true true true true e = cc
screenshot-off true true false true e = cc
screenshot-off true false true true e = cc
screenshot-off true false false true e = cc
screenshot-off false true true true e = cc
screenshot-off false true false true e = cc
screenshot-off false false true true e = cc
screenshot-off false false false true e = cc

get_type-stamp : (id : ℕ) (e : Fields) → get (text "type") (stamp id e) ≡ get (text "type") e
unfolding stamp text_eq
get_type-stamp id e = get-put (text "__id") (text "type") (nat id) e

-- An event that has not the property leaves the list of those that have it, while there is room.
filter-push :
    (p : Fields → Bool) (event : Fields) (b : EventBuffer)
    → exceeds (length b.events + 1) b.limit ≡ false
    → p (stamp (b.counter + 1) event) ≡ false
    → filter p (push event b).0.events ≡ filter p b.events
unfolding push
filter-push p event b room no_match =
    let x = stamp (b.counter + 1) event in
    let more = b.events ++ x ∷ [] in
    let fits : exceeds (length more) b.limit ≡ false =
      ap (λ n. exceeds n b.limit) (length-append b.events (x ∷ [])) ∙ room in
    let alone : filter p (x ∷ []) ≡ [] = rw no_match refl in
    ap (filter p) (if_false (slice_last (trunc b.limit) more) more fits)
    ∙ filter-append p b.events (x ∷ [])
    ∙ ap (λ ys. filter p b.events ++ ys) alone
    ∙ append-nil (filter p b.events)

-- The resources that show events of some types.
abbrev pub IsByType : Text → Type 0
IsByType uri =
    (uri ≡ text "bridge://events/network")
    ⊎ (uri ≡ text "bridge://events/navigation")
    ⊎ (uri ≡ text "bridge://events/screenshot")

module _ (event : Fields) (b : EventBuffer)
    (room : exceeds (length b.events + 1) b.limit ≡ false) where
  is_text-stamp :
      (kind : Text)
      → is_text kind (get (text "type") event) ≡ false
      → has_type kind (stamp (b.counter + 1) event) ≡ false
  is_text-stamp kind e = ap (is_text kind) (get_type-stamp (b.counter + 1) event) ∙ e

  network-push :
      includes (updated_uris (get (text "type") event)) (text "bridge://events/network") ≡ false
      → network 50 (push event b).0 ≡ network 50 b
  unfolding network updated_uris
  network-push quiet =
      let kind = get (text "type") event in
      let off =
        network-off (is_text (text "error") kind) (is_text (text "network") kind)
          (is_text (text "navigation") kind || is_text (text "pageview") kind)
          (is_text (text "screenshot") kind) quiet in
      ap (slice_last 50)
        (filter-push (has_type (text "network")) event b room (is_text-stamp (text "network") off))

  navigation-push :
      includes (updated_uris (get (text "type") event)) (text "bridge://events/navigation") ≡ false
      → navigation 50 (push event b).0 ≡ navigation 50 b
  unfolding navigation updated_uris
  navigation-push quiet =
      let kind = get (text "type") event in
      let off =
        navigation-off (is_text (text "error") kind) (is_text (text "network") kind)
          (is_text (text "navigation") kind || is_text (text "pageview") kind)
          (is_text (text "screenshot") kind) quiet in
      ap (slice_last 50) (
        filter-push (λ e. has_type (text "navigation") e || has_type (text "pageview") e) event b
          room
          (ap (λ v. is_text (text "navigation") v || is_text (text "pageview") v)
              (get_type-stamp (b.counter + 1) event)
            ∙ off))

  screenshot-push :
      includes (updated_uris (get (text "type") event)) (text "bridge://events/screenshot") ≡ false
      → latest_screenshot (push event b).0 ≡ latest_screenshot b
  unfolding updated_uris
  screenshot-push quiet =
      let kind = get (text "type") event in
      let off =
        screenshot-off (is_text (text "error") kind) (is_text (text "network") kind)
          (is_text (text "navigation") kind || is_text (text "pageview") kind)
          (is_text (text "screenshot") kind) quiet in
      latest_screenshot_lem (push event b).0
      ∙ ap get_last? (
          filter-push (has_type (text "screenshot")) event b room
            (is_text-stamp (text "screenshot") off))
      ∙ sym (latest_screenshot_lem b)

module _ (to_number : Value → Number) (to_key : Value → Text) (first : Text → Value) where
  read_connected-unchanged :
      (uri : Text) (event : Fields) (b : EventBuffer)
      → IsByType uri
      → exceeds (length b.events + 1) b.limit ≡ false
      → includes (updated_uris (get (text "type") event)) uri ≡ false
      → read_connected to_number to_key first uri (push event b).0
        ≡ read_connected to_number to_key first uri b
  unfolding read_connected text_eq
  read_connected-unchanged uri event b which room = go uri which
    where
      Goal : Text → Type 0
      Goal u =
          includes (updated_uris (get (text "type") event)) u ≡ false
          → read_connected to_number to_key first u (push event b).0
            ≡ read_connected to_number to_key first u b

      go : (u : Text) → IsByType u → Goal u
      go u (inl e) = subst Goal (sym e) (λ q.
          ap (λ es. ok (to_json_content (text "bridge://events/network") (event_list es)))
            (network-push event b room q))
      go u (inr (inl e)) = subst Goal (sym e) (λ q.
          ap (λ es. ok (to_json_content (text "bridge://events/navigation") (event_list es)))
            (navigation-push event b room q))
      go u (inr (inr e)) = subst Goal (sym e) (λ q.
          ap (λ o. ok (to_json_content (text "bridge://events/screenshot") (screenshot_or_none o)))
            (screenshot-push event b room q))

  -- An event that a connected server takes, while its buffer has room, and does not announce for one
  -- of the resources that show network events, navigation or the last screenshot, leaves what that
  -- resource reads as it was.
  pub on_bridge_event-announces :
      (uri : Text) (event : Fields) (s : McpServer)
      → IsByType uri
      → s.connected ≡ true
      → exceeds (length s.buffer.events + 1) s.buffer.limit ≡ false
      → includes (updated_uris (get (text "type") event)) uri ≡ false
      → read_resource to_number to_key first uri (on_bridge_event event s)
        ≡ read_resource to_number to_key first uri s
  unfolding on_bridge_event read_resource
  on_bridge_event-announces uri event s which on room quiet = rw on (
      let meta = obj (put (text "connected") (bool true) (project_metadata s.config.meta)) in
      ap
        (λ r.
          if text_eq uri (text "bridge://metadata")
          then ok (to_json_content (text "bridge://metadata") meta)
          else r)
        (read_connected-unchanged uri event s.buffer which room quiet))
