-- ===== src/Socket/Redact/Tests.antt =====
-- Redaction at concrete events.
use aria_bridge.Prelude.{
  Text, text, lower, contains, decimal, text_eq, none, some, [], ◌∷◌, ◌≡◌, refl, ◌⊎◌, inl, ◌↔◌,
  length, take, ◌≤◌, ◌<◌,
}
use aria_bridge.Value.{undefined, nat, str, arr, obj, items, Fields, end, field, map_items}
use aria_bridge.Value.Props.{get, put}
use aria_bridge.Socket.Redact.{
  redacted, is_sensitive, redact_fields, redact_items, redact_object, clip, redact_all, revise,
  redact_event, with_type, validate_and_redact,
}
use aria_bridge.Socket.Redact.Event.{
  IsEvent, validate_and_redact_iff, validate_and_redact-hides, validate_and_redact-message,
}

code : Unit {0}
unfolding lower contains decimal text_eq map_items get put is_sensitive redact_fields redact_items
    redact_object clip redact_all revise redact_event with_type validate_and_redact
code = tt

abbrev login : Fields
login = field (text "user") (str (text "ann")) (field (text "AuthToken") (str (text "t0")) end)

abbrev hidden_login : Fields
hidden_login = field (text "user") (str (text "ann")) (field (text "AuthToken") redacted end)

abbrev event_of : Fields → Fields
event_of item = field (text "type") (str (text "console")) (
    field (text "message") (str (text "hi"))
      (field (text "args") (arr (items (str (text "token") ∷ obj item ∷ []))) end))

passes : validate_and_redact (obj (event_of login)) ≡ some (obj (event_of hidden_login))
unfolding code
passes = refl

-- Nested objects are not searched.
nested_stays :
    validate_and_redact (obj (event_of (field (text "body") (obj login) end)))
    ≡ some (obj (event_of (field (text "body") (obj login) end)))
unfolding code
nested_stays = refl

rejects :
    (validate_and_redact (str (text "error")) ≡ none)
    × (validate_and_redact (arr (items [])) ≡ none)
    × (validate_and_redact (obj (field (text "type") (str []) end)) ≡ none)
    × (validate_and_redact (obj (field (text "type") (nat 1) end)) ≡ none)
unfolding code
rejects = (refl, refl, refl, refl)

validate_and_redact_iff_example : IsEvent (obj (event_of login)) ↔ (
    (out : Fields) × (validate_and_redact (obj (event_of login)) ≡ some (obj out))
    × IsEvent (obj out))
validate_and_redact_iff_example = validate_and_redact_iff (obj (event_of login))

validate_and_redact-hides_example :
    (get (text "AuthToken") hidden_login ≡ undefined)
    ⊎ (get (text "AuthToken") hidden_login ≡ redacted)
unfolding code
validate_and_redact-hides_example =
    validate_and_redact-hides (obj (event_of login)) (event_of hidden_login) hidden_login
      (items (str (text "token") ∷ obj hidden_login ∷ [])) 1 (text "args") (text "AuthToken")
      (text "auth") [] (text "token") passes (inl refl) refl refl (inl refl) refl

validate_and_redact-message_example :
    (t : Text) × (get (text "message") (event_of hidden_login) ≡ str t)
    × (length t ≤ 4012)
    × (take 4000 t ≡ take 4000 (text "hi"))
    × ((t ≡ text "hi") ⊎ (4000 < length (text "hi")))
unfolding code
validate_and_redact-message_example =
    validate_and_redact-message (event_of login) (event_of hidden_login) (text "hi") passes refl
