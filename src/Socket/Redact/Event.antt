-- ===== src/Socket/Redact/Event.antt =====
-- src/websocket.ts, `validateAndRedact` as a whole: which events pass, and what is in one that does.
use aria_bridge.Prelude.{
  ℕ, ◌≤◌, Text, text, text_eq, text_eq_of_ne, subst, take, length, ltb, ltb→lt, length-append,
  length-take, some, ◌∷◌, ◌++◌, arith, ◌≡◌, refl, ◌↔◌, ap, sym, ◌∙◌, ◌⊎◌, inl, inr, ◌≢◌, Bool-cases,
  All, All-get_elem?, get_elem?, ◌<◌, lower, take-take-append,
}
use aria_bridge.Value.{Value, undefined, str, arr, obj, Items, nil, cons, Fields, map_items, elems}
use aria_bridge.Value.Props.{get}
use aria_bridge.Socket.Redact.{
  redact_keys, redacted, redact_object, message_limit, truncation_mark, clip, redact_all, revise,
  redact_event, with_type, validate_and_redact,
}
use aria_bridge.Socket.Redact.Laws.{HidesWords, redact_object-HidesWords, or_else, get-redact_event}
use aria_bridge.Socket.Redact.Idempotence.{
  IsStable, clip-IsStable, redact_all-IsStable, revise_of_IsStable,
}

-- An object whose type is a text and not empty.
abbrev pub IsEvent : Value → Type 0
IsEvent (obj event) = (c : ℕ) × (s : Text) × (get (text "type") event ≡ str (c ∷ s))
IsEvent v = ⊥

with_type-eq-some :
    (v : Value) (event : Fields) {out : Value}
    → with_type v event ≡ some out
    → (c : ℕ) × (s : Text) × (v ≡ str (c ∷ s)) × (out ≡ obj (redact_event event))
unfolding with_type
with_type-eq-some (str (c ∷ s)) event e = (c, s, refl, cc)
with_type-eq-some _ event e = cc

redacted_of :
    (v : Value) {out : Value}
    → validate_and_redact v ≡ some out
    → (event : Fields) × (v ≡ obj event) × IsEvent (obj event) × (out ≡ obj (redact_event event))
unfolding validate_and_redact
redacted_of (obj event) e =
    let (c, s, typed, same) = with_type-eq-some (get (text "type") event) event e in
    (event, refl, (c, s, typed), same)
redacted_of _ e = cc

out_eq :
    (event out : Fields)
    → validate_and_redact (obj event) ≡ some (obj out)
    → out ≡ redact_event event
out_eq event out e = let (event', same', _, same) = redacted_of (obj event) e in ground arith

validate-some :
    (event : Fields)
    → IsEvent (obj event)
    → validate_and_redact (obj event) ≡ some (obj (redact_event event))
unfolding validate_and_redact with_type
validate-some event (c, s, e) = rw e

redact_event-IsEvent : (event : Fields) → IsEvent (obj event) → IsEvent (obj (redact_event event))
unfolding text_eq
redact_event-IsEvent event (c, s, e) = (c, s, get-redact_event (text "type") event ∙ e)

-- A value passes exactly when it is an object whose type is a text that is not empty, and what
-- comes out is again such an object.
pub validate_and_redact_iff :
    (v : Value)
    → IsEvent v ↔ ((out : Fields) × (validate_and_redact v ≡ some (obj out)) × IsEvent (obj out))
validate_and_redact_iff v = (passes v, λ r. IsEvent_of_some v r.1)
  where
    passes :
        (v : Value)
        → IsEvent v
        → (out : Fields) × (validate_and_redact v ≡ some (obj out)) × IsEvent (obj out)
    passes (obj event) h = (redact_event event, validate-some event h, redact_event-IsEvent event h)
    passes _ h = absurd h

    IsEvent_of_some : (v : Value) {out : Value} → validate_and_redact v ≡ some out → IsEvent v
    IsEvent_of_some v e = let (event, same, typed, _) = redacted_of v e in rw same typed

-- What an array of the event holds, item by item, once the event has passed.
abbrev pub HidesItems : Value → Type 0
HidesItems (arr xs) = All HidesWords (elems xs)
HidesItems v = Unit

map_redact-HidesWords :
    (xs : Items) → All HidesWords (elems (map_items (redact_object redact_keys) xs))
unfolding map_items
map_redact-HidesWords nil = tt
map_redact-HidesWords (cons v xs) = (redact_object-HidesWords v, map_redact-HidesWords xs)

redact_all-HidesItems : (v : Value) → HidesItems (or_else (redact_all v) v)
unfolding redact_all
redact_all-HidesItems (arr xs) = map_redact-HidesWords xs
redact_all-HidesItems _ = tt

passed-HidesItems :
    (v : Value) (out : Fields)
    → validate_and_redact v ≡ some (obj out)
    → HidesItems (get (text "args") out) × HidesItems (get (text "breadcrumbs") out)
unfolding text_eq
passed-HidesItems v out e =
    let (event, _, _, same) = redacted_of v e in
    let hidden =
      λ (j : Text) (w : Value) (q : get j (redact_event event) ≡ or_else (redact_all w) w).
        subst (λ (u : Value). HidesItems u) (sym q) (redact_all-HidesItems w) in
    let out_eq : out ≡ redact_event event = ground arith in
    rw out_eq (
      hidden (text "args") _ (get-redact_event (text "args") event),
      hidden (text "breadcrumbs") _ (get-redact_event (text "breadcrumbs") event),
    )

passed-HidesItems_at :
    (v : Value) (out : Fields) (name : Text)
    → validate_and_redact v ≡ some (obj out)
    → (name ≡ text "args") ⊎ (name ≡ text "breadcrumbs")
    → HidesItems (get name out)
passed-HidesItems_at v out name e (inl args) = rw args (passed-HidesItems v out e).0
passed-HidesItems_at v out name e (inr crumbs) = rw crumbs (passed-HidesItems v out e).1

-- In an event that has passed, an object that is an item of the array `args` or `breadcrumbs` does
-- not show the value of a property whose name holds "token", "secret" or "password" in any case:
-- such a property is missing or reads "[redacted]".
pub validate_and_redact-hides :
    (v : Value) (out fs : Fields) (xs : Items) (i : ℕ) (name k p q w : Text)
    → validate_and_redact v ≡ some (obj out)
    → (name ≡ text "args") ⊎ (name ≡ text "breadcrumbs")
    → get name out ≡ arr xs
    → get_elem? (elems xs) i ≡ some (obj fs)
    → (w ≡ text "token") ⊎ (w ≡ text "secret") ⊎ (w ≡ text "password")
    → lower k ≡ p ++ (w ++ q)
    → (get k fs ≡ undefined) ⊎ (get k fs ≡ redacted)
validate_and_redact-hides v out fs xs i name k p q w e which at item word holds =
    All-get_elem? HidesWords (elems xs) i
      (subst HidesItems at (passed-HidesItems_at v out name e which)) item k p q w word holds

clip_text :
    (s : Text)
    → (t : Text) × (or_else (clip (str s)) (str s) ≡ str t)
      × (length t ≤ 4012)
      × (take 4000 t ≡ take 4000 s)
      × ((t ≡ s) ⊎ (4000 < length s))
unfolding clip
clip_text s = elim (Bool-cases (ltb message_limit (length s))) [
  | inl long ↦
      let over = ltb→lt message_limit (length s) long in
      (
        take message_limit s ++ truncation_mark,
        rw long,
        omega (
          arith,
          length-append (take message_limit s) truncation_mark,
          length-take message_limit s,
        ),
        take-take-append message_limit s truncation_mark (omega arith),
        inr over,
      )
  | inr short ↦ (s, rw short, ground arith, refl, inl refl)
]

-- In an event that has passed, a message that was a text is a text of at most 4012 units with the
-- same first 4000 units, and it is the same text unless that had more than 4000.
pub validate_and_redact-message :
    (event out : Fields) (s : Text)
    → validate_and_redact (obj event) ≡ some (obj out)
    → get (text "message") event ≡ str s
    → (t : Text) × (get (text "message") out ≡ str t)
      × (length t ≤ 4012)
      × (take 4000 t ≡ take 4000 s)
      × ((t ≡ s) ⊎ (4000 < length s))
unfolding text_eq
validate_and_redact-message event out s e m =
    let (t, clipped, short, same, kept) = clip_text s in
    let read = get-redact_event (text "message") event in
    (t, rw (out_eq event out e, read, m) clipped, short, same, kept)

get-redact_event_ne :
    (event : Fields) (j : Text)
    → j ≢ text "message"
    → j ≢ text "args"
    → j ≢ text "breadcrumbs"
    → get j (redact_event event) ≡ get j event
get-redact_event_ne event j m a b =
    rw (get-redact_event j event, text_eq_of_ne _ j m, text_eq_of_ne _ j a, text_eq_of_ne _ j b)

-- An event that passes keeps every property but `message`, `args` and `breadcrumbs`.
pub validate_and_redact-keeps :
    (event out : Fields) (j : Text)
    → validate_and_redact (obj event) ≡ some (obj out)
    → j ≢ text "message"
    → j ≢ text "args"
    → j ≢ text "breadcrumbs"
    → get j out ≡ get j event
validate_and_redact-keeps event out j e m a b =
    rw (out_eq event out e) (get-redact_event_ne event j m a b)

redact_event-IsStable :
    (event : Fields)
    → IsStable clip (get (text "message") (redact_event event))
      × IsStable redact_all (get (text "args") (redact_event event))
      × IsStable redact_all (get (text "breadcrumbs") (redact_event event))
unfolding text_eq
redact_event-IsStable event = (
  subst (IsStable clip) (sym (get-redact_event (text "message") event)) (clip-IsStable _),
  subst (IsStable redact_all) (sym (get-redact_event (text "args") event)) (redact_all-IsStable _),
  subst (IsStable redact_all) (sym (get-redact_event (text "breadcrumbs") event))
      (redact_all-IsStable _),
)

redact_event_of_stable :
    (o : Fields)
    → IsStable clip (get (text "message") o)
    → IsStable redact_all (get (text "args") o)
    → IsStable redact_all (get (text "breadcrumbs") o)
    → redact_event o ≡ o
unfolding redact_event clip redact_all
redact_event_of_stable o m a b =
    let third = revise (text "breadcrumbs") redact_all in
    let second = revise (text "args") redact_all in
    ap (λ x. third (second x)) (revise_of_IsStable (text "message") clip o refl m)
    ∙ ap third (revise_of_IsStable (text "args") redact_all o refl a)
    ∙ revise_of_IsStable (text "breadcrumbs") redact_all o refl b

redact_event_idem : (event : Fields) → redact_event (redact_event event) ≡ redact_event event
redact_event_idem event =
    let (m, a, b) = redact_event-IsStable event in redact_event_of_stable (redact_event event) m a b

-- An event that has passed passes again, unchanged.
pub validate_and_redact_idem :
    (v out : Value) → validate_and_redact v ≡ some out → validate_and_redact out ≡ some out
validate_and_redact_idem v out e =
    let (event, _, typed, same) = redacted_of v e in
    rw same (
      validate-some (redact_event event) (redact_event-IsEvent event typed)
      ∙ ap (λ o. some (obj o)) (redact_event_idem event))
