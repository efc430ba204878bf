-- ===== src/Socket/Redact/Laws.antt =====
-- Redaction hides the values of sensitive names, keeps all else, and does nothing a second time.
use aria_bridge.Prelude.{
  true, Text, text, text_eq, text_eq_iff, lower, contains-append, if◌then◌else◌, Option, none, some,
  List, ◌++◌, arith, ◌≡◌, refl, ◌⊎◌, ◌≢◌,
}
use aria_bridge.Value.{Value, undefined, obj, Fields, end, field}
use aria_bridge.Value.Props.{get, has, get-put, put-get_self, has_of_get}
use aria_bridge.Socket.Redact.{
  redact_keys, redacted, is_sensitive, redact_fields, redact_object, clip, redact_all, write,
  revise, redact_event,
}

pub get-redact_fields :
    (keys : List Text) (k : Text) (fs : Fields)
    → get k (redact_fields keys fs)
      ≡ (if has k fs then (if is_sensitive keys k then redacted else get k fs) else undefined)
unfolding redact_fields get has
get-redact_fields keys k end = refl
get-redact_fields keys k (field j v fs) =
    ground (arith, text_eq_iff j k, get-redact_fields keys k fs)

-- A name with a listed word in it, in any case, is sensitive.
pub is_sensitive_of_word :
    (k p q : Text) (w : Text)
    → (w ≡ text "token") ⊎ (w ≡ text "secret") ⊎ (w ≡ text "password")
    → lower k ≡ p ++ (w ++ q)
    → is_sensitive redact_keys k ≡ true
unfolding is_sensitive
is_sensitive_of_word k p q w which e = ground (arith, contains-append p w q)

-- The items that `redact_object` meets, the arrays aside: what an object keeps and what it hides.
abbrev pub HidesWords : Value → Type 0
HidesWords (obj fs) =
    (k p q w : Text)
    → (w ≡ text "token") ⊎ (w ≡ text "secret") ⊎ (w ≡ text "password")
    → lower k ≡ p ++ (w ++ q)
    → (get k fs ≡ undefined) ⊎ (get k fs ≡ redacted)
HidesWords v = Unit

pub redact_object-HidesWords : (v : Value) → HidesWords (redact_object redact_keys v)
unfolding redact_object
redact_object-HidesWords (obj fs) = λ k p q w which e.
    ground (arith, get-redact_fields redact_keys k fs, is_sensitive_of_word k p q w which e)
redact_object-HidesWords _ = tt

abbrev pub or_else : Option Value → Value → Value
or_else none v = v
or_else (some w) v = w

get-write :
    (name j : Text) (r : Option Value) (o : Fields)
    → get j (write name r o) ≡ (if text_eq name j then or_else r (get name o) else get j o)
get-write name j none o = ground (arith, text_eq_iff name j)
get-write name j (some v) o = get-put name j v o

pub get-revise :
    (name j : Text) (f : Value → Option Value) (o : Fields)
    → get j (revise name f o)
      ≡ (if text_eq name j then or_else (f (get name o)) (get name o) else get j o)
unfolding revise
get-revise name j f o = get-write name j (f (get name o)) o

-- A write of what stands there already changes nothing.
pub write-fixed :
    (name : Text) (r : Option Value) (o : Fields)
    → get name o ≢ undefined
    → or_else r (get name o) ≡ get name o
    → write name r o ≡ o
write-fixed name none o d e = refl
write-fixed name (some v) o d e = rw e (put-get_self name o (has_of_get name o d))

-- What each property holds after the three writes.
pub get-redact_event :
    (j : Text) (event : Fields)
    → get j (redact_event event) ≡ (
        if text_eq (text "message") j
        then or_else (clip (get (text "message") event)) (get (text "message") event)
        else if text_eq (text "args") j
        then or_else (redact_all (get (text "args") event)) (get (text "args") event)
        else if text_eq (text "breadcrumbs") j
        then or_else (redact_all (get (text "breadcrumbs") event)) (get (text "breadcrumbs") event)
        else get j event)
unfolding redact_event text_eq
get-redact_event j event = ground (
  arith,
  text_eq_iff (text "message") j,
  text_eq_iff (text "args") j,
  text_eq_iff (text "breadcrumbs") j,
  get-revise (text "message") j clip event,
  get-revise (text "args") j redact_all (revise (text "message") clip event),
  get-revise (text "message") (text "args") clip event,
  get-revise (text "message") (text "breadcrumbs") clip event,
  get-revise (text "args") (text "breadcrumbs") redact_all (revise (text "message") clip event),
  get-revise (text "breadcrumbs") j redact_all
      (revise (text "args") redact_all (revise (text "message") clip event)),
)
