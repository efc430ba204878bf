-- ===== src/Mcp/Validation/Arguments.antt =====
-- src/mcp/validation.ts: what the arguments of a tool are, once they have been checked.
use aria_bridge.Prelude.{
  ◌<◌, true, false, Text, text, lower, includes, if◌then◌else◌, Bool-cases, Option, none, some,
  List, [], ◌∷◌, ◌≡◌, refl, ◌≢◌, inl, inr, arith, ap, sym, ◌∙◌, subst, All,
}
use aria_bridge.Value.{
  Number, finite, infinite, nan, Value, undefined, null, bool, num, str, arr, obj, Fields, truthy,
}
use aria_bridge.Value.Props.{get}
use aria_bridge.Mcp.Validation.{
  Result, ok, throws, ◌>>=◌, levels, caps, filters, prop, normalize_array, normalize_one,
  SubscribeArgs, validate_subscribe_args, is_positive, number_of, coerce_positive_int, ControlArgs,
  validate_control_args, as_action, is_undefined, when_truthy,
}
use aria_bridge.Mcp.Validation.Arrays.{IsDistinct, normalize_array-words}

-- Above zero and below infinity.
abbrev pub IsPositive : Number → Type 0
IsPositive (finite false mantissa shift) = 0 < mantissa
IsPositive n = ⊥

is_positive-IsPositive : (n : Number) → is_positive n ≡ true → IsPositive n
is_positive-IsPositive (finite false mantissa shift) h = ground arith
is_positive-IsPositive (finite true mantissa shift) h = cc
is_positive-IsPositive (infinite negative) h = cc
is_positive-IsPositive nan h = cc

coerce-IsPositive :
    (to_number : Value → Number) (v : Value) (name : Text) (n : Number)
    → coerce_positive_int to_number v name ≡ ok n
    → IsPositive n
unfolding coerce_positive_int
coerce-IsPositive to_number v name n e = elim (Bool-cases (is_positive (number_of to_number v))) [
  | inl pos ↦
      let same : number_of to_number v ≡ n = ground arith in
      is_positive-IsPositive n (ap is_positive (sym same) ∙ pos)
  | inr neg ↦ absurd (ground arith)
]

as_action-eq-ok :
    (v : Value) (action : Text) → as_action v ≡ ok action → (v ≡ str action) × (action ≢ [])
as_action-eq-ok (str (c ∷ s)) action e = ground arith
as_action-eq-ok (str []) action e = cc
as_action-eq-ok undefined action e = cc
as_action-eq-ok null action e = cc
as_action-eq-ok (bool b) action e = cc
as_action-eq-ok (num n) action e = cc
as_action-eq-ok (arr xs) action e = cc
as_action-eq-ok (obj fs) action e = cc

-- A run that went well went well at each step.
bind_ok {ℓ κ} :
    {A : Type ℓ} {B : Type κ} (r : Result A) (f : A → Result B) {b : B}
    → (r >>= f) ≡ ok b
    → (a : A) × (r ≡ ok a) × (f a ≡ ok b)
bind_ok (ok a) f e = (a, refl, e)
bind_ok (throws m) f e = cc

timeout-IsPositive :
    (to_number : Value → Number) (v : Value) (name : Text) (n : Number)
    → (if is_undefined v then ok (finite false 10000 0) else coerce_positive_int to_number v name)
      ≡ ok n
    → IsPositive n
timeout-IsPositive to_number v name n e = elim (Bool-cases (is_undefined v)) [
  | inl missing ↦
      let same : finite false 10000 0 ≡ n = ground arith in subst IsPositive same (omega arith)
  | inr given ↦ coerce-IsPositive to_number v name n (rw given at e)
]

-- Checked control arguments come from an object, name an action that is not empty, pass its `args` on
-- and have a time limit that is above zero and finite.
pub validate_control_args_sound :
    (to_number : Value → Number) (raw : Value) (c : ControlArgs)
    → validate_control_args to_number raw ≡ ok c
    → (fs : Fields) × (raw ≡ obj fs)
      × (get (text "action") fs ≡ str c.action)
      × (c.action ≢ [])
      × (c.args ≡ get (text "args") fs)
      × IsPositive c.timeout_ms
unfolding validate_control_args
validate_control_args_sound to_number (obj fs) c e =
    let (action, e1, e2) = bind_ok (as_action (get (text "action") fs)) _ e in
    let (timeout_ms, e3, e4) =
      bind_ok
        (if is_undefined (get (text "timeoutMs") fs)
          then ok (finite false 10000 0)
          else coerce_positive_int to_number (get (text "timeoutMs") fs) (text "timeoutMs"))
        _ e2 in
    let (named, full) = as_action-eq-ok (get (text "action") fs) action e1 in
    let pos =
      timeout-IsPositive to_number (get (text "timeoutMs") fs) (text "timeoutMs") timeout_ms e3 in
    let same_action : action ≡ c.action = cc e4 in
    let same_args : get (text "args") fs ≡ c.args = cc e4 in
    let same_time : timeout_ms ≡ c.timeout_ms = cc e4 in
    (
      fs,
      refl,
      named ∙ ap str same_action,
      subst (λ a. a ≢ []) same_action full,
      sym same_args,
      subst IsPositive same_time pos,
    )
validate_control_args_sound to_number (arr xs) c e = cc
validate_control_args_sound to_number undefined c e = cc
validate_control_args_sound to_number null c e = cc
validate_control_args_sound to_number (bool b) c e = cc
validate_control_args_sound to_number (num n) c e = cc
validate_control_args_sound to_number (str s) c e = cc

normalize_one-word :
    (v : Value) (allowed : List Text) (name out : Text)
    → normalize_one v allowed name ≡ ok out
    → includes allowed out ≡ true
unfolding normalize_one
normalize_one-word (str s) allowed name out e = elim (Bool-cases (includes allowed (lower s))) [
  | inl inc ↦ let same : lower s ≡ out = ground arith in rw (← same) inc
  | inr out_of ↦ absurd (ground arith)
]
normalize_one-word undefined allowed name out e = cc
normalize_one-word null allowed name out e = cc
normalize_one-word (bool b) allowed name out e = cc
normalize_one-word (num n) allowed name out e = cc
normalize_one-word (arr xs) allowed name out e = cc
normalize_one-word (obj fs) allowed name out e = cc

-- A list of distinct words that are allowed.
abbrev pub AreWords : List Text → List Text → Type 0
AreWords allowed ys = All (λ y. includes allowed y ≡ true) ys × IsDistinct ys

abbrev pub Each {ℓ} : {A : Type ℓ} → (A → Type 0) → Option A → Type 0
Each P none = Unit
Each P (some a) = P a

when_truthy-Each {ℓ} :
    {A : Type ℓ} (P : A → Type 0) (v : Value) (r : Result A) (o : Option A)
    → ((a : A) → r ≡ ok a → P a)
    → when_truthy v r ≡ ok o
    → Each P o
when_truthy-Each P v r o holds e = elim (Bool-cases (truthy v)) [
  | inl given ↦
      let (a, e1, e2) = bind_ok r (λ a. ok (some a)) (rw given at e) in
      let same : some a ≡ o = cc e2 in subst (Each P) same (holds a e1)
  | inr missing ↦ let same : none ≡ o = cc (rw missing at e) in subst (Each P) same tt
]

-- Checked subscription arguments hold allowed words alone: levels and, where they are given,
-- capabilities, each word once, and a filter.
pub validate_subscribe_args_sound :
    (raw : Value) (s : SubscribeArgs)
    → validate_subscribe_args raw ≡ ok s
    → AreWords levels s.levels
      × Each (AreWords caps) s.capabilities
      × Each (λ f. includes filters f ≡ true) s.llm_filter
unfolding validate_subscribe_args
validate_subscribe_args_sound raw s e =
    let (ls, e1, rest) = bind_ok (normalize_array _ levels (text "levels")) _ e in
    let cap = prop (text "capabilities") raw in
    let filt = prop (text "llm_filter") raw in
    let (cs, e2, rest') =
      bind_ok (when_truthy cap (normalize_array cap caps (text "capabilities"))) _ rest in
    let (f, e3, last) =
      bind_ok (when_truthy filt (normalize_one filt filters (text "llm_filter"))) _ rest' in
    let same : record { levels = ls; capabilities = cs; llm_filter = f } ≡ s = cc last in
    subst
      (λ (t : SubscribeArgs).
        AreWords levels t.levels
        × Each (AreWords caps) t.capabilities
        × Each (λ g. includes filters g ≡ true) t.llm_filter)
      same
      (
        normalize_array-words levels (text "levels") _ ls e1,
        when_truthy-Each (AreWords caps) cap (normalize_array cap caps (text "capabilities")) cs
            (normalize_array-words caps (text "capabilities") cap) e2,
        when_truthy-Each (λ g. includes filters g ≡ true) filt
            (normalize_one filt filters (text "llm_filter")) f
            (normalize_one-word filt filters (text "llm_filter")) e3,
      )
