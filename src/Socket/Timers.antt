-- ===== src/Socket/Timers.antt =====
-- src/websocket.ts: at every moment a timer that runs is the one that its field holds.
use aria_bridge.Prelude.{
  ℕ, suc, ◌+◌, ◌≤◌, ◌<◌, Bool, true, false, ◌==◌, if◌then◌else◌, Bool-cases, Option-cases, Option,
  none, some, List, [], ◌∷◌, ◌≡◌, refl, ◌≢◌, inl, inr, arith, ◌∙◌, subst, ap,
}
use aria_bridge.Socket.State.{TimerKind, reconnect, ping, deadline, Timer}
use aria_bridge.Socket.Operations.{set_timer, clear_id, clear_timer}

-- The field that holds the timer of a kind.
abbrev pub own : Option ℕ → Option ℕ → Option ℕ → TimerKind → Option ℕ
own r p d reconnect = r
own r p d ping = p
own r p d deadline = d

-- Each timer that runs is the one that the field of its kind holds; the newest stands first, and
-- its number is below `n`.
abbrev pub Owned : (TimerKind → Option ℕ) → ℕ → List Timer → Type 0
Owned owner n [] = Unit
Owned owner n (t ∷ ts) = (owner t.kind ≡ some t.id) × (t.id < n) × Owned owner t.id ts

pub Owned-weaken :
    (owner : TimerKind → Option ℕ) (m n : ℕ) (ts : List Timer)
    → m ≤ n
    → Owned owner m ts
    → Owned owner n ts
Owned-weaken owner m n [] h o = tt
Owned-weaken owner m n (t ∷ ts) h (e, lt, o) = (e, omega arith, o)

-- Owners may change at the kinds of which no timer runs.
pub Owned-clear_id :
    (owner owner' : TimerKind → Option ℕ) (n id : ℕ) (ts : List Timer)
    → ((k : TimerKind) → owner k ≢ some id → owner' k ≡ owner k)
    → Owned owner n ts
    → Owned owner' n (clear_id id ts)
unfolding clear_id
Owned-clear_id owner owner' n id [] same o = tt
Owned-clear_id owner owner' n id (t ∷ ts) same (e, lt, o) = elim (Bool-cases (t.id == id)) [
  | inl hit ↦ rw hit (
      Owned-weaken owner' t.id n (clear_id id ts) (omega arith)
        (Owned-clear_id owner owner' t.id id ts same o))
  | inr miss ↦
      rw miss
        (same t.kind (λ h. ground arith) ∙ e, lt, Owned-clear_id owner owner' t.id id ts same o)
]

Owned-change :
    (owner owner' : TimerKind → Option ℕ) (n : ℕ) (ts : List Timer)
    → ((k : TimerKind) → owner k ≢ none → owner' k ≡ owner k)
    → Owned owner n ts
    → Owned owner' n ts
Owned-change owner owner' n [] same o = tt
Owned-change owner owner' n (t ∷ ts) same (e, lt, o) =
    (same t.kind (λ h. ground arith) ∙ e, lt, Owned-change owner owner' t.id ts same o)

-- Clearing the timer of a kind lets its field change.
pub Owned-clear_timer :
    (owner owner' : TimerKind → Option ℕ) (n : ℕ) (k : TimerKind) (ts : List Timer)
    → ((j : TimerKind) → j ≢ k → owner' j ≡ owner j)
    → Owned owner n ts
    → Owned owner' n (clear_timer (owner k) ts)
Owned-clear_timer owner owner' n k ts same o = elim (Option-cases (owner k)) [
  | inl unset ↦
      rw unset (Owned-change owner owner' n ts (λ j h. same j (λ e. h (ap owner e ∙ unset))) o)
  | inr (id, held) ↦
      rw held (Owned-clear_id owner owner' n id ts (λ j h. same j (λ e. h (ap owner e ∙ held))) o)
]

-- A timer of a kind of which none runs may be set.
pub Owned-set_timer :
    (owner owner' : TimerKind → Option ℕ) (n delay : ℕ) (k : TimerKind) (ts : List Timer)
    → owner k ≡ none
    → owner' k ≡ some n
    → ((j : TimerKind) → j ≢ k → owner' j ≡ owner j)
    → Owned owner n ts
    → Owned owner' (n + 1) (set_timer k delay n ts)
Owned-set_timer owner owner' n delay k ts unset set same o = (
  set,
  omega arith,
  Owned-change owner owner' n ts (λ j h. same j (λ e. h (ap owner e ∙ unset))) o,
)

abbrev same_kind : TimerKind → TimerKind → Bool
same_kind reconnect reconnect = true
same_kind ping ping = true
same_kind deadline deadline = true
same_kind _ _ = false

-- How many timers of a kind run.
pub count_kind : TimerKind → List Timer → ℕ
count_kind k [] = 0
count_kind k (t ∷ ts) = if same_kind t.kind k then suc (count_kind k ts) else count_kind k ts

eq_of_same_kind : (j k : TimerKind) → same_kind j k ≡ true → j ≡ k
eq_of_same_kind reconnect k h = ground arith
eq_of_same_kind ping k h = ground arith
eq_of_same_kind deadline k h = ground arith

count-zero :
    (owner : TimerKind → Option ℕ) (n id : ℕ) (k : TimerKind) (ts : List Timer)
    → owner k ≡ some id
    → n ≤ id
    → Owned owner n ts
    → count_kind k ts ≡ 0
unfolding count_kind
count-zero owner n id k [] held le o = refl
count-zero owner n id k (t ∷ ts) held le (e, lt, o) = elim (Bool-cases (same_kind t.kind k)) [
  | inl same ↦
      let e' = subst (λ j. owner j ≡ some t.id) (eq_of_same_kind t.kind k same) e in
      absurd (ground arith)
  | inr other ↦ rw other (count-zero owner t.id id k ts held (omega arith) o)
]

pub count_kind-le-one :
    (owner : TimerKind → Option ℕ) (n : ℕ) (k : TimerKind) (ts : List Timer)
    → Owned owner n ts
    → count_kind k ts ≤ 1
unfolding count_kind
count_kind-le-one owner n k [] o = omega arith
count_kind-le-one owner n k (t ∷ ts) (e, lt, o) = elim (Bool-cases (same_kind t.kind k)) [
  | inl same ↦
      let e' = subst (λ j. owner j ≡ some t.id) (eq_of_same_kind t.kind k same) e in
      rw same (omega (arith, count-zero owner t.id t.id k ts e' (omega arith) o))
  | inr other ↦ rw other (count_kind-le-one owner t.id k ts o)
]

-- With no field set no timer runs.
pub Owned-none :
    (owner : TimerKind → Option ℕ) (n : ℕ) (ts : List Timer)
    → ((k : TimerKind) → owner k ≡ none)
    → Owned owner n ts
    → ts ≡ []
Owned-none owner n [] unset o = refl
Owned-none owner n (t ∷ ts) unset (e, lt, o) = let u = unset t.kind in absurd (ground arith)

-- The owners of two objects agree but at one kind.
pub own-reconnect :
    (r r' p d : Option ℕ) (j : TimerKind) → j ≢ reconnect → own r' p d j ≡ own r p d j
own-reconnect r r' p d reconnect h = absurd (h refl)
own-reconnect r r' p d _ h = refl

pub own-ping : (r p p' d : Option ℕ) (j : TimerKind) → j ≢ ping → own r p' d j ≡ own r p d j
own-ping r p p' d ping h = absurd (h refl)
own-ping r p p' d _ h = refl

pub own-deadline : (r p d d' : Option ℕ) (j : TimerKind) → j ≢ deadline → own r p d' j ≡ own r p d j
own-deadline r p d d' deadline h = absurd (h refl)
own-deadline r p d d' _ h = refl
