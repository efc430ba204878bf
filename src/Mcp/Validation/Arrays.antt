-- ===== src/Mcp/Validation/Arrays.antt =====
-- src/mcp/validation.ts, `normalizeArray`: what it accepts, what it returns, and that it returns what
-- it would return again.
use aria_bridge.Prelude.{
  Bool, true, false, ◌||◌, Text, text_eq, text_eq_iff, text_eq_refl, lower, lower_idem, includes,
  any, All, All-append, Bool-cases, List, [], ◌∷◌, ◌++◌, map, append_assoc, append-nil, ◌≡◌, refl,
  ◌↔◌, inl, inr, arith, ap, sym, ◌∙◌, subst,
}
use aria_bridge.Value.{
  Value, undefined, null, bool, num, str, arr, obj, Items, nil, cons, items, elems,
}
use aria_bridge.Mcp.Validation.{ok, add_new, normalize_items, normalize_array}

-- A text that is an allowed word, in any case.
abbrev pub IsAllowed : List Text → Value → Type 0
IsAllowed allowed v = (t : Text) × (v ≡ str t) × (includes allowed (lower t) ≡ true)

includes-append :
    (xs ys : List Text) (t : Text) → includes (xs ++ ys) t ≡ (includes xs t || includes ys t)
unfolding includes
includes-append [] ys t = refl
includes-append (x ∷ xs) ys t = ground (arith, includes-append xs ys t)

pub includes-add_new :
    (u t : Text) (xs : List Text) → includes (add_new u xs) t ≡ (includes xs t || text_eq u t)
includes-add_new u t xs = elim (Bool-cases (includes xs u)) [
  | inl old ↦ rw old (elim (Bool-cases (text_eq u t)) [
    | inl same ↦ let e = (text_eq_iff u t).0 same in rw same (ground arith)
    | inr other ↦ ground arith
  ])
  | inr new ↦ rw new (includes-append xs (u ∷ []) t ∙ unfold includes in ground arith)
]

-- No word stands twice.
abbrev pub IsDistinct : List Text → Type 0
IsDistinct [] = Unit
IsDistinct (x ∷ xs) = (includes xs x ≡ false) × IsDistinct xs

IsDistinct-append :
    (xs : List Text) (t : Text) → IsDistinct xs → includes xs t ≡ false → IsDistinct (xs ++ t ∷ [])
unfolding includes
IsDistinct-append [] t d h = (refl, tt)
IsDistinct-append (x ∷ xs) t (fresh, d) h = (
  ground (arith, includes-append xs (t ∷ []) x, text_eq_iff t x, text_eq_iff x t),
  IsDistinct-append xs t d (ground arith),
)

-- A word that stands once stands nowhere before.
new_at :
    (xs : List Text) (y : Text) (ys : List Text) → IsDistinct (xs ++ y ∷ ys) → includes xs y ≡ false
unfolding includes
new_at [] y ys d = refl
new_at (x ∷ xs) y ys (fresh, d) =
    ground (arith, includes-append xs (y ∷ ys) x, text_eq_iff x y, text_eq_refl y, new_at xs y ys d)

pub add_new-IsDistinct : (t : Text) (xs : List Text) → IsDistinct xs → IsDistinct (add_new t xs)
add_new-IsDistinct t xs d = elim (Bool-cases (includes xs t)) [
  | inl old ↦ rw old d
  | inr new ↦ rw new (IsDistinct-append xs t d new)
]

-- A text that is `t` in lower case.
abbrev pub is_lowered : Text → Value → Bool
is_lowered t (str s) = text_eq (lower s) t
is_lowered t v = false

module _ (allowed : List Text) (name : Text) where
  normalize_items-accepts :
      (acc : List Text) (xs : Items)
      → All (IsAllowed allowed) (elems xs)
      → (out : List Text) × (normalize_items allowed name acc xs ≡ ok out)
  unfolding normalize_items
  normalize_items-accepts acc nil h = (acc, refl)
  normalize_items-accepts acc (cons (str s) xs) ((t, e, inc), h) =
      let same : s ≡ t = cc in
      let (out, rest) = normalize_items-accepts (add_new (lower s) acc) xs h in
      (out, rw (ap (λ u. includes allowed (lower u)) same ∙ inc) rest)
  normalize_items-accepts acc (cons undefined xs) ((t, e, inc), h) = absurd (ground arith)
  normalize_items-accepts acc (cons null xs) ((t, e, inc), h) = absurd (ground arith)
  normalize_items-accepts acc (cons (bool b) xs) ((t, e, inc), h) = absurd (ground arith)
  normalize_items-accepts acc (cons (num n) xs) ((t, e, inc), h) = absurd (ground arith)
  normalize_items-accepts acc (cons (arr ys) xs) ((t, e, inc), h) = absurd (ground arith)
  normalize_items-accepts acc (cons (obj fs) xs) ((t, e, inc), h) = absurd (ground arith)

  abbrev IsWord : Text → Type 0
  IsWord y = (lower y ≡ y) × (includes allowed y ≡ true)

  add_new-words :
      (s : Text) (acc : List Text)
      → includes allowed (lower s) ≡ true
      → All IsWord acc
      → All IsWord (add_new (lower s) acc)
  add_new-words s acc inc w = elim (Bool-cases (includes acc (lower s))) [
    | inl old ↦ rw old w
    | inr new ↦ rw new (All-append IsWord acc (lower s ∷ []) w ((lower_idem s, inc), tt))
  ]

  -- What a successful run says of its items and its result.
  record Normalized (acc : List Text) (xs : Items) (out : List Text) : Type 0 where
    accepted : All (IsAllowed allowed) (elems xs)
    distinct : IsDistinct acc → IsDistinct out
    words : All IsWord acc → All IsWord out
    collects :
        (t : Text) → includes out t ≡ (includes acc t || any (λ v. is_lowered t v) (elems xs))

  normalize_items-Normalized :
      (acc out : List Text) (xs : Items)
      → normalize_items allowed name acc xs ≡ ok out
      → Normalized acc xs out
  unfolding normalize_items
  normalize_items-Normalized acc out nil e =
      let same : acc ≡ out = cc in
      rw (← same)
        (record { accepted = tt; distinct = λ d. d; words = λ w. w; collects = λ t. ground arith })
  normalize_items-Normalized acc out (cons (str s) xs) e =
      elim (Bool-cases (includes allowed (lower s))) [
        | inl inc ↦
            let rest = normalize_items-Normalized (add_new (lower s) acc) out xs (ground arith) in
            record {
              accepted = ((s, refl, inc), rest.accepted);
              distinct = λ d. rest.distinct (add_new-IsDistinct (lower s) acc d);
              words = λ w. rest.words (add_new-words s acc inc w);
              collects = λ t. rest.collects t ∙ ground (arith, includes-add_new (lower s) t acc);
            }
        | inr out_of ↦ absurd (ground arith)
      ]
  normalize_items-Normalized acc out (cons undefined xs) e = cc
  normalize_items-Normalized acc out (cons null xs) e = cc
  normalize_items-Normalized acc out (cons (bool b) xs) e = cc
  normalize_items-Normalized acc out (cons (num n) xs) e = cc
  normalize_items-Normalized acc out (cons (arr ys) xs) e = cc
  normalize_items-Normalized acc out (cons (obj fs) xs) e = cc

  -- Words that are allowed, in lower case and new are taken as they are.
  normalize_items-fixed :
      (acc ys : List Text)
      → All IsWord ys
      → IsDistinct (acc ++ ys)
      → normalize_items allowed name acc (items (map str ys)) ≡ ok (acc ++ ys)
  unfolding normalize_items
  normalize_items-fixed acc [] h d = ap ok (sym (append-nil acc))
  normalize_items-fixed acc (y ∷ ys) ((low, inc), h) d =
      let d' = subst IsDistinct (sym (append_assoc acc (y ∷ []) ys)) d in
      rw (low, inc, new_at acc y ys d)
        (normalize_items-fixed (acc ++ y ∷ []) ys h d' ∙ ap ok (append_assoc acc (y ∷ []) ys))

-- An array is accepted exactly when each of its items is an allowed word, in any case.
pub normalize_array_iff :
    (allowed : List Text) (name : Text) (xs : Items)
    → All (IsAllowed allowed) (elems xs)
      ↔ ((out : List Text) × (normalize_array (arr xs) allowed name ≡ ok out))
unfolding normalize_array
normalize_array_iff allowed name xs = (
  normalize_items-accepts allowed name [] xs,
  λ (out, e). (normalize_items-Normalized allowed name [] out xs e).accepted,
)

-- The result holds the items in lower case, each word once.
pub normalize_array-collects :
    (allowed : List Text) (name t : Text) (xs : Items) (out : List Text)
    → normalize_array (arr xs) allowed name ≡ ok out
    → IsDistinct out × (includes out t ≡ any (is_lowered t) (elems xs))
unfolding normalize_array includes
normalize_array-collects allowed name t xs out e =
    let n = normalize_items-Normalized allowed name [] out xs e in (n.distinct tt, n.collects t)

-- The result, given as an array again, is accepted and returned as it is.
pub normalize_array_idem :
    (allowed : List Text) (name : Text) (xs : Items) (out : List Text)
    → normalize_array (arr xs) allowed name ≡ ok out
    → normalize_array (arr (items (map str out))) allowed name ≡ ok out
unfolding normalize_array
normalize_array_idem allowed name xs out e =
    let n = normalize_items-Normalized allowed name [] out xs e in
    normalize_items-fixed allowed name [] out (n.words tt) (n.distinct tt)

pub normalize_array-words :
    (allowed : List Text) (name : Text) (v : Value) (out : List Text)
    → normalize_array v allowed name ≡ ok out
    → All (λ y. includes allowed y ≡ true) out × IsDistinct out
unfolding normalize_array
normalize_array-words allowed name undefined out e =
    let same : [] ≡ out = cc in rw (← same) (tt, tt)
normalize_array-words allowed name (arr xs) out e =
    let n = normalize_items-Normalized allowed name [] out xs e in
    (words_allowed out (n.words tt), n.distinct tt)
  where
    words_allowed :
        (ys : List Text) → All (IsWord allowed name) ys → All (λ y. includes allowed y ≡ true) ys
    words_allowed [] w = tt
    words_allowed (y ∷ ys) ((low, inc), w) = (inc, words_allowed ys w)
normalize_array-words allowed name null out e = cc
normalize_array-words allowed name (bool b) out e = cc
normalize_array-words allowed name (num n) out e = cc
normalize_array-words allowed name (str s) out e = cc
normalize_array-words allowed name (obj fs) out e = cc
