-- ===== src/Prelude/Lists.antt =====
-- Lists measured by native numbers, under the library's names, and the slices of JavaScript arrays.
use Prim.Native.Nat.{ℕ, zero, suc, ◌+◌, ◌-◌, ◌<◌, ◌≤◌, min}
use mathlib.Core.Path.{subst, ◌≡◌, refl, ap, sym, ◌∙◌}
use mathlib.Core.Bool.{Bool, false, ◌||◌}
use mathlib.Core.List.{List, [], ◌∷◌, ◌++◌}
use mathlib.Core.Option.{Option, none, some}
use native.Mathlib.Omega.{arith}
use aria_bridge.Prelude.Tests.{if◌then◌else◌, ltb, ltb→lt, Bool-cases}
use mathlib.Core.Logic.{inl, inr}

module _ {ℓ} {A : Type ℓ} where
  abbrev pub length : List A → ℕ
  length [] = 0
  length (x ∷ xs) = suc (length xs)

  abbrev pub take : ℕ → List A → List A
  take zero xs = []
  take (suc n) [] = []
  take (suc n) (x ∷ xs) = x ∷ take n xs

  abbrev pub drop : ℕ → List A → List A
  drop zero xs = xs
  drop (suc n) [] = []
  drop (suc n) (x ∷ xs) = drop n xs

  -- `xs.slice(-n)` for a positive `n`: the last `n` items, or all.
  abbrev pub last_n : ℕ → List A → List A
  last_n n xs = drop (length xs - n) xs

  -- `xs.filter(p)`.
  abbrev pub filter : (A → Bool) → List A → List A
  filter p [] = []
  filter p (x ∷ xs) = if p x then x ∷ filter p xs else filter p xs

  -- `xs.some(p)`.
  abbrev pub any : (A → Bool) → List A → Bool
  any p [] = false
  any p (x ∷ xs) = p x || any p xs

  -- `xs[xs.length - 1]`.
  abbrev pub get_last? : List A → Option A
  get_last? [] = none
  get_last? (x ∷ []) = some x
  get_last? (x ∷ y ∷ xs) = get_last? (y ∷ xs)

  abbrev pub All {κ} : (A → Type κ) → List A → Type κ
  All P [] = Unit
  All P (x ∷ xs) = P x × All P xs

  pub length-append : (xs ys : List A) → length (xs ++ ys) ≡ length xs + length ys
  length-append [] ys = omega arith
  length-append (x ∷ xs) ys = omega (arith, length-append xs ys)

  pub length-drop : (n : ℕ) (xs : List A) → length (drop n xs) ≡ length xs - n
  length-drop zero xs = omega arith
  length-drop (suc n) [] = omega arith
  length-drop (suc n) (x ∷ xs) = omega (arith, length-drop n xs)

  pub length-take : (n : ℕ) (xs : List A) → length (take n xs) ≡ min n (length xs)
  length-take zero xs = omega arith
  length-take (suc n) [] = omega arith
  length-take (suc n) (x ∷ xs) = omega (arith, length-take n xs)

  pub drop-zero_of_eq : (n : ℕ) (xs : List A) → n ≡ 0 → drop n xs ≡ xs
  drop-zero_of_eq zero xs h = refl
  drop-zero_of_eq (suc n) xs h = absurd (omega arith)

  pub drop-append : (n : ℕ) (xs ys : List A) → n ≤ length xs → drop n (xs ++ ys) ≡ drop n xs ++ ys
  drop-append zero xs ys h = refl
  drop-append (suc n) [] ys h = absurd (omega arith)
  drop-append (suc n) (x ∷ xs) ys h = drop-append n xs ys (omega arith)

  pub drop-nil : (n : ℕ) → drop n [] ≡ []
  drop-nil zero = refl
  drop-nil (suc n) = refl

  pub drop-drop : (m n : ℕ) (xs : List A) → drop m (drop n xs) ≡ drop (n + m) xs
  drop-drop m zero xs = let e : m ≡ 0 + m = omega arith in ap (λ k. drop k xs) e
  drop-drop m (suc n) [] = drop-nil m ∙ sym (drop-nil (suc n + m))
  drop-drop m (suc n) (x ∷ xs) =
      let e : suc (n + m) ≡ suc n + m = omega arith in
      drop-drop m n xs ∙ ap (λ k. drop k (x ∷ xs)) e

  pub All-append {κ} : (P : A → Type κ) (xs ys : List A) → All P xs → All P ys → All P (xs ++ ys)
  All-append P [] ys h k = k
  All-append P (x ∷ xs) ys (p, h) k = (p, All-append P xs ys h k)

  pub All-map {κ μ} :
      (P : A → Type κ) (Q : A → Type μ) (xs : List A) → ((x : A) → P x → Q x) → All P xs → All Q xs
  All-map P Q [] f h = tt
  All-map P Q (x ∷ xs) f (p, h) = (f x p, All-map P Q xs f h)

  pub All-drop {κ} : (P : A → Type κ) (n : ℕ) (xs : List A) → All P xs → All P (drop n xs)
  All-drop P zero xs h = h
  All-drop P (suc n) [] h = h
  All-drop P (suc n) (x ∷ xs) (p, h) = All-drop P n xs h

  pub All-take {κ} : (P : A → Type κ) (n : ℕ) (xs : List A) → All P xs → All P (take n xs)
  All-take P zero xs h = tt
  All-take P (suc n) [] h = tt
  All-take P (suc n) (x ∷ xs) (p, h) = (p, All-take P n xs h)

  pub take-append : (xs ys : List A) → take (length xs) (xs ++ ys) ≡ xs
  take-append [] ys = refl
  take-append (x ∷ xs) ys = ap (◌∷◌ x) (take-append xs ys)

  pub take-take-append :
      (n : ℕ) (xs ys : List A) → n ≤ length xs → take n (take n xs ++ ys) ≡ take n xs
  take-take-append zero xs ys h = refl
  take-take-append (suc n) [] ys h = absurd (omega arith)
  take-take-append (suc n) (x ∷ xs) ys h = ap (◌∷◌ x) (take-take-append n xs ys (omega arith))

  abbrev pub get_elem? : List A → ℕ → Option A
  get_elem? [] i = none
  get_elem? (x ∷ xs) zero = some x
  get_elem? (x ∷ xs) (suc i) = get_elem? xs i

  pub All-get_elem? {κ} :
      (P : A → Type κ) (xs : List A) (i : ℕ) {x : A} → All P xs → get_elem? xs i ≡ some x → P x
  All-get_elem? P [] i h e = cc
  All-get_elem? P (y ∷ xs) zero {x} (p, h) e = let same : y ≡ x = cc in subst P same p
  All-get_elem? P (y ∷ xs) (suc i) (p, h) e = All-get_elem? P xs i h e

  -- One more item: the oldest of a full window leaves.
  pub last_n-append_full :
      (n : ℕ) (xs : List A) (x : A)
      → n ≤ length xs
      → 1 ≤ n
      → drop 1 (last_n n xs) ++ x ∷ [] ≡ last_n n (xs ++ x ∷ [])
  last_n-append_full n xs x h pos =
      let e : length (xs ++ x ∷ []) - n ≡ length xs - n + 1 =
        omega (arith, length-append xs (x ∷ [])) in
      rw (e, drop-append (length xs - n + 1) xs (x ∷ []) (omega arith))
        (ap (λ ys. ys ++ x ∷ []) (drop-drop 1 (length xs - n) xs))

  pub last_n-append_short :
      (n : ℕ) (xs : List A) (x : A)
      → length xs < n
      → last_n n xs ++ x ∷ [] ≡ last_n n (xs ++ x ∷ [])
  last_n-append_short n xs x h = rw (
    drop-zero_of_eq (length xs - n) xs (omega arith),
    drop-zero_of_eq (length (xs ++ x ∷ []) - n) (xs ++ x ∷ [])
        (omega (arith, length-append xs (x ∷ []))),
  )

  pub length-last_n : (n : ℕ) (xs : List A) → length (last_n n xs) ≡ min n (length xs)
  length-last_n n xs = omega (arith, length-drop (length xs - n) xs)

  -- To trim after each push is to keep the window of all that was pushed.
  pub last_n-push :
      (n : ℕ) (xs : List A) (x : A)
      → 1 ≤ n
      → (if ltb n (length (last_n n xs ++ x ∷ []))
          then last_n n (last_n n xs ++ x ∷ [])
          else last_n n xs ++ x ∷ [])
        ≡ last_n n (xs ++ x ∷ [])
  last_n-push n xs x pos =
      let window = last_n n xs in
      let size : length (window ++ x ∷ []) ≡ min n (length xs) + 1 =
        omega (arith, length-append window (x ∷ []), length-last_n n xs) in
      elim (Bool-cases (ltb n (length (window ++ x ∷ [])))) [
        | inl over ↦
            let many : n ≤ length xs = omega (arith, size, ltb→lt _ _ over) in
            let one : length (window ++ x ∷ []) - n ≡ 1 = omega (arith, size) in
            rw over (
              ap (λ k. drop k (window ++ x ∷ [])) one
              ∙ drop-append 1 window (x ∷ []) (omega (arith, length-last_n n xs))
              ∙ last_n-append_full n xs x many pos)
        | inr fits ↦
            let few : min n (length xs) + 1 ≤ n = ground (arith, size) in
            rw fits (last_n-append_short n xs x (omega arith))
      ]

  pub filter-append :
      (p : A → Bool) (xs ys : List A) → filter p (xs ++ ys) ≡ filter p xs ++ filter p ys
  filter-append p [] ys = refl
  filter-append p (x ∷ xs) ys = ground (arith, filter-append p xs ys)

  pub get_last?-append : (xs : List A) (x : A) → get_last? (xs ++ x ∷ []) ≡ some x
  get_last?-append [] x = refl
  get_last?-append (y ∷ []) x = refl
  get_last?-append (y ∷ z ∷ xs) x = get_last?-append (z ∷ xs) x

  get_last?-drop : (k : ℕ) (xs : List A) → k < length xs → get_last? (drop k xs) ≡ get_last? xs
  get_last?-drop zero xs h = refl
  get_last?-drop (suc k) [] h = absurd (omega arith)
  get_last?-drop (suc k) (x ∷ []) h = absurd (omega arith)
  get_last?-drop (suc k) (x ∷ y ∷ xs) h = get_last?-drop k (y ∷ xs) (omega arith)

  -- A window that is not empty ends where the list ends.
  pub get_last?-last_n : (n : ℕ) (xs : List A) → 1 ≤ n → get_last? (last_n n xs) ≡ get_last? xs
  get_last?-last_n n [] h = ap get_last? (drop-nil (0 - n))
  get_last?-last_n n (x ∷ xs) h = get_last?-drop (length (x ∷ xs) - n) (x ∷ xs) (omega arith)

  -- The first `i + 1` items are the first `i` and the item at `i`.
  pub take-suc :
      (i : ℕ) (xs : List A)
      → i < length xs
      → (x : A) × (get_elem? xs i ≡ some x) × (take (suc i) xs ≡ take i xs ++ x ∷ [])
  take-suc i [] h = absurd (omega arith)
  take-suc zero (x ∷ xs) h = (x, refl, refl)
  take-suc (suc i) (x ∷ xs) h =
      let (y, at, split) = take-suc i xs (omega arith) in (y, at, ap (◌∷◌ x) split)

  pub take-length : (xs : List A) → take (length xs) xs ≡ xs
  take-length [] = refl
  take-length (x ∷ xs) = ap (◌∷◌ x) (take-length xs)
