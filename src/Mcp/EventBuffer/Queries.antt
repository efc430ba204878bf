-- ===== src/Mcp/EventBuffer/Queries.antt =====
-- src/mcp/event-buffer.ts: what the buffer answers.
use aria_bridge.Prelude.{
  ℕ, zero, suc, ◌+◌, ◌-◌, drop, drop-append, length-append, ◌≤◌, Bool, true, text, text_eq, length,
  take, take-suc, take-length, filter, filter-append, get_last?, get_last?-append, get_last?-last_n,
  ◌==◌, some, List, [], ◌∷◌, ◌++◌, ◌≡◌, refl, arith, ap, ◌∙◌, sym, append-nil, Bool-cases, inl, inr,
}
use aria_bridge.Value.{nat, Fields}
use aria_bridge.Value.Props.{get, get-put}
use aria_bridge.Value.Numbers.{exceeds, trunc}
use aria_bridge.Mcp.EventBuffer.{
  EventBuffer, slice_last, stamp, push, is_text, has_type, is_error, recent, errors, find_back,
  latest_screenshot, id_of, last_id, stats,
}

find_back-take :
    (p : Fields → Bool) (i : ℕ) (xs : List Fields)
    → i ≤ length xs
    → find_back p i xs ≡ get_last? (filter p (take i xs))
unfolding find_back
find_back-take p zero xs h = refl
find_back-take p (suc i) xs h =
    let (x, at, split) = take-suc i xs h in
    let rest = find_back-take p i xs (omega arith) in
    rw (at, split, filter-append)
      (elim (Bool-cases (p x)) [
        | inl hit ↦ rw hit (sym (get_last?-append (filter p (take i xs)) x))
        | inr miss ↦ rw miss (rest ∙ ap get_last? (sym (append-nil (filter p (take i xs)))))
      ])

-- The loop from the end finds the last screenshot, or none where there is none.
pub latest_screenshot_lem :
    (b : EventBuffer)
    → latest_screenshot b ≡ get_last? (filter (has_type (text "screenshot")) b.events)
unfolding latest_screenshot
latest_screenshot_lem b =
    find_back-take (has_type (text "screenshot")) (length b.events) b.events (omega arith)
    ∙ ap (λ xs. get_last? (filter (has_type (text "screenshot")) xs)) (take-length b.events)

slice_last-last : (n : ℕ) (xs : List Fields) → get_last? (slice_last n xs) ≡ get_last? xs
unfolding slice_last
slice_last-last n xs = elim (Bool-cases (n == 0)) [
  | inl all ↦ rw all
  | inr some_last ↦ rw some_last (get_last?-last_n n xs (ground arith))
]

is_error-stamp : (id : ℕ) (e : Fields) → is_error (stamp id e) ≡ is_error e
unfolding stamp text_eq
is_error-stamp id e = ap (is_text (text "error")) (get-put (text "__id") (text "level") (nat id) e)

get-stamp : (id : ℕ) (e : Fields) → get (text "__id") (stamp id e) ≡ nat id
unfolding stamp text_eq
get-stamp id e = get-put (text "__id") (text "__id") (nat id) e

slice_last-ends :
    (n : ℕ) (xs : List Fields) (x : Fields)
    → (rest : List Fields) × (slice_last n (xs ++ x ∷ []) ≡ rest ++ x ∷ [])
unfolding slice_last
slice_last-ends n xs x = elim (Bool-cases (n == 0)) [
  | inl all ↦ (xs, rw all)
  | inr some_last ↦
      let size = length-append xs (x ∷ []) in
      let few : length (xs ++ x ∷ []) - n ≤ length xs = ground (arith, size) in
      (drop (length (xs ++ x ∷ []) - n) xs, rw some_last (drop-append _ xs (x ∷ []) few))
]

-- The events after a push end with the event that was pushed, whatever left at the other end.
push-ends :
    (e : Fields) (b : EventBuffer)
    → (rest : List Fields) × ((push e b).0.events ≡ rest ++ (push e b).1 ∷ [])
unfolding push
push-ends e b =
    let added = stamp (b.counter + 1) e in
    let (rest, ends) = slice_last-ends (trunc b.limit) b.events added in
    elim (Bool-cases (exceeds (length (b.events ++ added ∷ [])) b.limit)) [
      | inl over ↦ (rest, rw over ends)
      | inr fits ↦ (b.events, rw fits)
    ]

-- The event that was pushed last is the last of the recent ones, and its number is the last one.
pub push-recent :
    (max : ℕ) (e : Fields) (b : EventBuffer)
    → (get_last? (recent max (push e b).0) ≡ some (push e b).1)
      × ((stats (push e b).0).last_id ≡ nat (b.counter + 1))
unfolding recent stats last_id
push-recent max e b =
    let (rest, ends) = push-ends e b in
    let last = ap get_last? ends ∙ get_last?-append rest (push e b).1 in
    (
      slice_last-last max (push e b).0.events ∙ last,
      ap id_of last ∙ unfold push in get-stamp (b.counter + 1) e,
    )

-- An error that was pushed last is the last of the errors.
pub push-errors :
    (max : ℕ) (e : Fields) (b : EventBuffer)
    → is_error e ≡ true
    → get_last? (errors max (push e b).0) ≡ some (push e b).1
unfolding errors
push-errors max e b err =
    let (rest, ends) = push-ends e b in
    let added = (push e b).1 in
    let still : is_error added ≡ true = unfold push in is_error-stamp (b.counter + 1) e ∙ err in
    let filtered : filter is_error (rest ++ added ∷ []) ≡ filter is_error rest ++ added ∷ [] =
      filter-append is_error rest (added ∷ []) ∙ rw still in
    slice_last-last max (filter is_error (push e b).0.events)
    ∙ ap (λ xs. get_last? (filter is_error xs)) ends
    ∙ ap get_last? filtered
    ∙ get_last?-append (filter is_error rest) added
