-- ===== src/Dashboard/Live/Events.antt =====
-- The events that the dashboard keeps.
use flux_guard.Base.{
  ℕ, zero, suc, ◌+◌, ◌-◌, ◌≤◌, ◌≡◌, refl, sym, ap, ◌∙◌, List, [], ◌∷◌, ◌++◌, ltb, if◌then◌else◌,
  arith, length, drop, length-append, append_assoc, append-nil, subst, Bool-cases, inl, inr,
}
use flux_guard.Base.Exec.{ok, Result-cases}
use flux_guard.Dashboard.Ring.{Event}
use flux_guard.Dashboard.Live.{
  Live, Input, Frame, take_last, accumulate, show_round, show_rounds, render,
}

module _ {ℓ} {A : Type ℓ} where
  drop-length : (n : ℕ) (xs : List A) → length (drop n xs) ≡ length xs - n
  drop-length zero xs = omega arith
  drop-length (suc n) [] = omega arith
  drop-length (suc n) (x ∷ xs) = omega (arith, drop-length n xs)

  drop-append : (n : ℕ) (xs ys : List A) → n ≤ length xs → drop n (xs ++ ys) ≡ drop n xs ++ ys
  drop-append zero xs ys h = refl
  drop-append (suc n) [] ys h = absurd (omega arith)
  drop-append (suc n) (x ∷ xs) ys h = drop-append n xs ys (omega arith)

  drop-nil : (n : ℕ) → drop {A = A} n [] ≡ []
  drop-nil zero = refl
  drop-nil (suc n) = refl

  drop-drop : (n m : ℕ) (xs : List A) → drop n (drop m xs) ≡ drop (m + n) xs
  drop-drop n zero xs = ap (λ (k : ℕ). drop k xs) (omega arith)
  drop-drop n (suc m) [] = drop-nil n ∙ sym (drop-nil (suc m + n))
  drop-drop n (suc m) (x ∷ xs) =
      let e : suc (m + n) ≡ suc m + n = omega arith in
      drop-drop n m xs ∙ ap (λ (k : ℕ). drop k (x ∷ xs)) e

  -- What is cut off early is cut off later too.
  take_last-append :
      (n m : ℕ) (xs ys : List A)
      → m ≤ n
      → take_last m (take_last n xs ++ ys) ≡ take_last m (xs ++ ys)
  unfolding take_last
  take_last-append n m xs ys h =
      let a = length xs - n in
      let e : drop a (xs ++ ys) ≡ drop a xs ++ ys = drop-append a xs ys (omega arith) in
      let whole = length-append xs ys in
      let part = length-append (drop a xs) ys in
      let cut = drop-length a xs in
      ap (λ (zs : List A). drop (length (drop a xs ++ ys) - m) zs) (sym e)
      ∙ drop-drop (length (drop a xs ++ ys) - m) a (xs ++ ys)
      ∙ ap (λ (k : ℕ). drop k (xs ++ ys)) (omega (arith, whole, part, cut))

  take_last-take_last :
      (n m : ℕ) (xs : List A) → m ≤ n → take_last m (take_last n xs) ≡ take_last m xs
  take_last-take_last n m xs h =
      ap (take_last m) (sym (append-nil (take_last n xs)))
      ∙ take_last-append n m xs [] h
      ∙ ap (take_last m) (append-nil xs)

accumulate-eq : (acc new : List Event) → accumulate acc new ≡ take_last 50 (acc ++ new)
unfolding accumulate take_last
accumulate-eq acc new = elim (Bool-cases (ltb 50 (length (acc ++ new)))) [
  | inl more ↦ rw (more, if◌then◌else◌)
  | inr few ↦
      let e : length (acc ++ new) - 50 ≡ 0 = ground (arith, few) in rw (few, if◌then◌else◌) (rw e)
]

-- The events that the rounds of a run have drained.
abbrev pub all_events : List Input → List Event
all_events [] = []
all_events (i ∷ is) = i.new_events ++ all_events is

-- Every frame shows the last eight events up to its round.
abbrev pub ShowsLast : List Event → List Input → List Frame → Type 0
ShowsLast past [] fs = Unit
ShowsLast past (i ∷ is) [] = Unit
ShowsLast past (i ∷ is) (f ∷ fs) =
    (f.recent ≡ take_last 8 (past ++ i.new_events)) × ShowsLast (past ++ i.new_events) is fs

-- One round that goes on.
show_round_events :
    (refresh : ℕ) (i : Input) (l l' : Live) (f : Frame) (past : List Event)
    → l.accumulated ≡ take_last 50 past
    → show_round refresh i l ≡ ok (f, l')
    → (l'.accumulated ≡ take_last 50 (past ++ i.new_events))
      × (f.recent ≡ take_last 8 (past ++ i.new_events))
unfolding show_round render
show_round_events refresh i l l' f past a e =
    let kept : accumulate l.accumulated i.new_events ≡ take_last 50 (past ++ i.new_events) =
      accumulate-eq l.accumulated i.new_events
      ∙ ap (λ (xs : List Event). take_last 50 (xs ++ i.new_events)) a
      ∙ take_last-append 50 50 past i.new_events (omega arith) in
    let shown : take_last 8 (accumulate l.accumulated i.new_events)
        ≡ take_last 8 (past ++ i.new_events) =
      ap (take_last 8) kept ∙ take_last-take_last 50 8 (past ++ i.new_events) (omega arith) in
    ground (arith, e, kept, shown)

-- A run of rounds is a round and a run.
show_rounds_step :
    (refresh : ℕ) (i : Input) (is : List Input) (l l' : Live) (fs : List Frame)
    → show_rounds refresh (i ∷ is) l ≡ ok (fs, l')
    → (f : Frame) × (v : Live) × (gs : List Frame) × (show_round refresh i l ≡ ok (f, v))
      × (show_rounds refresh is v ≡ ok (gs, l'))
      × (fs ≡ f ∷ gs)
unfolding show_rounds
show_rounds_step refresh i is l l' fs e = elim (Result-cases (show_round refresh i l)) [
  | inr (x, q) ↦ ground (arith, e, q)
  | inl ((f, v), q) ↦ elim (Result-cases (show_rounds refresh is v)) [
    | inr (x, r) ↦ ground (arith, e, q, r)
    | inl ((gs, w), r) ↦ (f, v, gs, q, ground (arith, e, q, r), ground (arith, e, q, r))
  ]
]

-- The bounded list stands for the whole history: from a loop that keeps the last fifty of some
-- events, over any run that goes through, the dashboard keeps exactly the last fifty of those and
-- all events drained since, and each frame shows the last eight of those up to its round.
pub show_rounds-accumulated :
    (refresh : ℕ) (is : List Input) (l l' : Live) (fs : List Frame) (past : List Event)
    → l.accumulated ≡ take_last 50 past
    → show_rounds refresh is l ≡ ok (fs, l')
    → (l'.accumulated ≡ take_last 50 (past ++ all_events is)) × ShowsLast past is fs
unfolding show_rounds
show_rounds-accumulated refresh [] l l' fs past a e = (ground (arith, e, a, append-nil past), tt)
show_rounds-accumulated refresh (i ∷ is) l l' fs past a e =
    let (f, v, gs, one, rest, shape) = show_rounds_step refresh i is l l' fs e in
    let (kept, shown) = show_round_events refresh i l v f past a one in
    let (end, frames) =
      show_rounds-accumulated refresh is v l' gs (past ++ i.new_events) kept rest in
    (
      end ∙ ap (take_last 50) (append_assoc past i.new_events (all_events is)),
      subst (ShowsLast past (i ∷ is)) (sym shape) (shown, frames),
    )
