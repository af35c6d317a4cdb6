-- ===== src/Brain/Blocks.antt =====
-- One address in the eyes of the brain, over the rounds of its loop: its block, if it has one, by
-- the time at which it ends, and whether the maps show it to be blocked.
use flux_guard.Base.{
  ℕ, ◌+◌, ◌≤◌, ◌<◌, ◌≡◌, refl, Bool, true, false, Option, none, some, List, [], ◌∷◌, ◌⊎◌, inl, inr,
  arith, leb, All, Bool-cases, zero, suc, if◌then◌else◌,
}
use flux_guard.Brain.Detect.Laws.{block_time}
use flux_guard.Brain.Expire.Laws.{still_blocked}

-- A round at a time.
pub data Step (cooldown now : ℕ) (seen : Bool) : Option ℕ → Option ℕ → Type 0 where
  idle : seen ≡ false → Step cooldown now seen none none
  starts : seen ≡ true → 0 < cooldown → Step cooldown now seen none (some (now + cooldown))
  passes : seen ≡ true → cooldown ≡ 0 → Step cooldown now seen none none
  keeps : (t : ℕ) → now < t → Step cooldown now seen (some t) (some t)
  ends : (t : ℕ) → t ≤ now → Step cooldown now seen (some t) none

-- Rounds in a row, each with its time and with what the maps show.
pub data Run (cooldown : ℕ) : List (ℕ × Bool) → Option ℕ → Option ℕ → Type 0 where
  done : (o : Option ℕ) → Run cooldown [] o o
  round :
      (now : ℕ) (seen : Bool) (ins : List (ℕ × Bool)) (o p q : Option ℕ)
      → Step cooldown now seen o p
      → Run cooldown ins p q
      → Run cooldown ((now, seen) ∷ ins) o q

-- The table's formula takes these steps.
pub still_blocked-Step :
    (cooldown now : ℕ) (seen : Bool) (o : Option ℕ)
    → Step cooldown now seen o (still_blocked now (block_time now cooldown seen o))
still_blocked-Step cooldown now seen (some t) = elim (Bool-cases (leb t now)) [
  | inl over ↦ rw (over, if◌then◌else◌) (ends t (ground (arith, over)))
  | inr left ↦ rw (left, if◌then◌else◌) (keeps t (ground (arith, left)))
]
still_blocked-Step cooldown now false none = idle refl
still_blocked-Step zero now true none =
    let over : leb (now + 0) now ≡ true = ground arith in
    rw (over, if◌then◌else◌) (passes refl refl)
still_blocked-Step (suc cooldown) now true none =
    let left : leb (now + suc cooldown) now ≡ false = ground arith in
    rw (left, if◌then◌else◌) (starts refl (omega arith))

Step-kept :
    (cooldown now : ℕ) (seen : Bool) (o p : Option ℕ) (t : ℕ)
    → Step cooldown now seen o p
    → o ≡ some t
    → now < t
    → p ≡ some t
Step-kept cooldown now seen o p t (idle _) e l = cc
Step-kept cooldown now seen o p t (starts _ _) e l = cc
Step-kept cooldown now seen o p t (passes _ _) e l = cc
Step-kept cooldown now seen o p t (keeps _ _) e l = e
Step-kept cooldown now seen o p t (ends t' h) e l = ground (arith, e)

-- A block lasts through every round before its end.
pub Run-kept :
    (cooldown : ℕ) (ins : List (ℕ × Bool)) (o q : Option ℕ) (t : ℕ)
    → Run cooldown ins o q
    → o ≡ some t
    → All (λ i. i.0 < t) ins
    → q ≡ some t
Run-kept cooldown ins o q t (done _) e h = e
Run-kept cooldown ins o q t (round now seen ins' _ p _ step run) e (l, h) =
    Run-kept cooldown ins' p q t run (Step-kept cooldown now seen o p t step e l) h

-- The block has ended, and a newer one that there may be ends later.
abbrev pub IsOver : ℕ → Option ℕ → Type 0
IsOver t none = Unit
IsOver t (some t') = t < t'

-- The times do not go back.
abbrev pub Ascending : ℕ → List (ℕ × Bool) → Type 0
Ascending b [] = Unit
Ascending b ((now, seen) ∷ ins) = (b ≤ now) × Ascending now ins

-- A round is not before the time.
abbrev pub Reaches : ℕ → List (ℕ × Bool) → Type 0
Reaches t [] = ⊥
Reaches t ((now, seen) ∷ ins) = (t ≤ now) ⊎ Reaches t ins

Step-IsOver :
    (cooldown now : ℕ) (seen : Bool) (o p : Option ℕ) (t : ℕ)
    → Step cooldown now seen o p
    → t ≤ now
    → (o ≡ some t) ⊎ IsOver t o
    → IsOver t p
Step-IsOver cooldown now seen o p t (idle _) l h = tt
Step-IsOver cooldown now seen o p t (starts _ c) l h = omega arith
Step-IsOver cooldown now seen o p t (passes _ _) l h = tt
Step-IsOver cooldown now seen o p t (keeps t' c) l (inl e) = ground (arith, e)
Step-IsOver cooldown now seen o p t (keeps t' c) l (inr h) = h
Step-IsOver cooldown now seen o p t (ends _ _) l h = tt

Ascending-weaken : (b c : ℕ) (ins : List (ℕ × Bool)) → b ≤ c → Ascending c ins → Ascending b ins
Ascending-weaken b c [] l a = tt
Ascending-weaken b c ((now, seen) ∷ ins) l (l', a) = (omega (arith, l, l'), a)

Run-IsOver_after :
    (cooldown : ℕ) (ins : List (ℕ × Bool)) (o q : Option ℕ) (t : ℕ)
    → Run cooldown ins o q
    → IsOver t o
    → Ascending t ins
    → IsOver t q
Run-IsOver_after cooldown ins o q t (done _) h a = h
Run-IsOver_after cooldown ins o q t (round now seen ins' _ p _ step run) h (l, a) =
    Run-IsOver_after cooldown ins' p q t run (Step-IsOver cooldown now seen o p t step l (inr h))
      (Ascending-weaken t now ins' l a)

-- Once a round is not before its end, a block is over.
pub Run-IsOver :
    (cooldown b : ℕ) (ins : List (ℕ × Bool)) (o q : Option ℕ) (t : ℕ)
    → Run cooldown ins o q
    → o ≡ some t
    → Ascending b ins
    → Reaches t ins
    → IsOver t q
Run-IsOver cooldown b ins o q t (done _) e a r = absurd r
Run-IsOver cooldown b ins o q t (round now seen ins' _ p _ step run) e (l, a) r =
    elim (Bool-cases (leb t now)) [
      | inl due ↦
          let l' : t ≤ now = ground (arith, due) in
          Run-IsOver_after cooldown ins' p q t run
            (Step-IsOver cooldown now seen o p t step l' (inl e)) (Ascending-weaken t now ins' l' a)
      | inr early ↦
          let l' : now < t = ground (arith, early) in
          Run-IsOver cooldown now ins' p q t run (Step-kept cooldown now seen o p t step e l') a
            (later l' r)
    ]
  where
    later : now < t → (t ≤ now) ⊎ Reaches t ins' → Reaches t ins'
    later l' (inl d) = absurd (omega arith)
    later l' (inr r) = r
