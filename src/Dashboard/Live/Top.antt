-- ===== src/Dashboard/Live/Top.antt =====
-- The table of the dashboard: which addresses it shows, in which order.
use flux_guard.Base.{
  ℕ, zero, suc, ◌+◌, ◌≤◌, ◌≡◌, refl, sym, none, some, [], ◌∷◌, arith, if◌then◌else◌, Text, same,
  length, take, All, ◌≢◌, subst, Option, Option-cases, text_dec, ◌⊎◌, inl, inr,
}
use flux_guard.Base.Dict.{Dict, lookup, NodupKeys}
use flux_guard.Base.Int.{ℤ, pos_part, neg_part}
use flux_guard.Dashboard.Live.{insert_top, sorted_top, top}

infix 50 ◌≤ℤ◌
abbrev pub ◌≤ℤ◌ : ℤ → ℤ → Type 0
a ≤ℤ b = pos_part a + neg_part b ≤ pos_part b + neg_part a

abbrev pub AtMost : ℤ → Dict ℤ → Type 0
AtMost c = All (λ e. e.1 ≤ℤ c)

-- Every count is at least those behind it.
abbrev pub IsDescending : Dict ℤ → Type 0
IsDescending [] = Unit
IsDescending ((ip, c) ∷ d) = AtMost c d × IsDescending d

AtMost-trans : (a b : ℤ) (d : Dict ℤ) → a ≤ℤ b → AtMost a d → AtMost b d
AtMost-trans a b [] l h = tt
AtMost-trans a b (e ∷ d) l (he, h) = (omega (arith, l, he), AtMost-trans a b d l h)

insert_top-AtMost :
    (ip : Text) (c m : ℤ) (d : Dict ℤ) → c ≤ℤ m → AtMost m d → AtMost m (insert_top ip c d)
unfolding insert_top
insert_top-AtMost ip c m [] l h = (l, tt)
insert_top-AtMost ip c m ((j, x) ∷ d) l (hj, h) = ground (arith, insert_top-AtMost ip c m d l h)

insert_top-IsDescending :
    (ip : Text) (c : ℤ) (d : Dict ℤ) → IsDescending d → IsDescending (insert_top ip c d)
unfolding insert_top
insert_top-IsDescending ip c [] h = (tt, tt)
insert_top-IsDescending ip c ((j, x) ∷ d) (hx, h) =
    ground (arith, insert_top-IsDescending ip c d h, insert_top-AtMost ip c x d, AtMost-trans x c d)

sorted_top-IsDescending : (d : Dict ℤ) → IsDescending (sorted_top d)
unfolding sorted_top
sorted_top-IsDescending [] = tt
sorted_top-IsDescending ((ip, c) ∷ d) =
    insert_top-IsDescending ip c (sorted_top d) (sorted_top-IsDescending d)

lookup-insert_top :
    (j ip : Text) (c : ℤ) (d : Dict ℤ)
    → lookup ip d ≡ none
    → lookup j (insert_top ip c d) ≡ (if same j ip then some c else lookup j d)
unfolding lookup insert_top
lookup-insert_top j ip c [] h = refl
lookup-insert_top j ip c ((i, x) ∷ d) h = ground (arith, lookup-insert_top j ip c d)

lookup-sorted_top : (j : Text) (d : Dict ℤ) → NodupKeys d → lookup j (sorted_top d) ≡ lookup j d
unfolding lookup sorted_top
lookup-sorted_top j [] u = refl
lookup-sorted_top j ((ip, c) ∷ d) (fresh, u) = ground (
  arith,
  lookup-insert_top j ip c (sorted_top d),
  lookup-sorted_top ip d u,
  lookup-sorted_top j d u,
)

-- Every count of the table is at least `c`.
abbrev pub AtLeast : ℤ → Dict ℤ → Type 0
AtLeast c = All (λ e. c ≤ℤ e.1)

take-AtMost : (n : ℕ) (m : ℤ) (d : Dict ℤ) → AtMost m d → AtMost m (take n d)
take-AtMost zero m d h = tt
take-AtMost (suc n) m [] h = tt
take-AtMost (suc n) m (e ∷ d) (he, h) = (he, take-AtMost n m d h)

take-IsDescending : (n : ℕ) (d : Dict ℤ) → IsDescending d → IsDescending (take n d)
take-IsDescending zero d h = tt
take-IsDescending (suc n) [] h = tt
take-IsDescending (suc n) ((ip, c) ∷ d) (hc, h) = (take-AtMost n c d hc, take-IsDescending n d h)

length-take_le : (n : ℕ) (d : Dict ℤ) → length (take n d) ≤ n
length-take_le zero d = omega arith
length-take_le (suc n) [] = omega arith
length-take_le (suc n) (e ∷ d) = omega (arith, length-take_le n d)

lookup-AtMost : (j : Text) (c m : ℤ) (d : Dict ℤ) → AtMost m d → lookup j d ≡ some c → c ≤ℤ m
unfolding lookup
lookup-AtMost j c m [] h e = cc
lookup-AtMost j c m ((i, x) ∷ d) (hx, h) e = ground (arith, lookup-AtMost j c m d h)

-- An entry is among the first `n` as it is in the whole, or it is cut off, and then there are `n`
-- of them and none is smaller.
abbrev pub Kept : ℕ → Text → Dict ℤ → Option ℤ → Type 0
Kept n ip shown o =
    (lookup ip shown ≡ o)
    ⊎ ((c : ℤ) × (o ≡ some c) × (lookup ip shown ≡ none) × AtLeast c shown × (length shown ≡ n))

Kept-cons :
    (n : ℕ) (ip j : Text) (x : ℤ) (d : Dict ℤ)
    → ip ≢ j
    → AtMost x d
    → Kept n ip (take n d) (lookup ip d)
    → Kept (suc n) ip ((j, x) ∷ take n d) (lookup ip ((j, x) ∷ d))
unfolding lookup
Kept-cons n ip j x d ne most h = elim h [
  | inl e ↦ inl (ground (arith, e))
  | inr (c, e, gone, least, full) ↦ inr (
    c,
    ground (arith, e),
    ground (arith, gone),
    (lookup-AtMost ip c x d most e, least),
    omega (arith, full),
  )
]

Kept-take : (n : ℕ) (ip : Text) (d : Dict ℤ) → IsDescending d → Kept n ip (take n d) (lookup ip d)
unfolding lookup
Kept-take zero ip d h = elim (Option-cases (lookup ip d)) [
  | inl e ↦ inl (sym e)
  | inr (c, e) ↦ inr (c, e, refl, tt, refl)
]
Kept-take (suc n) ip [] h = inl refl
Kept-take (suc n) ip ((j, x) ∷ d) (hx, h) = elim (text_dec ip j) [
  | yes e ↦ inl (ground (arith, e))
  | no ne ↦ Kept-cons n ip j x d ne hx (Kept-take n ip d h)
]

-- For a dict of packet counts: the dashboard's table has at most twelve addresses, in descending
-- order of their counts. It shows an address with the count that the dict has, or not at all; and an
-- address with a count that it does not show has no more packets than any of the twelve it shows.
pub top_lem :
    (packets : Dict ℤ) (ip : Text)
    → NodupKeys packets
    → (length (top packets) ≤ 12)
      × IsDescending (top packets)
      × Kept 12 ip (top packets) (lookup ip packets)
unfolding top
top_lem packets ip u = (
  length-take_le 12 (sorted_top packets),
  take-IsDescending 12 (sorted_top packets) (sorted_top-IsDescending packets),
  subst (Kept 12 ip (take 12 (sorted_top packets))) (lookup-sorted_top ip packets u)
      (Kept-take 12 ip (sorted_top packets) (sorted_top-IsDescending packets)),
)
