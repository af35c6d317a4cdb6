-- ===== src/Brain/Tick/Loop.antt =====
-- The loop of `monitor` with its polls of the shutdown event, and the rounds that it runs.
use flux_guard.Base.{
  refl, ◌^◌, ℕ, zero, suc, ◌+◌, ◌-◌, ◌*◌, ◌<◌, ◌≤◌, ◌≡◌, sym, subst, min, Bool, true, false, List,
  [], ◌∷◌, ltb, arith, length, Bool-cases, inl, inr,
}
use flux_guard.Brain.State.{Floats, Platform, Args, Fds, World}
use flux_guard.Brain.Tick.{sleep_polls, after_pause, round, rounds, loop}
use flux_guard.Brain.Tick.Refine.{IsAscending}

-- The times at which the rounds start.
unfoldable pub starts : Floats → ℕ → Args → (ℕ → Bool) → (ℕ → ℕ) → ℕ → List ℕ
starts F zero args shutdown clock i = []
starts F (suc fuel) args shutdown clock i = elim (shutdown i) [
  | true ↦ []
  | false ↦ clock i ∷ starts F fuel args shutdown clock (after_pause F args shutdown (suc i))
]

-- The shutdown event is set at a poll, and at none before.
pub record IsShutdown (shutdown : ℕ → Bool) (m : ℕ) : Type 0 where
  pub seen : shutdown m ≡ true
  pub unseen : (k : ℕ) → k < m → shutdown k ≡ false

lt_of_unset :
    (shutdown : ℕ → Bool) (i m : ℕ) → shutdown m ≡ true → shutdown i ≡ false → i ≤ m → i < m
lt_of_unset shutdown i m seen unset l = elim (Bool-cases (ltb i m)) [
  | inl lt ↦ ground (arith, lt)
  | inr ge ↦
      let e : i ≡ m = ground (arith, ge) in
      let set : shutdown i ≡ true = rw e seen in ground (arith, set, unset)
]

-- What is documented of floats: 0.1 is no less than a tenth, and rounding adds at most one part in
-- 2^53.
pub record IsFloats (F : Floats) : Type 0 where
  pub tenth_lem : F.one ≤ 10 * F.tenth
  pub nearest_lem : (z : ℕ) → 2 ^ 53 * F.nearest z ≤ (2 ^ 53 + 1) * z

-- What is left when `n` of ten chunks are to come: theirs, and what rounding has added.
Left : Floats → ℕ → ℕ → Type 0
Left F n left =
    (left ≤ 10 * F.tenth)
    × (2 ^ 53 * left + 10 * (n * F.tenth) ≤ 2 ^ 53 * (n * F.tenth) + 100 * F.tenth)

module _ (F : Floats) (L : IsFloats F) where
  Left-suc : (n left : ℕ) → Left F (suc n) left → Left F n (F.nearest (left - min F.tenth left))
  unfolding Left
  Left-suc n left (a, b) =
      let q : suc n * F.tenth ≡ F.tenth + n * F.tenth = omega arith in
      let rounded = L.nearest_lem (left - min F.tenth left) in
      (omega (arith, q, rounded, a, b), omega (arith, q, rounded, a, b))

  -- Behind ten chunks at most one is left, which then is the rest.
  Left-zero : (left : ℕ) → Left F 0 left → F.nearest (left - min F.tenth left) ≡ 0
  unfolding Left
  Left-zero left (a, b) =
      let rounded = L.nearest_lem (left - min F.tenth left) in omega (arith, rounded, a, b)

  Left-one : (interval : ℕ) → Left F 10 (min interval F.one)
  unfolding Left
  Left-one interval = (omega (arith, L.tenth_lem), omega (arith, L.tenth_lem))

  sleep_polls_stop : (fuel : ℕ) (shutdown : ℕ → Bool) (i : ℕ) → sleep_polls F fuel shutdown i 0 ≡ i
  unfolding sleep_polls
  sleep_polls_stop zero shutdown i = refl
  sleep_polls_stop (suc fuel) shutdown i = refl

  -- The pause goes on through at least no poll and at most eleven, and not past the shutdown.
  sleep_polls_bounds :
      (fuel : ℕ) (shutdown : ℕ → Bool) (m i n left : ℕ)
      → shutdown m ≡ true
      → i ≤ m
      → Left F n left
      → (i ≤ sleep_polls F fuel shutdown i left)
        × (sleep_polls F fuel shutdown i left ≤ m)
        × (sleep_polls F fuel shutdown i left ≤ i + n + 1)
  unfolding sleep_polls
  sleep_polls_bounds zero shutdown m i n left h l f = (omega arith, omega (arith, l), omega arith)
  sleep_polls_bounds (suc fuel) shutdown m i zero left h l f = elim (Bool-cases (shutdown i)) [
    | inl set ↦ ground (arith, set, l)
    | inr unset ↦
        let lt = lt_of_unset shutdown i m h unset l in
        ground (arith, unset, lt, l, Left-zero left f, sleep_polls_stop fuel shutdown (suc i))
  ]
  sleep_polls_bounds (suc fuel) shutdown m i (suc n) left h l f = elim (Bool-cases (shutdown i)) [
    | inl set ↦ ground (arith, set, l)
    | inr unset ↦
        let lt = lt_of_unset shutdown i m h unset l in
        let rest = F.nearest (left - min F.tenth left) in
        ground (
          arith,
          unset,
          lt,
          l,
          sleep_polls_bounds fuel shutdown m (suc i) n rest h (omega (arith, lt))
              (Left-suc n left f),
        )
  ]

  -- More fuel changes nothing.
  sleep_polls_enough :
      (n f g : ℕ) (shutdown : ℕ → Bool) (i left : ℕ)
      → n + 2 ≤ f
      → n + 2 ≤ g
      → Left F n left
      → sleep_polls F f shutdown i left ≡ sleep_polls F g shutdown i left
  unfolding sleep_polls
  sleep_polls_enough n zero g shutdown i left hf hg l = absurd (omega (arith, hf))
  sleep_polls_enough n (suc f) zero shutdown i left hf hg l = absurd (omega (arith, hg))
  sleep_polls_enough zero (suc f) (suc g) shutdown i left hf hg l = ground (
    arith,
    Left-zero left l,
    sleep_polls_stop f shutdown (suc i),
    sleep_polls_stop g shutdown (suc i),
  )
  sleep_polls_enough (suc n) (suc f) (suc g) shutdown i left hf hg l = ground (
    arith,
    sleep_polls_enough n f g shutdown (suc i) (F.nearest (left - min F.tenth left))
        (omega (arith, hf)) (omega (arith, hg)) (Left-suc n left l),
  )

  after_pause_enough :
      (args : Args) (shutdown : ℕ → Bool) (i more : ℕ)
      → sleep_polls F (12 + more) shutdown i (min args.poll_interval F.one)
        ≡ after_pause F args shutdown i
  unfolding after_pause
  after_pause_enough args shutdown i more =
      sleep_polls_enough 10 (12 + more) 12 shutdown i (min args.poll_interval F.one) (omega arith)
        (omega arith) (Left-one args.poll_interval)

  after_pause_bounds :
      (args : Args) (shutdown : ℕ → Bool) (m i : ℕ)
      → shutdown m ≡ true
      → i ≤ m
      → (i ≤ after_pause F args shutdown i)
        × (after_pause F args shutdown i ≤ m)
        × (after_pause F args shutdown i ≤ i + 11)
  unfolding after_pause
  after_pause_bounds args shutdown m i h l = omega (
    arith,
    sleep_polls_bounds 12 shutdown m i 10 (min args.poll_interval F.one) h l
        (Left-one args.poll_interval),
  )

module _ (P : Platform) (L : IsFloats P.floats) (args : Args) (shutdown : ℕ → Bool) (m : ℕ)
    (h : shutdown m ≡ true) where
  module _ (fds : Fds) (clock : ℕ → ℕ) where
    loop_from :
        (fuel i : ℕ) (w : World P)
        → i ≤ m
        → m < i + fuel
        → loop P fuel args fds shutdown clock i w
          ≡ rounds P args fds (starts P.floats fuel args shutdown clock i) w
    unfolding loop starts rounds
    loop_from zero i w l f = absurd (omega arith)
    loop_from (suc fuel) i w l f = elim (Bool-cases (shutdown i)) [
      | inl set ↦ ground (arith, set)
      | inr unset ↦
          let lt = lt_of_unset shutdown i m h unset l in
          let (b, c, _) =
            after_pause_bounds P.floats L args shutdown m (suc i) h (omega (arith, lt)) in
          ground (
            arith,
            unset,
            loop_from fuel (after_pause P.floats args shutdown (suc i))
                (round P args fds (clock i) w).1 c (omega (arith, b, f)),
          )
    ]

-- A round has its poll and at most eleven of its pause.
length-starts :
    (F : Floats) (L : IsFloats F) (args : Args) (shutdown : ℕ → Bool) (clock : ℕ → ℕ) (m fuel i : ℕ)
    → IsShutdown shutdown m
    → i ≤ m
    → m < i + fuel
    → (i + length (starts F fuel args shutdown clock i) ≤ m)
      × (m ≤ i + 12 * length (starts F fuel args shutdown clock i))
unfolding starts
length-starts F L args shutdown clock m zero i h l f = absurd (omega arith)
length-starts F L args shutdown clock m (suc fuel) i h l f = elim (Bool-cases (shutdown i)) [
  | inl set ↦ ground (arith, set, h.unseen i, l)
  | inr unset ↦
      let lt = lt_of_unset shutdown i m h.seen unset l in
      let (b, c, d) = after_pause_bounds F L args shutdown m (suc i) h.seen (omega (arith, lt)) in
      let next = after_pause F args shutdown (suc i) in
      ground (
        arith,
        unset,
        b,
        c,
        d,
        length-starts F L args shutdown clock m fuel next h c (omega (arith, b, f)),
      )
]

starts-IsAscending :
    (F : Floats) (L : IsFloats F) (args : Args) (shutdown : ℕ → Bool) (clock : ℕ → ℕ) (m fuel i : ℕ)
    → shutdown m ≡ true
    → ((a b : ℕ) → a ≤ b → clock a ≤ clock b)
    → i ≤ m
    → IsAscending (clock i) (starts F fuel args shutdown clock i)
unfolding starts
starts-IsAscending F L args shutdown clock m fuel i h mono l = go fuel i i l (omega arith)
  where
    go :
        (fuel b i : ℕ) → i ≤ m → b ≤ i → IsAscending (clock b) (starts F fuel args shutdown clock i)
    go zero b i l lb = tt
    go (suc fuel) b i l lb = elim (Bool-cases (shutdown i)) [
      | inl set ↦
          let e : starts F (suc fuel) args shutdown clock i ≡ [] = ground (arith, set) in
          subst (IsAscending (clock b)) (sym e) tt
      | inr unset ↦
          let lt = lt_of_unset shutdown i m h unset l in
          let (n, c, _) = after_pause_bounds F L args shutdown m (suc i) h (omega (arith, lt)) in
          let next = after_pause F args shutdown (suc i) in
          let e : starts F (suc fuel) args shutdown clock i
              ≡ clock i ∷ starts F fuel args shutdown clock next =
            ground (arith, unset) in
          subst (IsAscending (clock b)) (sym e) (mono b i lb, go fuel i next c (omega (arith, n)))
    ]

-- The loop is the rounds at these times.
pub loop-rounds :
    (P : Platform) (L : IsFloats P.floats) (args : Args) (fds : Fds) (shutdown : ℕ → Bool)
    (clock : ℕ → ℕ) (m : ℕ) (w : World P)
    → IsShutdown shutdown m
    → loop P (suc m) args fds shutdown clock 0 w
      ≡ rounds P args fds (starts P.floats (suc m) args shutdown clock 0) w
loop-rounds P L args fds shutdown clock m w h =
    loop_from P L args shutdown m h.seen fds clock (suc m) 0 w (omega arith) (omega arith)

pub starts_lem :
    (F : Floats) (L : IsFloats F) (args : Args) (shutdown : ℕ → Bool) (clock : ℕ → ℕ) (m : ℕ)
    → IsShutdown shutdown m
    → ((a b : ℕ) → a ≤ b → clock a ≤ clock b)
    → IsAscending (clock 0) (starts F (suc m) args shutdown clock 0)
      × (length (starts F (suc m) args shutdown clock 0) ≤ m)
      × (m ≤ 12 * length (starts F (suc m) args shutdown clock 0))
starts_lem F L args shutdown clock m h mono =
    let (most, least) =
      length-starts F L args shutdown clock m (suc m) 0 h (omega arith) (omega arith) in
    (
      starts-IsAscending F L args shutdown clock m (suc m) 0 h.seen mono (omega arith),
      omega (arith, most),
      omega (arith, least),
    )
