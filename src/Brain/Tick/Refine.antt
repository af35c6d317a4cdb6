-- ===== src/Brain/Tick/Refine.antt =====
-- The brain's table through a run, address by address.
use flux_guard.Base.{
  ℕ, ◌<◌, ◌≤◌, ◌⊎◌, inl, inr, ◌≡◌, sym, subst, ap, Bool, some, List, [], ◌∷◌, Text, All,
}
use flux_guard.Base.Dict.{lookup, NodupKeys}
use flux_guard.Base.Exec.{ok}
use flux_guard.Brain.State.{Platform, Args, Fds, World}
use flux_guard.Brain.Blocks.{
  Step, Run, done, still_blocked-Step, Run-kept, IsOver, Ascending, Reaches, Run-IsOver,
}
use flux_guard.Brain.Blocks
use flux_guard.Brain.Tick.{round, rounds}
use flux_guard.Brain.Tick.Table.{found_in, round-blocked_until, rounds_step, rounds_end}
use flux_guard.Brain.Tick.Counts.{round-NodupKeys}

-- The times of the rounds do not go back.
abbrev pub IsAscending : ℕ → List ℕ → Type 0
IsAscending b [] = Unit
IsAscending b (now ∷ nows) = (b ≤ now) × IsAscending now nows

-- A round is not before the time.
abbrev pub IsReached : ℕ → List ℕ → Type 0
IsReached t [] = ⊥
IsReached t (now ∷ nows) = (t ≤ now) ⊎ IsReached t nows

module _ (P : Platform) (args : Args) (fds : Fds) (j : Text) where
  -- The times of the rounds, each with whether its reads show the address to be blocked.
  abbrev pub sightings : List ℕ → World P → List (ℕ × Bool)
  sightings [] w = []
  sightings (now ∷ nows) w =
      let w' = (round P args fds now w).1 in (now, found_in j w') ∷ sightings nows w'

  -- The table refines the machine of one address: from a table with each address once, over a run
  -- that returns, an address goes through the steps of that machine, at the times of the rounds and
  -- by what each round has read.
  pub rounds-Run :
      (nows : List ℕ) (w w' : World P)
      → NodupKeys w.blocked_until
      → rounds P args fds nows w ≡ (ok tt, w')
      → Run args.cooldown_sec
          (sightings nows w)
          (lookup j w.blocked_until)
          (lookup j w'.blocked_until)
  rounds-Run [] w w' u h =
      subst
        (λ (v : World P).
          Run args.cooldown_sec [] (lookup j w.blocked_until) (lookup j v.blocked_until))
        (rounds_end P args fds w w' h) (done _)
  rounds-Run (now ∷ nows) w w' u h =
      let (v, step, rest) = rounds_step P args fds now nows w w' h in
      let next : (round P args fds now w).1 ≡ v = ap (λ r. r.1) step in
      let one : Step args.cooldown_sec now (found_in j v) (lookup j w.blocked_until)
          (lookup j v.blocked_until) =
        subst (Step args.cooldown_sec now (found_in j v) (lookup j w.blocked_until))
          (sym (round-blocked_until P args fds now j w v u step))
          (still_blocked-Step args.cooldown_sec now (found_in j v) (lookup j w.blocked_until)) in
      let tail = rounds-Run nows v w' (round-NodupKeys P args fds now w v u step) rest in
      rw next (Blocks.round now (found_in j v) (sightings nows v) _ _ _ one tail)

  sightings-All :
      (nows : List ℕ) (w : World P) (t : ℕ)
      → All (λ now. now < t) nows
      → All (λ i. i.0 < t) (sightings nows w)
  sightings-All [] w t h = tt
  sightings-All (now ∷ nows) w t (l, h) = (l, sightings-All nows (round P args fds now w).1 t h)

  -- No block ends early: from a table with each address once, over a run that returns, an address
  -- that is blocked until a time keeps its block and its time through all rounds before that time.
  rounds-kept :
      (nows : List ℕ) (w w' : World P) (t : ℕ)
      → NodupKeys w.blocked_until
      → rounds P args fds nows w ≡ (ok tt, w')
      → lookup j w.blocked_until ≡ some t
      → All (λ now. now < t) nows
      → lookup j w'.blocked_until ≡ some t
  rounds-kept nows w w' t u h e l =
      Run-kept args.cooldown_sec (sightings nows w) _ _ t (rounds-Run nows w w' u h) e
        (sightings-All nows w t l)

  sightings-Ascending :
      (b : ℕ) (nows : List ℕ) (w : World P) → IsAscending b nows → Ascending b (sightings nows w)
  sightings-Ascending b [] w h = tt
  sightings-Ascending b (now ∷ nows) w (l, h) =
      (l, sightings-Ascending now nows (round P args fds now w).1 h)

  sightings-Reaches :
      (t : ℕ) (nows : List ℕ) (w : World P) → IsReached t nows → Reaches t (sightings nows w)
  sightings-Reaches t [] w h = h
  sightings-Reaches t (now ∷ nows) w (inl l) = inl l
  sightings-Reaches t (now ∷ nows) w (inr h) =
      inr (sightings-Reaches t nows (round P args fds now w).1 h)

  -- Every block ends: from a table with each address once, over a run that returns, at times that
  -- do not go back and that reach the end of an address's block, the block is gone, whatever the
  -- kernel has answered; a block that the address then has is a newer one, which ends later.
  pub rounds-IsOver :
      (nows : List ℕ) (w w' : World P) (b t : ℕ)
      → NodupKeys w.blocked_until
      → rounds P args fds nows w ≡ (ok tt, w')
      → lookup j w.blocked_until ≡ some t
      → IsAscending b nows
      → IsReached t nows
      → IsOver t (lookup j w'.blocked_until)
  rounds-IsOver nows w w' b t u h e a r =
      Run-IsOver args.cooldown_sec b (sightings nows w) _ _ t (rounds-Run nows w w' u h) e
        (sightings-Ascending b nows w a) (sightings-Reaches t nows w r)
