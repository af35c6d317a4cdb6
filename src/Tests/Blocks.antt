-- ===== src/Tests/Blocks.antt =====
-- Runs of the brain's loop from a table with one block, on a kernel that always answers.
use flux_guard.Base.{
  ℕ, ◌≡◌, refl, some, [], ◌∷◌, arith, List, Text, codes, text_dec, has_char, inl, inr,
}
use flux_guard.Base.Dict.{Dict, lookup, NodupKeys}
use flux_guard.Base.Exec.{ok}
use flux_guard.Address.Ipv4
use flux_guard.Brain.State.{World}
use flux_guard.Brain.Blocks.{Run, IsOver}
use flux_guard.Brain.Tick.{rounds}
use flux_guard.Brain.Tick.Returns.{IsAddressed}
use flux_guard.Brain.Tick.Total.{rounds_return}
use flux_guard.Brain.Tick.Refine.{sightings, rounds-Run, rounds-IsOver}
use flux_guard.Tests.Total.{still, frozen_maps, still-Serves, fds, args, start}

abbrev host : Text
host = codes "10.0.0.7"

abbrev blocks : Dict ℕ
blocks = (host, 25) ∷ []

blocks-NodupKeys : NodupKeys blocks
unfolding lookup
blocks-NodupKeys = (refl, tt)

abbrev before : World still
before = record start { blocked_until = blocks }

before-IsAddressed : IsAddressed still before
unfolding has_char Ipv4.parse
before-IsAddressed = ground arith

abbrev after : List ℕ → World still
after nows = (rounds still args fds nows before).1

returns : (nows : List ℕ) → rounds still args fds nows before ≡ (ok tt, after nows)
returns nows =
    let (r, h) =
      rounds_return still frozen_maps fds still-Serves args nows before before-IsAddressed in
    ground (arith, r)

blocked : lookup host blocks ≡ some 25
unfolding lookup text_dec
blocked = refl

rounds-Run_example :
    Run 30
      (sightings still args fds host (10 ∷ 20 ∷ 40 ∷ []) before)
      (lookup host blocks)
      (lookup host (after (10 ∷ 20 ∷ 40 ∷ [])).blocked_until)
rounds-Run_example =
    rounds-Run still args fds host (10 ∷ 20 ∷ 40 ∷ []) before (after (10 ∷ 20 ∷ 40 ∷ []))
      blocks-NodupKeys (returns (10 ∷ 20 ∷ 40 ∷ []))

rounds-IsOver_example : IsOver 25 (lookup host (after (10 ∷ 20 ∷ 40 ∷ [])).blocked_until)
rounds-IsOver_example =
    rounds-IsOver still args fds host (10 ∷ 20 ∷ 40 ∷ []) before (after (10 ∷ 20 ∷ 40 ∷ [])) 0 25
      blocks-NodupKeys (returns (10 ∷ 20 ∷ 40 ∷ [])) blocked
      (omega arith, (omega arith, (omega arith, tt))) (inr (inr (inl (omega arith))))
