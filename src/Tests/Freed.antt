-- ===== src/Tests/Freed.antt =====
-- A block that is lifted in the kernel.
use flux_guard.Base.{◌≡◌, refl, none, some, [], ◌∷◌, arith, codes, text_dec, has_char, inl, inr}
use flux_guard.Base.Dict.{lookup, NodupKeys}
use flux_guard.Address.Ipv4
use flux_guard.Brain.State.{World, missing}
use flux_guard.Brain.Blacklist.{entry}
use flux_guard.Brain.Startup.{entered}
use flux_guard.Brain.Tick.{rounds}
use flux_guard.Brain.Tick.Returns.{IsAddressed}
use flux_guard.Brain.Tick.Freed.{rounds-freed}
use flux_guard.Tests.Total.{fds, args}
use flux_guard.Tests.OneEntry.{host, maps, lab, lab-Serves, lab-Deletes, host-IsPacked}

abbrev before : World lab
before = record (entered lab (some 1) missing) { blocked_until = (codes "10.0.0.7", 25) ∷ [] }

before-NodupKeys : NodupKeys before.blocked_until
unfolding lookup
before-NodupKeys = (refl, tt)

before-IsAddressed : IsAddressed lab before
unfolding has_char Ipv4.parse
before-IsAddressed = ground arith

blocked : lookup (Ipv4.format host) before.blocked_until ≡ some 25
unfolding lookup text_dec Ipv4.format
blocked = refl

rounds-freed_example :
    entry lab maps fds host (rounds lab args fds (10 ∷ 20 ∷ 40 ∷ []) before).1 ≡ none
rounds-freed_example =
    rounds-freed lab maps fds lab-Serves lab-Deletes args (omega arith) host host-IsPacked
      (10 ∷ 20 ∷ 40 ∷ []) before 25 before-NodupKeys before-IsAddressed blocked
      (inr (inr (inl (omega arith))))
