-- ===== src/Tests/Turns.antt =====
-- A block that the packet filter makes between two rounds.
use flux_guard.Base.{◌≡◌, refl, none, some, List, [], ◌∷◌, ◌++◌, arith}
use flux_guard.Base.Dict.{lookup}
use flux_guard.Base.Exec.{ok}
use flux_guard.Address.Ipv4
use flux_guard.Brain.Blacklist.{entry}
use flux_guard.Brain.State.{World, missing}
use flux_guard.Brain.Startup.{entered}
use flux_guard.Brain.Tick.Sighted.{IsUnlisted}
use flux_guard.Brain.Tick.Turns.{Turn, turns, meanwhile, turns-lifted, turns-held}
use flux_guard.Tests.Total.{fds, args}
use flux_guard.Tests.OneEntry.{host, maps, lab, lab-Serves, lab-Deletes, host-IsPacked}

abbrev before : World lab
before = entered lab none missing

-- The filter blocks the host; then nobody writes; then the filter blocks it again.
abbrev first : Turn lab
first = (λ s. some 1, 10)

abbrev middle : List (Turn lab)
middle = (λ s. s, 20) ∷ (λ s. s, 30) ∷ []

abbrev last : Turn lab
last = (λ s. some 2, 40)

there : entry lab maps fds host (meanwhile lab first.0 before) ≡ some 1
unfolding lookup flux_guard.Base.text_dec
there = refl

unlisted : IsUnlisted lab maps fds host (meanwhile lab first.0 before)
unfolding lookup
unlisted = (refl, refl)

new : lookup (Ipv4.format host) before.blocked_until ≡ none
unfolding lookup
new = refl

turns-lifted_example :
    (lookup (Ipv4.format host) (turns lab args fds (first ∷ middle) before).1.blocked_until
      ≡ some 40)
    × ((turns lab args fds (first ∷ middle ++ last ∷ []) before).0 ≡ ok tt)
    × (lookup
          (Ipv4.format host)
          (turns lab args fds (first ∷ middle ++ last ∷ []) before).1.blocked_until
        ≡ none)
    × (entry lab maps fds host (turns lab args fds (first ∷ middle ++ last ∷ []) before).1 ≡ none)
turns-lifted_example =
    turns-lifted lab maps fds lab-Serves lab-Deletes args (omega arith) host host-IsPacked first.0
      last.0 10 40 1 middle before tt (tt, tt, tt) new there unlisted
      (omega arith, (omega arith, tt)) (omega arith)

turns-held_example : entry lab maps fds host (turns lab args fds (first ∷ middle) before).1 ≡ some 1
turns-held_example =
    turns-held lab maps fds lab-Serves lab-Deletes args (omega arith) host host-IsPacked first.0 10
      1 middle before tt (tt, tt, tt) new there unlisted (omega arith, (omega arith, tt))
      ((λ s v e. e), ((λ s v e. e), tt))
