-- ===== src/Tests/Looped.antt =====
-- A shutdown at the fifth poll.
use flux_guard.Base.{ℕ, Bool, none, leb}
use flux_guard.Brain.State.{World, missing}
use flux_guard.Brain.Startup.{entered}
use flux_guard.Tests.OneEntry.{lab}

abbrev before : World lab
before = entered lab none missing

abbrev shutdown : ℕ → Bool
shutdown k = leb 4 k
