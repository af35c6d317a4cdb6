-- ===== src/Brain/Expire/Counts.antt =====
-- The unblock events that `expire_blocks` counts.
use flux_guard.Base.{
  ℕ, ◌+◌, ◌≤◌, ◌≡◌, ◌≢◌, Bool, true, false, none, List, [], ◌∷◌, arith, leb, if◌then◌else◌, Text,
  length,
}
use flux_guard.Base.Dict.{Dict, lookup, erase, NodupKeys}
use flux_guard.Base.Dict.Laws.{lookup-erase_ne}
use flux_guard.Brain.State.{Platform, Fds, World}
use flux_guard.Brain.Expire.{expired, end_block, end_blocks, save_if_any, expire_blocks}
use flux_guard.Brain.Expire.Laws.{mem, mem-expired, blocked-end_block, end_block-counts}

-- The addresses are different from one another, and blocked.
abbrev Listed : List Text → Dict ℕ → Type 0
Listed [] d = Unit
Listed (ip ∷ ips) d = (lookup ip d ≢ none) × (mem ip ips ≡ false) × Listed ips d

Listed-erase :
    (ip : Text) (ips : List Text) (d : Dict ℕ)
    → mem ip ips ≡ false
    → Listed ips d
    → Listed ips (erase ip d)
unfolding mem
Listed-erase ip [] d h l = tt
Listed-erase ip (j ∷ ips) d h (present, fresh, l) =
    (ground (arith, lookup-erase_ne j ip d), fresh, Listed-erase ip ips d (ground arith) l)

Listed-cons :
    (ips : List Text) (k : Text) (ts : ℕ) (d : Dict ℕ)
    → lookup k d ≡ none
    → Listed ips d
    → Listed ips ((k, ts) ∷ d)
unfolding lookup
Listed-cons [] k ts d h l = tt
Listed-cons (j ∷ ips) k ts d h (present, fresh, l) =
    (ground arith, fresh, Listed-cons ips k ts d h l)

Listed-if :
    (b : Bool) (k : Text) (ips : List Text) (d : Dict ℕ)
    → Listed (k ∷ ips) d
    → Listed ips d
    → Listed (if b then k ∷ ips else ips) d
Listed-if true k ips d yes' no' = yes'
Listed-if false k ips d yes' no' = no'

expired-Listed : (now : ℕ) (d : Dict ℕ) → NodupKeys d → Listed (expired now d) d
unfolding expired lookup
expired-Listed now [] u = tt
expired-Listed now ((k, ts) ∷ d) (fresh, u) =
    let rest = Listed-cons (expired now d) k ts d fresh (expired-Listed now d u) in
    Listed-if (leb ts now) k (expired now d) ((k, ts) ∷ d)
      (ground arith, ground (arith, mem-expired now k d u), rest) rest

module _ (P : Platform) (fds : Fds) where
  end_blocks-counts :
      (ips : List Text) (w : World P)
      → Listed ips w.blocked_until
      → (end_blocks P fds ips w).1.metrics.unblock_events
          + length (end_blocks P fds ips w).1.blocked_until
        ≤ w.metrics.unblock_events + length w.blocked_until
  unfolding end_blocks
  end_blocks-counts [] w l = omega arith
  end_blocks-counts (ip ∷ ips) w (present, fresh, l) = ground (
    arith,
    end_block-counts P fds ip w present,
    end_blocks-counts ips (end_block P fds ip w).1
        (rw (blocked-end_block P fds ip w) (Listed-erase ip ips w.blocked_until fresh l)),
  )

  pub expire_blocks-counts :
      (now : ℕ) (w : World P)
      → NodupKeys w.blocked_until
      → (expire_blocks P fds now w).1.metrics.unblock_events
          + length (expire_blocks P fds now w).1.blocked_until
        ≤ w.metrics.unblock_events + length w.blocked_until
  unfolding expire_blocks save_if_any
  expire_blocks-counts now w u = ground (
    arith,
    end_blocks-counts (expired now w.blocked_until) w (expired-Listed now w.blocked_until u),
  )
