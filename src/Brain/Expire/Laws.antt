-- ===== src/Brain/Expire/Laws.antt =====
-- Which blocks `expire_blocks` ends, and what it counts.
use flux_guard.Base.{
  ℕ, ◌+◌, ◌≤◌, ◌≡◌, refl, ◌∙◌, ◌≢◌, Bool, false, ◌||◌, Option, none, some, List, [], ◌∷◌, arith,
  leb, if◌then◌else◌, Text, same, length, inl, inr, Option-cases,
}
use flux_guard.Base.Dict.{Dict, lookup, erase, NodupKeys}
use flux_guard.Base.Dict.Laws.{lookup-erase, erase-NodupKeys, length-erase}
use flux_guard.Base.Exec.{Result, ok, err}
use flux_guard.Brain.State.{logged, write_json_log, Platform, Fds, World, on_kernel}
use flux_guard.Brain.Expire.{
  expired, delete_block, note_unblock, forget, end_block, end_blocks, save_if_any, expire_blocks,
}

unfoldable pub mem : Text → List Text → Bool
mem j [] = false
mem j (ip ∷ ips) = same j ip || mem j ips

-- The time of a block that outlives `now`.
abbrev pub still_blocked : ℕ → Option ℕ → Option ℕ
still_blocked now none = none
still_blocked now (some ts) = if leb ts now then none else some ts

abbrev pub is_over : ℕ → Option ℕ → Bool
is_over now none = false
is_over now (some ts) = leb ts now

pub mem-expired :
    (now : ℕ) (j : Text) (d : Dict ℕ)
    → NodupKeys d
    → mem j (expired now d) ≡ is_over now (lookup j d)
unfolding mem expired lookup
mem-expired now j [] u = refl
mem-expired now j ((ip, ts) ∷ d) (fresh, u) = ground (arith, mem-expired now j d u)

module _ (P : Platform) (fds : Fds) where
  -- Deleting in the kernel leaves the table alone.
  pub blocked-delete_block :
      (ip : Text) (w : World P) → (delete_block P fds ip w).1.blocked_until ≡ w.blocked_until
  unfolding delete_block on_kernel
  blocked-delete_block ip w = ground arith

  -- Whatever the deletion does, the address leaves the table.
  pub blocked-end_block :
      (ip : Text) (w : World P) → (end_block P fds ip w).1.blocked_until ≡ erase ip w.blocked_until
  unfolding end_block note_unblock write_json_log logged forget
  blocked-end_block ip w = ground (arith, blocked-delete_block ip w)

  unblock_events-delete_block :
      (ip : Text) (w : World P) → (delete_block P fds ip w).1.metrics ≡ w.metrics
  unfolding delete_block on_kernel
  unblock_events-delete_block ip w = ground arith

  unblock_events-end_block :
      (ip : Text) (w : World P)
      → (end_block P fds ip w).1.metrics.unblock_events ≤ w.metrics.unblock_events + 1
  unfolding end_block note_unblock write_json_log logged forget
  unblock_events-end_block ip w = ground (arith, unblock_events-delete_block ip w)

  pub end_block-NodupKeys :
      (ip : Text) (w : World P)
      → NodupKeys w.blocked_until
      → NodupKeys (end_block P fds ip w).1.blocked_until
  end_block-NodupKeys ip w u = rw (blocked-end_block ip w) (erase-NodupKeys ip w.blocked_until u)

  pub lookup-end_blocks :
      (j : Text) (ips : List Text) (w : World P)
      → NodupKeys w.blocked_until
      → (end_blocks P fds ips w).0 ≡ ok tt
      → lookup j (end_blocks P fds ips w).1.blocked_until
        ≡ (if mem j ips then none else lookup j w.blocked_until)
  unfolding end_blocks mem
  lookup-end_blocks j [] w u h = refl
  lookup-end_blocks j (ip ∷ ips) w u h = ground (
    arith,
    lookup-end_blocks j ips (end_block P fds ip w).1 (end_block-NodupKeys ip w u),
    blocked-end_block ip w,
    lookup-erase j ip w.blocked_until u,
  )

  pub expire_blocks_ok :
      (now : ℕ) (w : World P)
      → (expire_blocks P fds now w).0 ≡ ok tt
      → ((end_blocks P fds (expired now w.blocked_until) w).0 ≡ ok tt)
        × ((expire_blocks P fds now w).1.blocked_until
            ≡ (end_blocks P fds (expired now w.blocked_until) w).1.blocked_until)
  unfolding expire_blocks save_if_any
  expire_blocks_ok now w h = ground arith

  -- Where no exception but an `OSError` comes up, a block is gone exactly when its time is over,
  -- also where the kernel refused to delete it.
  pub lookup-expire_blocks :
      (now : ℕ) (j : Text) (w : World P)
      → NodupKeys w.blocked_until
      → (expire_blocks P fds now w).0 ≡ ok tt
      → lookup j (expire_blocks P fds now w).1.blocked_until
        ≡ still_blocked now (lookup j w.blocked_until)
  lookup-expire_blocks now j w u h =
      let (done, same_table) = expire_blocks_ok now w h in
      rw same_table (
        lookup-end_blocks j (expired now w.blocked_until) w u done
        ∙ ground (arith, mem-expired now j w.blocked_until u))

  -- An invariant of one round is one of the loop.
  pub end_blocks_inv :
      (Q : World P → Type 0)
      → ((ip : Text) (w : World P) → Q w → Q (end_block P fds ip w).1)
      → (ips : List Text) (w : World P) → Q w
      → Q (end_blocks P fds ips w).1
  unfolding end_blocks
  end_blocks_inv Q keep [] w q = q
  end_blocks_inv Q keep (ip ∷ ips) w q =
      next (end_block P fds ip w).0 (keep ip w q)
        (end_blocks_inv Q keep ips (end_block P fds ip w).1)
    where
      next :
          (r : Result (Unit {0}))
          → Q (end_block P fds ip w).1
          → (Q (end_block P fds ip w).1 → Q (end_blocks P fds ips (end_block P fds ip w).1).1)
          → Q
              (elim r as (λ _. Result (Unit {0}) × World P) [
                | ok _ ↦ end_blocks P fds ips (end_block P fds ip w).1
                | err e ↦ (err e, (end_block P fds ip w).1)
              ]).1
      next (ok _) q' rest = rest q'
      next (err e) q' rest = q'

  pub end_block-counts :
      (ip : Text) (w : World P)
      → lookup ip w.blocked_until ≢ none
      → (end_block P fds ip w).1.metrics.unblock_events
          + length (end_block P fds ip w).1.blocked_until
        ≤ w.metrics.unblock_events + length w.blocked_until
  end_block-counts ip w h = elim (Option-cases (lookup ip w.blocked_until)) [
    | inl absent ↦ absurd (h absent)
    | inr (ts, found) ↦
        rw (blocked-end_block ip w)
          (omega (arith, length-erase ip ts w.blocked_until found, unblock_events-end_block ip w))
  ]
