-- ===== src/Brain/Tick/Freed.antt =====
-- What a round and a run leave in the kernel's blacklist of IPv4.
use flux_guard.Base.{
  ℕ, ◌<◌, ◌≡◌, refl, ap, ◌∙◌, Bool, Option, none, some, List, [], ◌∷◌, leb, if◌then◌else◌, arith,
  Bool-cases, inl, inr, Text,
}
use flux_guard.Base.Dict.{Dict, lookup, NodupKeys}
use flux_guard.Base.Exec.{ok}
use flux_guard.Address.{IsPacked}
use flux_guard.Bpf.Laws.{HashMaps}
use flux_guard.Brain.State.{Platform, Args, Fds, World, logged, save_checkpoint}
use flux_guard.Brain.Detect.{
  check_shields_state, detect_one_state, start_block_state, detect_blocks_state,
}
use flux_guard.Brain.Detect.Laws.{block_time}
use flux_guard.Brain.Expire.{expire_blocks}
use flux_guard.Brain.Expire.Laws.{is_over}
use flux_guard.Brain.Blacklist.{entry}
use flux_guard.Brain.Expire.Unblocks.{Deletes, entry-expire_blocks}
use flux_guard.Brain.Tick.{snapshot, detect_all_state, publish_state, round, rounds}
use flux_guard.Brain.Tick.Counts.{round-NodupKeys}
use flux_guard.Brain.Tick.Reads.{refresh_allowlists-Keeps, read_maps-Keeps}
use flux_guard.Brain.Tick.Refine.{IsReached}
use flux_guard.Brain.Tick.Returns.{Serves, IsAddressed}
use flux_guard.Brain.Tick.Table.{
  found_in, after_reads, detected, checked, detected-NodupKeys, lookup-detected, round_steps,
  round-blocked_until,
}
use flux_guard.Brain.Tick.Total.{check_shields-IsAddressed, detect_all-IsAddressed, round-Keeps}
use flux_guard.Brain.Tick.Untouched.{after_reads-SameMaps}

module _ (P : Platform) where
  kernel-check_shields : (w : World P) → (check_shields_state P w).kernel ≡ w.kernel
  unfolding check_shields_state logged
  kernel-check_shields w = ground arith

  kernel-detect_one :
      (now cooldown : ℕ) (allowed : Dict ℕ) (ip : Text) (w : World P)
      → (detect_one_state P now cooldown allowed ip w).kernel ≡ w.kernel
  unfolding detect_one_state start_block_state logged save_checkpoint
  kernel-detect_one now cooldown allowed ip w = ground arith

  kernel-detect_blocks :
      (now cooldown : ℕ) (allowed blacklist : Dict ℕ) (w : World P)
      → (detect_blocks_state P now cooldown allowed blacklist w).kernel ≡ w.kernel
  unfolding detect_blocks_state
  kernel-detect_blocks now cooldown allowed [] w = refl
  kernel-detect_blocks now cooldown allowed ((ip, v) ∷ blacklist) w =
      kernel-detect_blocks now cooldown allowed blacklist
        (detect_one_state P now cooldown allowed ip w)
      ∙ kernel-detect_one now cooldown allowed ip w

  kernel-detect_all :
      (args : Args) (now : ℕ) (w : World P) → (detect_all_state P args now w).kernel ≡ w.kernel
  unfolding detect_all_state
  kernel-detect_all args now w =
      kernel-detect_blocks now args.cooldown_sec _ _ _
      ∙ kernel-detect_blocks now args.cooldown_sec w.allowlist_cache w.readings.curr_blacklist w

  kernel-publish : (args : Args) (w : World P) → (publish_state P args w).kernel ≡ w.kernel
  unfolding publish_state snapshot logged
  kernel-publish args w = ground arith

-- A new block is not over at once.
is_over-block_time :
    (now cooldown : ℕ) (found : Bool) (o : Option ℕ)
    → 0 < cooldown
    → is_over now (block_time now cooldown found o) ≡ is_over now o
is_over-block_time now cooldown found none h = ground arith
is_over-block_time now cooldown found (some t) h = refl

module _ (P : Platform) (M : HashMaps P.bpf) (fds : Fds) (S : Serves P M fds) (D : Deletes P M fds)
    (args : Args) (lasting : 0 < args.cooldown_sec) (j : Text) (pj : IsPacked P.v4.width j) where
  detected-IsAddressed :
      (now : ℕ) (w : World P) → IsAddressed P w → IsAddressed P (detected P args fds now w)
  unfolding detected after_reads
  detected-IsAddressed now w h =
      let (_, h1) = (refresh_allowlists-Keeps P M fds S args now).at w h in
      let (_, h2) = (read_maps-Keeps P M fds S).at _ h1 in
      detect_all-IsAddressed P args now _ (check_shields-IsAddressed P _ h2)

  entry-detected :
      (now : ℕ) (w : World P) → entry P M fds j (detected P args fds now w) ≡ entry P M fds j w
  unfolding detected
  entry-detected now w =
      ap (λ k. lookup j (M.entries fds.blacklist k))
        (kernel-detect_all P args now _ ∙ kernel-check_shields P _)
      ∙ after_reads-SameMaps P M fds S args now w fds.blacklist j

  pub entry-round :
      (now : ℕ) (w w' : World P)
      → NodupKeys w.blocked_until
      → IsAddressed P w
      → round P args fds now w ≡ (ok tt, w')
      → entry P M fds j w'
        ≡ (if is_over now (lookup (P.v4.format j) w.blocked_until) then none else entry P M fds j w)
  entry-round now w w' u h e =
      let d = detected P args fds now w in
      ground (
        arith,
        (round_steps P args fds now w w' e).1,
        kernel-publish P args (expire_blocks P fds now d).1,
        entry-expire_blocks P M fds D now j d pj (detected-NodupKeys P args fds now w u)
            (detected-IsAddressed now w h).0,
        lookup-detected P args fds now (P.v4.format j) w,
        is_over-block_time now args.cooldown_sec
            (found_in (P.v4.format j) (checked P args fds now w))
            (lookup (P.v4.format j) w.blocked_until) lasting,
        entry-detected now w,
      )

  -- The rounds that a run takes return, and keep the table fit for the next.
  pub round_returns :
      (now : ℕ) (w : World P)
      → IsAddressed P w
      → (w' : World P) × (round P args fds now w ≡ (ok tt, w')) × IsAddressed P w'
  round_returns now w h =
      let (r, h') = (round-Keeps P M fds S args now).at w h in
      ((round P args fds now w).1, ground (arith, r), h')

  -- An address that is not in the blacklist does not get there.
  rounds-absent :
      (nows : List ℕ) (w : World P)
      → NodupKeys w.blocked_until
      → IsAddressed P w
      → entry P M fds j w ≡ none
      → entry P M fds j (rounds P args fds nows w).1 ≡ none
  unfolding rounds
  rounds-absent [] w u h e = e
  rounds-absent (now ∷ nows) w u h e =
      let (v, step, hv) = round_returns now w h in
      let gone : entry P M fds j v ≡ none = ground (arith, entry-round now w v u h step, e) in
      let rest = rounds-absent nows v (round-NodupKeys P args fds now w v u step) hv gone in
      ground (arith, step, rest)

  -- Every block is lifted in the kernel: where the log file takes every line, the kernel serves
  -- the program's maps, refuses no deletion of an entry and has no other writer, the blacklists
  -- of the two families are two maps, IPv4 texts are canonical and without a colon, the cooldown
  -- is not 0, every address is valid and there once, and an IPv4 address is blocked until a time:
  -- after a run with a round that is not before that time, the IPv4 blacklist of the kernel has
  -- no entry of the address.
  pub rounds-freed :
      (nows : List ℕ) (w : World P) (t : ℕ)
      → NodupKeys w.blocked_until
      → IsAddressed P w
      → lookup (P.v4.format j) w.blocked_until ≡ some t
      → IsReached t nows
      → entry P M fds j (rounds P args fds nows w).1 ≡ none
  unfolding rounds
  rounds-freed [] w t u h e r = absurd r
  rounds-freed (now ∷ nows) w t u h e r =
      let (v, step, hv) = round_returns now w h in
      let uv = round-NodupKeys P args fds now w v u step in
      let left = entry-round now w v u h step in
      elim (Bool-cases (leb t now)) [
        | inl due ↦
            let gone : entry P M fds j v ≡ none = ground (arith, left, e, due) in
            ground (arith, step, rounds-absent nows v uv hv gone)
        | inr early ↦
            let kept : lookup (P.v4.format j) v.blocked_until ≡ some t =
              ground
                (arith, round-blocked_until P args fds now (P.v4.format j) w v u step, e, early) in
            let later : IsReached t nows = ground (arith, r, early) in
            ground (arith, step, rounds-freed nows v t uv hv kept later)
      ]
