-- ===== src/Brain/Tick/Defended.antt =====
-- The packet filter and the brain together: packets between the rounds.
use flux_guard.Base.{
  ℕ, ◌+◌, ◌<◌, ◌≡◌, refl, sym, ◌∙◌, true, false, none, some, List, [], ◌∷◌, arith, Text, All, inl,
  inr,
}
use flux_guard.Base.Dict.{lookup, NodupKeys}
use flux_guard.Address.{IsPacked}
use flux_guard.Bpf.Laws.{HashMaps}
use flux_guard.Brain.Blacklist.{entry}
use flux_guard.Brain.State.{Platform, Args, Fds, World}
use flux_guard.Brain.Expire.Unblocks.{Deletes}
use flux_guard.Brain.Tick.Returns.{Serves, IsAddressed}
use flux_guard.Brain.Tick.Sighted.{IsUnlisted}
use flux_guard.Brain.Tick.Turns.{Turn, turns, meanwhile, IsSteady, turns-held}
use flux_guard.Filter.{
  xdp_drop, MapId, blacklist_map, allowlist_map, Helpers, inet4, fluxguard_filter,
}
use flux_guard.Filter.Runs.{Packets, filter_all}
use flux_guard.Filter.Verdicts.{is_lru, same_map, IsHelpers, sender, sender-blacklist}
use flux_guard.Filter.Leaves.{fluxguard_filter-Blocks, fluxguard_filter-drops}

same_map_eq : (m n : MapId) → same_map m n ≡ true → m ≡ n
same_map_eq m n h = ground (arith, h)

module _ {S : Type 0} (H : Helpers S) (L : IsHelpers H) where
  -- An entry that is there stays.
  filter-kept :
      (packet : List ℕ) (time v : ℕ) (m : MapId) (j : Text) (s : S)
      → is_lru m ≡ false
      → H.lookup_elem m j s ≡ some v
      → H.lookup_elem m j (fluxguard_filter H packet time s).1 ≡ some v
  filter-kept packet time v m j s p e = elim (fluxguard_filter-Blocks H L packet time m j s p) [
    | inl kept ↦ kept ∙ e
    | inr (x, _, b) ↦ ground (arith, b.own, b.unblocked, e, same_map_eq m x.family.blacklist)
  ]

  filter_all-kept :
      (packets : Packets) (v : ℕ) (m : MapId) (j : Text) (s : S)
      → is_lru m ≡ false
      → H.lookup_elem m j s ≡ some v
      → H.lookup_elem m j (filter_all H packets s) ≡ some v
  unfolding filter_all
  filter_all-kept [] v m j s p e = e
  filter_all-kept ((packet, time) ∷ packets) v m j s p e =
      filter_all-kept packets v m j _ p (filter-kept packet time v m j s p e)

  -- No source gets on the allowlist.
  filter-unlisted :
      (packet : List ℕ) (time : ℕ) (j : Text) (s : S)
      → H.lookup_elem allowlist_map j s ≡ none
      → H.lookup_elem allowlist_map j (fluxguard_filter H packet time s).1 ≡ none
  filter-unlisted packet time j s e =
      elim (fluxguard_filter-Blocks H L packet time allowlist_map j s refl) [
        | inl kept ↦ kept ∙ e
        | inr (x, q, b) ↦ ground (arith, b.own, sender-blacklist packet x q)
      ]

  filter_all-unlisted :
      (packets : Packets) (j : Text) (s : S)
      → H.lookup_elem allowlist_map j s ≡ none
      → H.lookup_elem allowlist_map j (filter_all H packets s) ≡ none
  unfolding filter_all
  filter_all-unlisted [] j s e = e
  filter_all-unlisted ((packet, time) ∷ packets) j s e =
      filter_all-unlisted packets j _ (filter-unlisted packet time j s e)

-- The rounds, each behind the packets since the one before.
abbrev pub turns_of : (P : Platform) → Helpers P.bpf.State → List (Packets × ℕ) → List (Turn P)
turns_of P H [] = []
turns_of P H ((packets, now) ∷ gaps) = (filter_all H packets, now) ∷ turns_of P H gaps

module _ (P : Platform) (M : HashMaps P.bpf) (fds : Fds) (S : Serves P M fds) (D : Deletes P M fds)
    (H : Helpers P.bpf.State) (L : IsHelpers H)
    (shared : (j : Text) (s : P.bpf.State)
      → lookup j (M.entries fds.blacklist s) ≡ H.lookup_elem blacklist_map j s)
    (args : Args) (lasting : 0 < args.cooldown_sec) (j : Text) (pj : IsPacked P.v4.width j) where
  filter_all-IsSteady :
      (packets : Packets) → IsSteady P M fds S D args lasting j pj (filter_all H packets)
  filter_all-IsSteady packets s v e =
      shared j (filter_all H packets s)
      ∙ filter_all-kept H L packets v blacklist_map j s refl (sym (shared j s) ∙ e)

  turns_of-IsSteady :
      (gaps : List (Packets × ℕ))
      → All (λ e. IsSteady P M fds S D args lasting j pj e.0) (turns_of P H gaps)
  turns_of-IsSteady [] = tt
  turns_of-IsSteady ((packets, now) ∷ gaps) = (filter_all-IsSteady packets, turns_of-IsSteady gaps)

  turns_of-All :
      (t : ℕ) (gaps : List (Packets × ℕ))
      → All (λ e. e.1 < t) gaps
      → All (λ e. e.1 < t) (turns_of P H gaps)
  turns_of-All t [] h = tt
  turns_of-All t ((packets, now) ∷ gaps) (l, h) = (l, turns_of-All t gaps h)

  -- The defence: where the log file takes every line, the kernel serves the program's maps and
  -- refuses no deletion of an entry, the blacklists of the two families are two maps, IPv4 texts
  -- are canonical and without a colon, the helpers are as documented and look up the blacklist of
  -- IPv4 that the brain reads, the cooldown is not 0, the addresses in the table are valid and
  -- there once, and an IPv4 source is neither in the table nor allowed when the packets before a
  -- round have put it in the blacklist: through all rounds before a cooldown after that round,
  -- and whatever packets come before, between and behind them, every packet of that source is
  -- dropped, unless it is on the allowlist by then.
  pub turns-defended :
      (attack packets : Packets) (now v time : ℕ) (gaps : List (Packets × ℕ)) (w : World P)
      (packet : List ℕ) (proto : ℕ)
      → NodupKeys w.blocked_until
      → IsAddressed P w
      → lookup (P.v4.format j) w.blocked_until ≡ none
      → entry P M fds j (meanwhile P (filter_all H attack) w) ≡ some v
      → IsUnlisted P M fds j (meanwhile P (filter_all H attack) w)
      → All (λ e. e.1 < now + args.cooldown_sec) gaps
      → sender packet ≡ some (record { family = inet4; src = j; proto = proto })
      → H.lookup_elem allowlist_map j
          (turns P args fds (turns_of P H ((attack, now) ∷ gaps)) w).1.kernel
        ≡ none
      → (fluxguard_filter H packet time (
          filter_all H packets
            (turns P args fds (turns_of P H ((attack, now) ∷ gaps)) w).1.kernel)).0
        ≡ xdp_drop
  turns-defended attack packets now v time gaps w packet proto nodup valid new there unlisted
        before_end from_j listed =
      let held =
        turns-held P M fds S D args lasting j pj (filter_all H attack) now v (turns_of P H gaps) w
          nodup valid new there unlisted (turns_of-All (now + args.cooldown_sec) gaps before_end)
          (turns_of-IsSteady gaps) in
      let k = (turns P args fds (turns_of P H ((attack, now) ∷ gaps)) w).1.kernel in
      fluxguard_filter-drops H L packet (record { family = inet4; src = j; proto = proto }) time v
        (filter_all H packets k) from_j (filter_all-unlisted H L packets j k listed)
        (filter_all-kept H L packets v blacklist_map j k refl (sym (shared j k) ∙ held))
