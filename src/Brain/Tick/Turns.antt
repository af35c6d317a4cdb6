-- ===== src/Brain/Tick/Turns.antt =====
-- The loop of `monitor` with what others do to the kernel's maps between its rounds: the packet
-- filter, which blocks addresses, and the other programs.
use flux_guard.Base.{
  ℕ, ◌+◌, ◌<◌, ◌≤◌, ◌≡◌, refl, ◌∙◌, true, false, none, some, List, [], ◌∷◌, ◌++◌, leb, arith, Text,
  All,
}
use flux_guard.Base.Dict.{lookup, NodupKeys}
use flux_guard.Base.Exec.{ok, err, Exec}
use flux_guard.Address.{IsPacked}
use flux_guard.Bpf.Laws.{HashMaps}
use flux_guard.Brain.Blacklist.{entry}
use flux_guard.Brain.State.{Platform, Args, Fds, World}
use flux_guard.Brain.Expire.Unblocks.{Deletes}
use flux_guard.Brain.Tick.{round}
use flux_guard.Brain.Tick.Counts.{round-NodupKeys}
use flux_guard.Brain.Tick.Freed.{entry-round, round_returns}
use flux_guard.Brain.Tick.Returns.{Serves, IsAddressed}
use flux_guard.Brain.Tick.Sighted.{IsUnlisted, round-found}
use flux_guard.Brain.Tick.Table.{round-blocked_until}

-- A change of the kernel's maps, and the time of the round behind it.
abbrev pub Turn : Platform → Type 0
Turn P = (P.bpf.State → P.bpf.State) × ℕ

module _ (P : Platform) where
  abbrev pub meanwhile : (P.bpf.State → P.bpf.State) → World P → World P
  meanwhile f w = record w { kernel = f w.kernel }

  unfoldable pub turns : Args → Fds → List (Turn P) → Exec (World P) (Unit {0})
  turns args fds [] w = (ok tt, w)
  turns args fds ((f, now) ∷ ts) w =
      let (r, w') = round P args fds now (meanwhile f w) in
      elim r [ ok _ ↦ turns args fds ts w' | err e ↦ (err e, w') ]

  turns-append :
      (args : Args) (fds : Fds) (ts us : List (Turn P)) (w v : World P)
      → turns args fds ts w ≡ (ok tt, v)
      → turns args fds (ts ++ us) w ≡ turns args fds us v
  unfolding turns
  turns-append args fds [] us w v h = ground (arith, h)
  turns-append args fds ((f, now) ∷ ts) us w v h =
      ground (arith, turns-append args fds ts us (round P args fds now (meanwhile f w)).1 v, h)

module _ (P : Platform) (M : HashMaps P.bpf) (fds : Fds) (S : Serves P M fds) (D : Deletes P M fds)
    (args : Args) (lasting : 0 < args.cooldown_sec) (j : Text) (pj : IsPacked P.v4.width j) where
  -- The table has each address once, all of them valid, and the address until a time.
  record Blocked (t : ℕ) (w : World P) : Type 0 where
    nodup : NodupKeys w.blocked_until
    valid : IsAddressed P w
    until : lookup (P.v4.format j) w.blocked_until ≡ some t

  -- A turn before that time.
  turn-Blocked :
      (t now : ℕ) (f : P.bpf.State → P.bpf.State) (w : World P)
      → Blocked t w
      → now < t
      → (v : World P) × (round P args fds now (meanwhile P f w) ≡ (ok tt, v))
        × Blocked t v
        × (entry P M fds j v ≡ entry P M fds j (meanwhile P f w))
  turn-Blocked t now f w b l =
      let u = meanwhile P f w in
      let (v, step, hv) = round_returns P M fds S D args lasting j pj now u b.valid in
      let early : leb t now ≡ false = ground arith in
      (
        v,
        step,
        record {
          nodup = round-NodupKeys P args fds now u v b.nodup step;
          valid = hv;
          until = ground (
            arith,
            round-blocked_until P args fds now (P.v4.format j) u v b.nodup step,
            b.until,
            early,
          );
        },
        ground (
          arith,
          entry-round P M fds S D args lasting j pj now u v b.nodup b.valid step,
          b.until,
          early,
        ),
      )

  turns-Blocked :
      (t : ℕ) (ts : List (Turn P)) (w : World P)
      → Blocked t w
      → All (λ e. e.1 < t) ts
      → (v : World P) × (turns P args fds ts w ≡ (ok tt, v)) × Blocked t v
  unfolding turns
  turns-Blocked t [] w b l = (w, refl, b)
  turns-Blocked t ((f, now) ∷ ts) w b (l, ls) =
      let (u, step, bu, _) = turn-Blocked t now f w b l in
      let (v, rest, bv) = turns-Blocked t ts u bu ls in (v, ground (arith, step, rest), bv)

  -- The first turn, in which the filter blocks the address.
  first_turn :
      (f : P.bpf.State → P.bpf.State) (now v : ℕ) (w : World P)
      → NodupKeys w.blocked_until
      → IsAddressed P w
      → lookup (P.v4.format j) w.blocked_until ≡ none
      → entry P M fds j (meanwhile P f w) ≡ some v
      → IsUnlisted P M fds j (meanwhile P f w)
      → (u : World P) × (round P args fds now (meanwhile P f w) ≡ (ok tt, u))
        × Blocked (now + args.cooldown_sec) u
        × (entry P M fds j u ≡ some v)
  first_turn f now v w nodup valid new there unlisted =
      let w1 = meanwhile P f w in
      let (u, step, hu) = round_returns P M fds S D args lasting j pj now w1 valid in
      let found = round-found P M fds S j pj args now v w1 u there unlisted step in
      let early : leb (now + args.cooldown_sec) now ≡ false = ground (arith, lasting) in
      (
        u,
        step,
        record {
          nodup = round-NodupKeys P args fds now w1 u nodup step;
          valid = hu;
          until = ground (
            arith,
            round-blocked_until P args fds now (P.v4.format j) w1 u nodup step,
            new,
            found,
            early,
          );
        },
        ground (
          arith,
          entry-round P M fds S D args lasting j pj now w1 u nodup valid step,
          new,
          there,
        ),
      )

  -- The turn in which the block is over.
  last_turn :
      (t now : ℕ) (f : P.bpf.State → P.bpf.State) (w : World P)
      → Blocked t w
      → t ≤ now
      → (v : World P) × (round P args fds now (meanwhile P f w) ≡ (ok tt, v))
        × (lookup (P.v4.format j) v.blocked_until ≡ none)
        × (entry P M fds j v ≡ none)
  last_turn t now f w b l =
      let u = meanwhile P f w in
      let (v, step, _) = round_returns P M fds S D args lasting j pj now u b.valid in
      let due : leb t now ≡ true = ground arith in
      (
        v,
        step,
        ground (
          arith,
          round-blocked_until P args fds now (P.v4.format j) u v b.nodup step,
          b.until,
          due,
        ),
        ground (
          arith,
          entry-round P M fds S D args lasting j pj now u v b.nodup b.valid step,
          b.until,
          due,
        ),
      )

  -- A block and its end, with others at work on the kernel between the rounds: where the log file
  -- takes every line, the kernel serves the program's maps and refuses no deletion of an entry,
  -- the blacklists of the two families are two maps, IPv4 texts are canonical and without a
  -- colon, the cooldown is not 0, the addresses in the table are valid and there once, an IPv4
  -- address is not in the table and in no allowlist of its family, and the blacklist has got an
  -- entry of it before a round: that round blocks the address until a cooldown later, the rounds
  -- before that time keep the block and its time, and the first round that is not before it
  -- returns and leaves the address neither in the table nor in the kernel's blacklist, whatever
  -- others do to the maps behind the first round.
  pub turns-lifted :
      (f g : P.bpf.State → P.bpf.State) (now end v : ℕ) (ts : List (Turn P)) (w : World P)
      → NodupKeys w.blocked_until
      → IsAddressed P w
      → lookup (P.v4.format j) w.blocked_until ≡ none
      → entry P M fds j (meanwhile P f w) ≡ some v
      → IsUnlisted P M fds j (meanwhile P f w)
      → All (λ e. e.1 < now + args.cooldown_sec) ts
      → now + args.cooldown_sec ≤ end
      → (lookup (P.v4.format j) (turns P args fds ((f, now) ∷ ts) w).1.blocked_until
          ≡ some (now + args.cooldown_sec))
        × ((turns P args fds ((f, now) ∷ ts ++ (g, end) ∷ []) w).0 ≡ ok tt)
        × (lookup
              (P.v4.format j)
              (turns P args fds ((f, now) ∷ ts ++ (g, end) ∷ []) w).1.blocked_until
            ≡ none)
        × (entry P M fds j (turns P args fds ((f, now) ∷ ts ++ (g, end) ∷ []) w).1 ≡ none)
  unfolding turns
  turns-lifted f g now end v ts w nodup valid new there unlisted before after =
      let (u, step, bu, _) = first_turn f now v w nodup valid new there unlisted in
      let (x, middle, bx) = turns-Blocked (now + args.cooldown_sec) ts u bu before in
      let (y, last, table, gone) = last_turn (now + args.cooldown_sec) end g x bx after in
      let all = turns-append P args fds ts ((g, end) ∷ []) u x middle in
      (
        ground (arith, step, middle, bx.until),
        ground (arith, step, all, last),
        ground (arith, step, all, last, table),
        ground (arith, step, all, last, gone),
      )

  -- Others leave an entry of the address that is there.
  abbrev pub IsSteady : (P.bpf.State → P.bpf.State) → Type 0
  IsSteady f =
      (s : P.bpf.State) (v : ℕ)
      → lookup j (M.entries fds.blacklist s) ≡ some v
      → lookup j (M.entries fds.blacklist (f s)) ≡ some v

  steady_turns :
      (t v : ℕ) (ts : List (Turn P)) (w : World P)
      → Blocked t w
      → All (λ e. e.1 < t) ts
      → All (λ e. IsSteady e.0) ts
      → entry P M fds j w ≡ some v
      → entry P M fds j (turns P args fds ts w).1 ≡ some v
  unfolding turns
  steady_turns t v [] w b l q e = e
  steady_turns t v ((f, now) ∷ ts) w b (l, ls) (q, qs) e =
      let (u, step, bu, same) = turn-Blocked t now f w b l in
      let there : entry P M fds j u ≡ some v = same ∙ q w.kernel v e in
      ground (arith, step, steady_turns t v ts u bu ls qs there)

  -- Under the conditions of such a block, and where the others leave an entry of the address that is there:
  -- the entry stays in the kernel's blacklist, with its value, through all rounds before a cooldown
  -- after the round that found it.
  pub turns-held :
      (f : P.bpf.State → P.bpf.State) (now v : ℕ) (ts : List (Turn P)) (w : World P)
      → NodupKeys w.blocked_until
      → IsAddressed P w
      → lookup (P.v4.format j) w.blocked_until ≡ none
      → entry P M fds j (meanwhile P f w) ≡ some v
      → IsUnlisted P M fds j (meanwhile P f w)
      → All (λ e. e.1 < now + args.cooldown_sec) ts
      → All (λ e. IsSteady e.0) ts
      → entry P M fds j (turns P args fds ((f, now) ∷ ts) w).1 ≡ some v
  unfolding turns
  turns-held f now v ts w nodup valid new there unlisted before steady =
      let (u, step, bu, here) = first_turn f now v w nodup valid new there unlisted in
      ground (arith, step, steady_turns (now + args.cooldown_sec) v ts u bu before steady here)
