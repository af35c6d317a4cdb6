-- ===== src/Filter/Overload.antt =====
-- The Shields-Up bucket when more packets than its limit come in: dropped packets are charged to it.
use flux_guard.Base.{
  ℕ, ◌+◌, suc, min, if◌then◌else◌, ◌-◌, ◌*◌, ◌^◌, ◌<◌, ◌≤◌, ◌≡◌, ◌⊎◌, refl, ap, true, some, [], ◌∷◌,
  leb, arith, length, inl, inr,
}
use flux_guard.Base.Int.{ℤ, pos, negsuc, ltb_ℤ, add_ℤ, pred_ℤ, pos_part, neg_part}
use flux_guard.Bpf.{TokenBucket}
use flux_guard.Filter.Bucket.{global_pps_limit, refill_of, debt, global_refill, global_check}
use flux_guard.Filter.Bucket.Refill.{elapsed_lem}
use flux_guard.Filter.{Helpers, fluxguard_filter}
use flux_guard.Filter.Runs.{Packets, passed_all}
use flux_guard.Filter.Shields.{IsBucket, filter_bucket}

-- A bucket so far below 0 that the next refill does not bring it back, as of a time: it is at its
-- floor, or has been charged for each 1900 ns since the last refill.
record Starved (tb : TokenBucket) (t : ℕ) : Type 0 where
  pub begun : tb.last_time ≤ t
  pub lasting : t ≤ tb.last_time + 100_000_000
  pub no_credit : pos_part tb.tokens ≡ 0
  pub above : neg_part tb.tokens ≤ 100_000
  pub owed :
      (neg_part tb.tokens ≡ 100_000) ⊎ (94_998_100 + (t - tb.last_time) ≤ neg_part tb.tokens * 1900)

at_floor :
    (tb : TokenBucket) (t now : ℕ)
    → Starved tb t
    → now ≤ t + 1900
    → tb.last_time + 100_000_000 < now
    → neg_part tb.tokens ≡ 100_000
at_floor tb t now s g l = elim s.owed [
  | inl e ↦ e
  | inr o ↦ absurd (omega (arith, o, s.above, g, l))
]

-- The tokens that are left of a bucket without credit, and whether the packet is dropped.
settle : ℤ → ℤ
settle z = if ltb_ℤ (pred_ℤ z) debt then debt else pred_ℤ z

settle_lem :
    (z : ℤ)
    → pos_part z ≡ 0
    → (ltb_ℤ (pred_ℤ z) (pos 0) ≡ true)
      × (pos_part (settle z) ≡ 0)
      × (neg_part (settle z) ≡ min 100_000 (suc (neg_part z)))
unfolding settle
settle_lem (pos n) h = ground (arith, h)
settle_lem (negsuc n) h = ground (arith, h)

refilled : (z : ℤ) → pos_part z ≡ 0 → neg_part z ≡ 100_000 → add_ℤ z 50_000 ≡ negsuc 49_999
refilled (pos n) p h = ground (arith, h)
refilled (negsuc n) p h = ground (arith, h)

-- A packet on a bucket without credit is dropped, and charged down to the floor.
global_check_lem :
    (tb filled : TokenBucket) (now : ℕ)
    → global_refill tb now ≡ filled
    → pos_part filled.tokens ≡ 0
    → ((global_check tb now).1 ≡ true)
      × ((global_check tb now).0.last_time ≡ filled.last_time)
      × (pos_part (global_check tb now).0.tokens ≡ 0)
      × (neg_part (global_check tb now).0.tokens ≡ min 100_000 (suc (neg_part filled.tokens)))
unfolding global_check settle
global_check_lem tb filled now e h = ground (arith, e, settle_lem filled.tokens h)

refill_late :
    (tb : TokenBucket) (t now : ℕ)
    → Starved tb t
    → now ≤ t + 1900
    → now < 2 ^ 64
    → tb.last_time + 100_000_000 < now
    → global_refill tb now ≡ record { last_time = now; tokens = negsuc 49_999 }
unfolding global_refill
refill_late tb t now s g h late =
    let e = elapsed_lem tb.last_time now (omega (arith, late)) h in
    let n : refill_of global_pps_limit (now - tb.last_time) ≡ 50_000 =
      omega (arith, late, g, s.lasting) in
    let z = refilled tb.tokens s.no_credit (at_floor tb t now s g late) in
    ground (arith, e, late, n, z)

refill_early :
    (tb : TokenBucket) (now : ℕ)
    → tb.last_time ≤ now
    → now < 2 ^ 64
    → now ≤ tb.last_time + 100_000_000
    → global_refill tb now ≡ tb
unfolding global_refill
refill_early tb now l h early = ground (arith, elapsed_lem tb.last_time now l h, early)

le-or-lt : (a b : ℕ) → (a ≤ b) ⊎ (b < a)
le-or-lt a b = omega arith

global_check-Starved :
    (tb : TokenBucket) (t now : ℕ)
    → Starved tb t
    → t ≤ now
    → now ≤ t + 1900
    → now < 2 ^ 64
    → ((global_check tb now).1 ≡ true) × Starved (global_check tb now).0 now
global_check-Starved tb t now s l g h = elim (le-or-lt now (tb.last_time + 100_000_000)) [
  | inl early ↦
      let same = refill_early tb now (omega (arith, l, s.begun)) h early in
      let (drop, last, none_left, left) = global_check_lem tb tb now same s.no_credit in
      (
        drop,
        record {
          begun = omega (arith, last, l, s.begun);
          lasting = omega (arith, last, early);
          no_credit = none_left;
          above = omega (arith, left);
          owed = elim s.owed [
            | inl e ↦ inl (omega (arith, left, e))
            | inr o ↦ omega (arith, left, last, o, g, l, s.above)
          ];
        },
      )
  | inr late ↦
      let filled = refill_late tb t now s g h late in
      let (drop, last, none_left, left) = global_check_lem tb _ now filled refl in
      (
        drop,
        record {
          begun = omega (arith, last);
          lasting = omega (arith, last);
          no_credit = none_left;
          above = omega (arith, left);
          owed = inr (omega (arith, last, left));
        },
      )
]

-- Packets with an Ethernet header, each at most 1900 ns after the one before: 526315 a second.
abbrev pub Dense : ℕ → Packets → Type 0
Dense last [] = Unit
Dense last ((packet, now) ∷ packets) =
    (leb 14 (length packet) ≡ true)
    × (last ≤ now)
    × (now ≤ last + 1900)
    × (now < 2 ^ 64)
    × Dense now packets

module _ {S : Type 0} (H : Helpers S) (B : IsBucket H) where
  passed_all-Starved :
      (packets : Packets) (t : ℕ) (tb : TokenBucket) (s : S)
      → H.global_rate s ≡ some tb
      → Starved tb t
      → Dense t packets
      → passed_all H packets s ≡ 0
  unfolding passed_all
  passed_all-Starved [] t tb s e st d = refl
  passed_all-Starved ((packet, now) ∷ packets) t tb s e st (long, l, g, h, d) =
      let (there, drops) = filter_bucket H B packet now tb s e long in
      let (hit, st') = global_check-Starved tb t now st l g h in
      let rest =
        passed_all-Starved packets now (global_check tb now).0 (fluxguard_filter H packet now s).1
          there st' d in
      ground (arith, long, drops hit, rest)

  -- The aggregate limit is no floor: for helpers as documented, once the Shields-Up bucket has been
  -- charged down to its floor, no packet passes as long as each, with an Ethernet header, comes at
  -- most 1900 ns after the one before, from the bucket's own time on, and the clock is a u64; for
  -- any length of time, and from whatever sources, those on the allowlists too.
  pub passed_all_overloaded :
      (packets : Packets) (tb : TokenBucket) (s : S)
      → H.global_rate s ≡ some tb
      → tb.tokens ≡ debt
      → Dense tb.last_time packets
      → passed_all H packets s ≡ 0
  passed_all_overloaded packets tb s e floor d =
      passed_all-Starved packets tb.last_time tb s e
        (record {
          begun = omega arith;
          lasting = omega arith;
          no_credit = ap pos_part floor;
          above = omega (arith, ap neg_part floor);
          owed = inl (ap neg_part floor);
        })
        d
