-- ===== src/Filter/Shields.antt =====
-- How many packets of all sources the Shields-Up bucket lets through.
use flux_guard.Base.{
  ℕ, ◌+◌, ◌-◌, ◌*◌, ◌^◌, ◌<◌, ◌≤◌, ◌≡◌, ap, ◌∙◌, true, false, some, List, [], ◌∷◌, leb,
  if◌then◌else◌, arith, Text, length, Bool-cases, Option-cases, inl, inr,
}
use flux_guard.Bpf.{TokenBucket}
use flux_guard.Filter.Bucket.{
  global_pps_limit, ns_per_sec, elapsed, refill_of, global_refill, global_check, token_bucket_check,
}
use flux_guard.Filter.Bucket.Refill.{
  InTime, elapsed_lem, credit, budget, credit-add, credit-pred, credit-pred_le,
}
use flux_guard.Filter.{
  xdp_drop, MapId, AttackEvent, Helpers, Family, block_event, fresh_bucket, shields_up, meter,
  auto_block, check_rate, check_blacklist, check_source, check_packet, fluxguard_filter,
}
use flux_guard.Filter.Verdicts.{sender, check_packet_lem}
use flux_guard.Filter.Runs.{Packets, passed_all}

global_refill-budget :
    (tb : TokenBucket) (now end : ℕ)
    → InTime tb now
    → now ≤ end
    → ((global_refill tb now).last_time ≤ now)
      × (budget global_pps_limit end (global_refill tb now) ≤ budget global_pps_limit end tb)
unfolding global_refill
global_refill-budget tb now end (l, h) f =
    let n = refill_of global_pps_limit (elapsed tb.last_time now) in
    let e = elapsed_lem tb.last_time now l h in
    let r : n * ns_per_sec ≤ (now - tb.last_time) * global_pps_limit = omega (arith, e) in
    ground (arith, r, credit-add global_pps_limit tb.tokens n)

-- A packet that the bucket lets through costs a token.
global_check-budget :
    (tb : TokenBucket) (now end : ℕ)
    → InTime tb now
    → now ≤ end
    → (let (tb', dropped) = global_check tb now in
        (tb'.last_time ≤ now)
        × (budget global_pps_limit end tb' + (if dropped then 0 else ns_per_sec)
            ≤ budget global_pps_limit end tb))
unfolding global_check
global_check-budget tb now end h f =
    let filled = global_refill tb now in
    ground (
      arith,
      global_refill-budget tb now end h f,
      credit-pred filled.tokens,
      credit-pred_le filled.tokens,
    )

-- What is documented of the array behind the Shields-Up bucket: a write through its pointer stays,
-- and no other call changes it.
pub record IsBucket {S : Type 0} (H : Helpers S) : Type 0 where
  pub write_lem :
      (tb gtb : TokenBucket) (s : S)
      → H.global_rate s ≡ some tb
      → H.global_rate (H.set_global_rate gtb s) ≡ some gtb
  pub count_lem : (s : S) → H.global_rate (H.count_packet s) ≡ H.global_rate s
  pub update_lem :
      (m : MapId) (k : Text) (v : ℕ) (s : S)
      → H.global_rate (H.update_elem m k v s) ≡ H.global_rate s
  pub add_lem : (m : MapId) (k : Text) (s : S) → H.global_rate (H.add_one m k s) ≡ H.global_rate s
  pub set_lem :
      (m : MapId) (k : Text) (tb : TokenBucket) (s : S)
      → H.global_rate (H.set_bucket m k tb s) ≡ H.global_rate s
  pub bucket_lem :
      (m : MapId) (k : Text) (tb : TokenBucket) (s : S)
      → H.global_rate (H.update_bucket m k tb s) ≡ H.global_rate s
  pub emit_lem : (e : AttackEvent) (s : S) → H.global_rate (H.emit e s) ≡ H.global_rate s

module _ {S : Type 0} (H : Helpers S) (B : IsBucket H) where
  global_rate-meter :
      (f : Family) (src : Text) (s : S) → H.global_rate (meter H f src s) ≡ H.global_rate s
  unfolding meter
  global_rate-meter f src s = ground (arith, B.add_lem f.meter src s, B.update_lem f.meter src 1 s)

  global_rate-check_rate :
      (f : Family) (src : Text) (now : ℕ) (s : S)
      → H.global_rate (check_rate H f src now s).1 ≡ H.global_rate s
  unfolding check_rate auto_block
  global_rate-check_rate f src now s = elim (Option-cases (H.lookup_bucket f.rate src s)) [
    | inl new ↦ ground (arith, new, B.bucket_lem f.rate src (fresh_bucket now) s)
    | inr (tb, e) ↦
        let (tb', dropped) = token_bucket_check tb now in
        let s1 = H.set_bucket f.rate src tb' s in
        let s2 = H.update_elem f.blacklist src 1 s1 in
        ground (
          arith,
          e,
          B.set_lem f.rate src tb' s,
          B.update_lem f.blacklist src 1 s1,
          B.emit_lem (block_event f src now) s2,
        )
  ]

  global_rate-check_source :
      (f : Family) (src : Text) (proto now : ℕ) (s : S)
      → H.global_rate (check_source H f src proto now s).1 ≡ H.global_rate s
  unfolding check_source check_blacklist
  global_rate-check_source f src proto now s =
      ground (arith, global_rate-meter f src s, global_rate-check_rate f src now (meter H f src s))

  global_rate-check_packet :
      (packet : List ℕ) (now : ℕ) (s : S)
      → H.global_rate (check_packet H packet now s).1 ≡ H.global_rate s
  global_rate-check_packet packet now s = elim (Option-cases (sender packet)) [
    | inl e ↦ ground (arith, e, check_packet_lem H packet now s)
    | inr (x, e) ↦ ground (
      arith,
      e,
      check_packet_lem H packet now s,
      global_rate-check_source x.family x.src x.proto now s,
    )
  ]

  -- A packet with an Ethernet header goes through the bucket, and passes only if that lets it.
  pub filter_bucket :
      (packet : List ℕ) (now : ℕ) (tb : TokenBucket) (s : S)
      → H.global_rate s ≡ some tb
      → leb 14 (length packet) ≡ true
      → (let run = fluxguard_filter H packet now s in
          let (tb', dropped) = global_check tb now in
          (H.global_rate run.1 ≡ some tb') × (dropped ≡ true → run.0 ≡ xdp_drop))
  unfolding fluxguard_filter shields_up
  filter_bucket packet now tb s e long =
      let (tb', dropped) = global_check tb now in
      let s1 = H.count_packet s in
      let s2 = H.set_global_rate tb' s1 in
      let counted = B.count_lem s ∙ e in
      let written = B.write_lem tb tb' s1 counted in
      ground (arith, long, counted, written, global_rate-check_packet packet now s2)

  filter_short :
      (packet : List ℕ) (now : ℕ) (s : S)
      → leb 14 (length packet) ≡ false
      → (fluxguard_filter H packet now s).1 ≡ s
  unfolding fluxguard_filter
  filter_short packet now s short = ground (arith, short)

-- The times do not go back, and none is behind the end.
abbrev pub Timed : ℕ → ℕ → Packets → Type 0
Timed start end [] = Unit
Timed start end ((packet, now) ∷ packets) = (start ≤ now) × (now ≤ end) × Timed now end packets

module _ {S : Type 0} (H : Helpers S) (B : IsBucket H) where
  passed_all-budget :
      (packets : Packets) (start end : ℕ) (tb : TokenBucket) (s : S)
      → H.global_rate s ≡ some tb
      → tb.last_time ≤ start
      → end < 2 ^ 64
      → Timed start end packets
      → passed_all H packets s * ns_per_sec ≤ budget global_pps_limit end tb
  unfolding passed_all
  passed_all-budget [] start end tb s e l h w = omega arith
  passed_all-budget ((packet, now) ∷ packets) start end tb s e l h (a, b, w) =
      let (verdict, s') = fluxguard_filter H packet now s in
      elim (Bool-cases (leb 14 (length packet))) [
        | inr short ↦
            let same = filter_short H B packet now s short in
            let rest =
              passed_all-budget packets now end tb s' (ap H.global_rate same ∙ e)
                (omega (arith, l, a)) h w in
            ground (arith, short, rest)
        | inl long ↦
            let (tb', dropped) = global_check tb now in
            let (there, drops) = filter_bucket H B packet now tb s e long in
            let (l', spent) =
              global_check-budget tb now end (omega (arith, l, a), omega (arith, b, h)) b in
            let rest = passed_all-budget packets now end tb' s' there l' h w in
            elim (Bool-cases dropped) [
              | inl hit ↦ ground (arith, long, hit, drops hit, spent, rest)
              | inr on ↦ ground (arith, long, on, spent, rest)
            ]
      ]

  -- The aggregate limit: for helpers as documented, where the Shields-Up bucket is there, the times
  -- do not go back, from the bucket's own on, and the clock is a u64: of packets that have an
  -- Ethernet header, from whatever sources, the filter lets through no more than the bucket has
  -- tokens, and 500000 for each second up to the end.
  pub passed_all_rate :
      (packets : Packets) (end : ℕ) (tb : TokenBucket) (s : S)
      → H.global_rate s ≡ some tb
      → end < 2 ^ 64
      → Timed tb.last_time end packets
      → passed_all H packets s * ns_per_sec
        ≤ credit tb * ns_per_sec + (end - tb.last_time) * global_pps_limit
  passed_all_rate packets end tb s e h w =
      omega (arith, passed_all-budget packets tb.last_time end tb s e (omega arith) h w)
