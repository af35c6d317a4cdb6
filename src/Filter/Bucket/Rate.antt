-- ===== src/Filter/Bucket/Rate.antt =====
-- How many packets of a source its bucket lets through.
use flux_guard.Base.{ℕ, ◌+◌, ◌-◌, ◌*◌, ◌^◌, ◌<◌, ◌≤◌, List, [], ◌∷◌, arith, if◌then◌else◌}
use flux_guard.Bpf.{TokenBucket}
use flux_guard.Filter.Bucket.{kern_pps_limit, ns_per_sec, token_bucket_check}
use flux_guard.Filter.Bucket.Refill.{credit, budget, token_bucket_check-budget}

-- The packets let through of those that come at these times.
unfoldable pub passed : TokenBucket → List ℕ → ℕ
passed tb [] = 0
passed tb (now ∷ nows) =
    let (tb', dropped) = token_bucket_check tb now in (if dropped then 0 else 1) + passed tb' nows

-- The times do not go back, and none is behind the end.
abbrev pub Within : ℕ → ℕ → List ℕ → Type 0
Within start end [] = Unit
Within start end (now ∷ nows) = (start ≤ now) × (now ≤ end) × Within now end nows

passed-budget :
    (tb : TokenBucket) (start end : ℕ) (nows : List ℕ)
    → tb.last_time ≤ start
    → end < 2 ^ 64
    → Within start end nows
    → passed tb nows * ns_per_sec ≤ budget kern_pps_limit end tb
unfolding passed
passed-budget tb start end [] l h w = omega arith
passed-budget tb start end (now ∷ nows) l h (a, b, w) =
    let (tb', dropped) = token_bucket_check tb now in
    let (l', spent) =
      token_bucket_check-budget tb now end (omega (arith, l, a), omega (arith, b, h)) b in
    let rest = passed-budget tb' now end nows l' h w in ground (arith, spent, rest)

-- The rate limit: where the times do not go back, from the bucket's own on, and the clock is a u64,
-- a bucket lets through no more packets than it has tokens, and a thousand for each second up to
-- the end.
pub passed_rate :
    (tb : TokenBucket) (end : ℕ) (nows : List ℕ)
    → end < 2 ^ 64
    → Within tb.last_time end nows
    → passed tb nows * ns_per_sec ≤ credit tb * ns_per_sec + (end - tb.last_time) * kern_pps_limit
passed_rate tb end nows h w =
    omega (arith, passed-budget tb tb.last_time end nows (omega arith) h w)
