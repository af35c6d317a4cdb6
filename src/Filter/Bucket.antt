-- ===== src/Filter/Bucket.antt =====
-- The token buckets of fluxguard_kern.c, and the mirror of one in tests/test_fluxguard.py. Times
-- are u64 numbers of nanoseconds; a refill is at most 2^64 / 10^9, so that it fits an s64, as do the
-- tokens, which each packet lowers by one.
pub mod Refill
pub mod Rate
use flux_guard.Base.{ℕ, ◌+◌, ◌-◌, ◌*◌, ◌/◌, ◌%◌, ◌^◌, Bool, true, false, ltb, if◌then◌else◌}
use flux_guard.Base.Int.{ℤ, pos, negsuc, ltb_ℤ, add_ℤ, pred_ℤ}
use flux_guard.Bpf.{TokenBucket}

abbrev pub kern_pps_limit : ℕ
kern_pps_limit = 1000

abbrev pub global_pps_limit : ℕ
global_pps_limit = 500_000

abbrev pub ns_per_sec : ℕ
ns_per_sec = 1_000_000_000

-- The difference of two u64 times.
abbrev pub elapsed : ℕ → ℕ → ℕ
elapsed last now = (now + 2 ^ 64 - last) % 2 ^ 64

-- The product wraps around as a u64.
abbrev pub refill_of : ℕ → ℕ → ℕ
refill_of limit ns = (ns * limit % 2 ^ 64) / ns_per_sec

abbrev pub capped : ℕ → ℤ → ℤ
capped limit t = if ltb_ℤ (pos limit) t then pos limit else t

-- `n` tokens more, if there are any.
unfoldable pub refill_by : TokenBucket → ℕ → ℕ → TokenBucket
refill_by tb now n =
    if ltb 0 n
    then record { last_time = now; tokens = capped kern_pps_limit (add_ℤ tb.tokens n) }
    else tb

-- `token_bucket_check` up to the refill.
unfoldable pub refill : TokenBucket → ℕ → TokenBucket
unfolding refill_by
refill tb now =
    let ns = elapsed tb.last_time now in
    if ltb 0 ns then refill_by tb now (refill_of kern_pps_limit ns) else tb

abbrev pub spend : TokenBucket → TokenBucket
spend tb = record tb { tokens = pred_ℤ tb.tokens }

-- `token_bucket_check`: the bucket as it is left, and whether the packet is dropped.
unfoldable pub token_bucket_check : TokenBucket → ℕ → TokenBucket × Bool
unfolding refill
token_bucket_check tb now = let spent = spend (refill tb now) in (spent, ltb_ℤ spent.tokens (pos 0))

-- The mirror, on Python's integers: a difference below 0 is no refill there.
unfoldable pub mirror_check : TokenBucket → ℕ → TokenBucket × Bool
unfolding refill_by
mirror_check tb now =
    let ns = now - tb.last_time in
    let filled = if ltb 0 ns then refill_by tb now (ns * kern_pps_limit / ns_per_sec) else tb in
    let spent = spend filled in (spent, ltb_ℤ spent.tokens (pos 0))

-- The floor of the Shields-Up bucket.
abbrev pub debt : ℤ
debt = negsuc 99_999

-- The Shields-Up bucket of all packets.
unfoldable pub global_refill : TokenBucket → ℕ → TokenBucket
global_refill gtb now =
    let ns = elapsed gtb.last_time now in
    if ltb 100_000_000 ns
    then record {
      last_time = now;
      tokens = capped global_pps_limit (add_ℤ gtb.tokens (refill_of global_pps_limit ns));
    }
    else gtb

unfoldable pub global_check : TokenBucket → ℕ → TokenBucket × Bool
unfolding global_refill
global_check gtb now =
    let spent = spend (global_refill gtb now) in
    if ltb_ℤ spent.tokens (pos 0)
    then (record spent { tokens = if ltb_ℤ spent.tokens debt then debt else spent.tokens }, true)
    else (spent, false)
