-- ===== src/Filter/Bucket/Refill.antt =====
-- What a check does to a bucket.
use flux_guard.Base.{
  ℕ, zero, suc, ◌+◌, ◌-◌, ◌*◌, ◌%◌, ◌^◌, ◌<◌, ◌≤◌, ◌≡◌, false, arith, if◌then◌else◌,
}
use flux_guard.Base.Int.{ℤ, pos, negsuc, pos_part, neg_part, ltb_ℤ, add_ℤ, pred_ℤ}
use flux_guard.Bpf.{TokenBucket}
use flux_guard.Filter.Bucket.{
  kern_pps_limit, ns_per_sec, elapsed, refill_of, refill_by, refill, token_bucket_check,
  mirror_check, capped,
}

-- The time of a bucket is not ahead, and the clock has not reached the end of a u64.
abbrev pub InTime : TokenBucket → ℕ → Type 0
InTime tb now = (tb.last_time ≤ now) × (now < 2 ^ 64)

pub elapsed_lem : (last now : ℕ) → last ≤ now → now < 2 ^ 64 → elapsed last now ≡ now - last
elapsed_lem last now l h = omega arith

-- The helper and its mirror agree where the time of the bucket is not ahead, the clock is a u64,
-- and the product of the elapsed time and the rate is one, which holds through 213 days.
pub token_bucket_check-mirror_check :
    (tb : TokenBucket) (now : ℕ)
    → InTime tb now
    → (now - tb.last_time) * kern_pps_limit < 2 ^ 64
    → token_bucket_check tb now ≡ mirror_check tb now
unfolding token_bucket_check refill mirror_check
token_bucket_check-mirror_check tb now (l, h) f =
    let e = elapsed_lem tb.last_time now l h in
    let small : (now - tb.last_time) * kern_pps_limit % 2 ^ 64
        ≡ (now - tb.last_time) * kern_pps_limit =
      omega (arith, f) in
    ground (arith, e, small)

-- The tokens that are left for packets.
abbrev pub credit : TokenBucket → ℕ
credit tb = pos_part tb.tokens

-- In nanoseconds of packets at the rate: what a bucket can let through until a time.
abbrev pub budget : ℕ → ℕ → TokenBucket → ℕ
budget limit end tb = credit tb * ns_per_sec + (end - tb.last_time) * limit

pub credit-add : (limit : ℕ) (t : ℤ) (n : ℕ) → pos_part (capped limit (add_ℤ t n)) ≤ pos_part t + n
credit-add limit t n = ground arith

pub credit-pred :
    (t : ℤ) → ltb_ℤ (pred_ℤ t) (pos 0) ≡ false → suc (pos_part (pred_ℤ t)) ≡ pos_part t
credit-pred (pos zero) h = ground (arith, h)
credit-pred (pos (suc n)) h = ground (arith, h)
credit-pred (negsuc n) h = ground (arith, h)

pub credit-pred_le : (t : ℤ) → pos_part (pred_ℤ t) ≤ pos_part t
credit-pred_le (pos n) = ground arith
credit-pred_le (negsuc n) = ground arith

refill_by-budget :
    (tb : TokenBucket) (now end n : ℕ)
    → tb.last_time ≤ now
    → now ≤ end
    → n * ns_per_sec ≤ (now - tb.last_time) * kern_pps_limit
    → ((refill_by tb now n).last_time ≤ now)
      × (budget kern_pps_limit end (refill_by tb now n) ≤ budget kern_pps_limit end tb)
unfolding refill_by
refill_by-budget tb now end n l f r = ground (arith, credit-add kern_pps_limit tb.tokens n)

refill-budget :
    (tb : TokenBucket) (now end : ℕ)
    → InTime tb now
    → now ≤ end
    → ((refill tb now).last_time ≤ now)
      × (budget kern_pps_limit end (refill tb now) ≤ budget kern_pps_limit end tb)
unfolding refill
refill-budget tb now end (l, h) f =
    let n = refill_of kern_pps_limit (elapsed tb.last_time now) in
    let e = elapsed_lem tb.last_time now l h in
    let r : n * ns_per_sec ≤ (now - tb.last_time) * kern_pps_limit = omega (arith, e) in
    ground (arith, refill_by-budget tb now end n l f r)

-- A packet that passes costs a token.
pub token_bucket_check-budget :
    (tb : TokenBucket) (now end : ℕ)
    → InTime tb now
    → now ≤ end
    → (let (tb', dropped) = token_bucket_check tb now in
        (tb'.last_time ≤ now)
        × (budget kern_pps_limit end tb' + (if dropped then 0 else ns_per_sec)
            ≤ budget kern_pps_limit end tb))
unfolding token_bucket_check
token_bucket_check-budget tb now end h f =
    let filled = refill tb now in
    ground
      (arith, refill-budget tb now end h f, credit-pred filled.tokens, credit-pred_le filled.tokens)

-- A bucket that has a token, and a packet a millisecond later at least.
pub token_bucket_check-spaced :
    (tb : TokenBucket) (now : ℕ)
    → InTime tb now
    → (now - tb.last_time) * kern_pps_limit < 2 ^ 64
    → tb.last_time + 1_000_000 ≤ now
    → neg_part tb.tokens ≡ 0
    → (let (tb', dropped) = token_bucket_check tb now in
        (dropped ≡ false) × (tb'.last_time ≡ now) × (neg_part tb'.tokens ≡ 0))
unfolding token_bucket_check refill refill_by
token_bucket_check-spaced tb now (l, h) f gap e =
    let n = refill_of kern_pps_limit (elapsed tb.last_time now) in
    let same = elapsed_lem tb.last_time now l h in
    let some_tokens : 1 ≤ n = omega (arith, same, f, gap) in
    ground (arith, same, some_tokens, gap, e)
