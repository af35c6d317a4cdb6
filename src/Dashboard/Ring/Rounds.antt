-- ===== src/Dashboard/Ring/Rounds.antt =====
-- One round of `drain_ringbuf`: where the consumer goes, and what is left as it was.
use flux_guard.Base.{
  ℕ, ◌+◌, ◌%◌, ◌^◌, ◌≤◌, ◌<◌, ◌≡◌, ◌≢◌, refl, Option, none, some, List, [], ◌∷◌, ◌++◌, ltb, ◌==◌,
  if◌then◌else◌, arith, length, length-append, ltb→lt, subst, Bool-cases, inl, inr,
}
use flux_guard.Base.Bits.{bit_and-mask}
use flux_guard.Address.{Codec}
use flux_guard.Dashboard.Ring.{
  Buffer, Event, Drain, crash, go, hdr_size, little_endian, byte, store_cons, data_len, record_size,
  is_busy, advance, read_event, skip_record, take_record, by_header, next_record,
}

pub little_endian-store_cons :
    (v : ℕ) (buf : Buffer) → v < 2 ^ 64 → little_endian 8 (store_cons v buf).at 0 ≡ v
unfolding little_endian store_cons byte
little_endian-store_cons v buf h = omega arith

pub data_len-mod : (h : ℕ) → data_len h ≡ h % 2 ^ 28
unfolding data_len
data_len-mod h = bit_and-mask h 28

pub record_size_bound : (h : ℕ) → record_size (data_len h) ≤ 2 ^ 28
unfolding record_size
record_size_bound h = omega (arith, data_len-mod h)

pub record_size_multiple : (n : ℕ) → record_size n ≢ 0 → 8 ≤ record_size n
unfolding record_size
record_size_multiple n h = omega (arith, h)

record_size_or : (n : ℕ) → 8 ≤ (if record_size n == 0 then hdr_size else record_size n)
record_size_or n = ground (arith, record_size_multiple n)

-- The memory but for its first eight bytes, where the consumer position stands.
pub record SameRest (b b' : Buffer) : Type 0 where
  pub size : b'.size ≡ b.size
  pub at : (i : ℕ) → 8 ≤ i → b'.at i ≡ b.at i

-- A round goes on at least 8 bytes further, writes the position back and adds at most one event.
pub record Advances (d d' : Drain) : Type 0 where
  pub step : d.cons + 8 ≤ d'.cons
  pub reach : d'.cons < 2 ^ 64
  pub stored : little_endian 8 d'.buf.at 0 ≡ d'.cons
  pub rest : SameRest d.buf d'.buf
  pub events : length d'.events ≤ length d.events + 1

store_cons-SameRest : (v : ℕ) (b : Buffer) → SameRest b (store_cons v b)
unfolding store_cons
store_cons-SameRest v b = record { size = refl; at = λ i h. ground arith }

go_inj : {d d' : Drain} → go d ≡ go d' → d ≡ d'
go_inj e = cc

advance-Advances :
    (n : ℕ) (es : List Event) (d d' : Drain)
    → 8 ≤ n
    → length es ≤ length d.events + 1
    → advance n (record d { events = es }) ≡ go d'
    → Advances d d'
unfolding advance
advance-Advances n es d d' h more e = elim (Bool-cases (ltb (d.cons + n) (2 ^ 64))) [
  | inl fits ↦ subst (Advances d) (go_inj (rw (fits, if◌then◌else◌) at e)) (record {
    step = omega (arith, h);
    reach = ltb→lt _ _ fits;
    stored = little_endian-store_cons (d.cons + n) d.buf (ltb→lt _ _ fits);
    rest = store_cons-SameRest (d.cons + n) d.buf;
    events = more;
  })
  | inr wraps ↦ cc (rw (wraps, if◌then◌else◌) at e)
]

advance_crashes : (n m : ℕ) (d : Drain) → n ≤ m → advance n d ≡ crash → 2 ^ 64 ≤ d.cons + m
unfolding advance
advance_crashes n m d h e = ground arith

module _ (v4 v6 : Codec) where
  skip_record-Advances : (h : ℕ) (d d' : Drain) → skip_record v4 v6 h d ≡ go d' → Advances d d'
  unfolding skip_record
  skip_record-Advances h d d' e = elim (Bool-cases (record_size (data_len h) == 0)) [
    | inl zero_size ↦ cc (rw (zero_size, if◌then◌else◌) at e)
    | inr size ↦
        advance-Advances (record_size (data_len h)) d.events d d'
          (record_size_multiple (data_len h) (ground (arith, size))) (omega arith)
          (rw (size, if◌then◌else◌) at e)
  ]

  take_record-Advances : (h a : ℕ) (d d' : Drain) → take_record v4 v6 h a d ≡ go d' → Advances d d'
  unfolding take_record
  take_record-Advances h a d d' e = elim (Bool-cases (ltb d.buf.size (a + hdr_size + 32))) [
    | inl outside ↦ cc (rw (outside, if◌then◌else◌) at e)
    | inr inside ↦
        advance-Advances _ (d.events ++ read_event v4 v6 d.buf (a + hdr_size) ∷ []) d d'
          (record_size_or (data_len h))
          (omega (arith, length-append d.events (read_event v4 v6 d.buf (a + hdr_size) ∷ [])))
          (rw (inside, if◌then◌else◌) at e)
  ]

  by_header-Advances :
      (a : ℕ) (o : Option ℕ) (d d' : Drain) → by_header v4 v6 a o d ≡ go d' → Advances d d'
  unfolding by_header
  by_header-Advances a none d d' e = cc
  by_header-Advances a (some h) d d' e = elim (Bool-cases (is_busy h)) [
    | inl busy ↦ skip_record-Advances h d d' (rw (busy, if◌then◌else◌) at e)
    | inr free ↦ take_record-Advances h a d d' (rw (free, if◌then◌else◌) at e)
  ]

  -- Every round that goes on has this effect.
  pub next_record-Advances :
      (rb_size : ℕ) (d d' : Drain) → next_record v4 v6 rb_size d ≡ go d' → Advances d d'
  unfolding next_record
  next_record-Advances rb_size d d' e = by_header-Advances _ _ d d' e

  by_header_crashes :
      (a : ℕ) (o : Option ℕ) (d : Drain) → by_header v4 v6 a o d ≡ crash → 2 ^ 64 ≤ d.cons + 2 ^ 28
  unfolding by_header skip_record take_record
  by_header_crashes a none d e = cc
  by_header_crashes a (some h) d e =
      let size = record_size (data_len h) in
      let es = d.events ++ read_event v4 v6 d.buf (a + hdr_size) ∷ [] in
      ground (
        arith,
        record_size_bound h,
        advance_crashes size (2 ^ 28) d,
        advance_crashes size (2 ^ 28) (record d { events = es }),
        advance_crashes hdr_size (2 ^ 28) (record d { events = es }),
      )

  -- A round raises only where the position comes near to 64 bits.
  pub next_record_crashes :
      (rb_size : ℕ) (d : Drain) → next_record v4 v6 rb_size d ≡ crash → 2 ^ 64 ≤ d.cons + 2 ^ 28
  unfolding next_record
  next_record_crashes rb_size d e = by_header_crashes _ _ d e
