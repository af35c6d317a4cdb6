-- ===== src/Dashboard/Ring/Laws.antt =====
-- The whole of `drain_ringbuf`: that it returns, how far it reads, and what it leaves.
use flux_guard.Base.{
  ℕ, zero, suc, ◌+◌, ◌-◌, ◌*◌, ◌^◌, ◌≤◌, ◌<◌, ◌≡◌, refl, ◌∙◌, Bool, true, false, ◌||◌, ◌&&◌, List,
  [], ltb, leb, arith, length, ltb→lt, Bool-cases, inl, inr, ◌⊎◌,
}
use flux_guard.Base.Exec.{Result, ok, err, other_error}
use flux_guard.Address.{Codec}
use flux_guard.Dashboard.Ring.{
  Buffer, Event, Drain, Next, stop, crash, go, page_size, little_endian, unpack, next_record,
  drain_loop, drain_from, drain_ringbuf,
}
use flux_guard.Dashboard.Ring.Rounds.{SameRest, Advances, next_record-Advances, next_record_crashes}

pub record Drained (prod : ℕ) (d d' : Drain) : Type 0 where
  pub step : d.cons ≤ d'.cons
  pub stored : little_endian 8 d'.buf.at 0 ≡ d'.cons
  pub rest : SameRest d.buf d'.buf
  pub events : length d'.events * 8 + d.cons ≤ length d.events * 8 + d'.cons

SameRest-refl : (b : Buffer) → SameRest b b
SameRest-refl b = record { size = refl; at = λ i h. refl }

SameRest-trans : (a b c : Buffer) → SameRest a b → SameRest b c → SameRest a c
SameRest-trans a b c g h = record { size = h.size ∙ g.size; at = λ i l. h.at i l ∙ g.at i l }

Drained-after :
    (prod : ℕ) (d d' d'' : Drain) → Advances d d' → Drained prod d' d'' → Drained prod d d''
Drained-after prod d d' d'' a h = record {
  step = omega (arith, a.step, h.step);
  stored = h.stored;
  rest = SameRest-trans d.buf d'.buf d''.buf a.rest h.rest;
  events = omega (arith, a.step, a.events, h.events);
}

module _ (v4 v6 : Codec) (rb_size prod : ℕ) where
  -- The loop is at its end, or at a record that stops it.
  abbrev pub IsEnded : Drain → Type 0
  IsEnded d = (prod ≤ d.cons) ⊎ (next_record v4 v6 rb_size d ≡ stop)

  abbrev LoopResult : Drain → Result Drain → Type 0
  LoopResult d r = (d' : Drain) × (r ≡ ok d') × Drained prod d d' × IsEnded d'

  -- What one round has done, carried to the end.
  after_round : (d d' : Drain) (r : Result Drain) → Advances d d' → LoopResult d' r → LoopResult d r
  after_round d d' r a (e, q, h, ended) = (e, q, Drained-after prod d d' e a h, ended)

  Drained-refl : (d : Drain) → little_endian 8 d.buf.at 0 ≡ d.cons → Drained prod d d
  Drained-refl d s = record {
    step = omega arith;
    stored = s;
    rest = SameRest-refl d.buf;
    events = omega arith;
  }

  -- The rest of the loop is `k`.
  by_next :
      (k : Drain → Result Drain) (d : Drain) (n : Next)
      → next_record v4 v6 rb_size d ≡ n
      → d.cons < prod
      → prod + 2 ^ 28 ≤ 2 ^ 64
      → little_endian 8 d.buf.at 0 ≡ d.cons
      → ((d' : Drain) → Advances d d' → LoopResult d' (k d'))
      → LoopResult d
          (elim n as (λ _. Result Drain) [ stop ↦ ok d | crash ↦ err other_error | go d' ↦ k d' ])
  by_next k d stop e l big s h = (d, refl, Drained-refl d s, inr e)
  by_next k d crash e l big s h = absurd (omega (arith, next_record_crashes v4 v6 rb_size d e))
  by_next k d (go d') e l big s h =
      let a = next_record-Advances v4 v6 rb_size d d' e in after_round d d' (k d') a (h d' a)

  by_test :
      (k : Drain → Result Drain) (d : Drain) (b : Bool)
      → ltb d.cons prod ≡ b
      → prod + 2 ^ 28 ≤ 2 ^ 64
      → little_endian 8 d.buf.at 0 ≡ d.cons
      → (d.cons < prod → (d' : Drain) → Advances d d' → LoopResult d' (k d'))
      → LoopResult d (elim b as (λ _. Result Drain) [
        | false ↦ ok d
        | true ↦ elim (next_record v4 v6 rb_size d) as (λ _. Result Drain) [
          | stop ↦ ok d
          | crash ↦ err other_error
          | go d' ↦ k d'
        ]
      ])
  by_test k d false e big s h = (d, refl, Drained-refl d s, inl (ground (arith, e)))
  by_test k d true e big s h =
      let l = ltb→lt _ _ e in by_next k d (next_record v4 v6 rb_size d) refl l big s (h l)

  -- With a round for each byte between the two positions the loop returns.
  pub drain_loop_lem :
      (fuel : ℕ) (d : Drain)
      → prod - d.cons < fuel
      → prod + 2 ^ 28 ≤ 2 ^ 64
      → little_endian 8 d.buf.at 0 ≡ d.cons
      → LoopResult d (drain_loop v4 v6 fuel rb_size prod d)
  unfolding drain_loop
  drain_loop_lem zero d f big s = absurd (omega arith)
  drain_loop_lem (suc fuel) d f big s =
      by_test (drain_loop v4 v6 fuel rb_size prod) d (ltb d.cons prod) refl big s
        λ l d' a. drain_loop_lem fuel d' (omega (arith, a.step)) big a.stored

-- What a call of `drain_ringbuf` does to the memory: the consumer position, in the first eight bytes,
-- never goes back, each event has moved it on by at least eight bytes, and no other byte changes.
pub record HasDrained (b : Buffer) (es : List Event) (b' : Buffer) : Type 0 where
  pub rest : SameRest b b'
  pub moved : length es * 8 + little_endian 8 b.at 0 ≤ little_endian 8 b'.at 0

module _ (v4 v6 : Codec) (rb_size : ℕ) where
  drain_from_lem :
      (b : Buffer) (cons prod : ℕ)
      → little_endian 8 b.at 0 ≡ cons
      → prod + 2 ^ 28 ≤ 2 ^ 64
      → (d : Drain) × (drain_from v4 v6 rb_size b cons prod ≡ ok d) × HasDrained b d.events d.buf
  unfolding drain_from
  drain_from_lem b cons prod s big =
      let d : Drain = record { buf = b; cons = cons; events = [] } in
      let (d', e, h, _) =
        drain_loop_lem v4 v6 rb_size prod (suc (prod - cons)) d (omega arith) big s in
      let nothing : HasDrained b [] b = record { rest = SameRest-refl b; moved = omega arith } in
      elim (Bool-cases (ltb prod cons || ltb rb_size (prod - cons))) [
        | inl corrupt ↦ (d, ground (arith, corrupt), nothing)
        | inr sane ↦ (
          d',
          ground (arith, sane, e),
          record { rest = h.rest; moved = omega (arith, h.events, h.stored, s) },
        )
      ]

  -- Whatever bytes the memory holds, as long as the producer position stays below 2 ^ 64 by the
  -- length of a record: `drain_ringbuf` ends and raises nothing; the consumer position never goes
  -- back, each event has moved it on by at least eight bytes, and no byte but the eight of the
  -- position changes.
  pub drain_ringbuf_returns :
      (b : Buffer)
      → little_endian 8 b.at page_size + 2 ^ 28 ≤ 2 ^ 64
      → (es : List Event) × (b' : Buffer) × (drain_ringbuf v4 v6 rb_size b ≡ ok (es, b'))
        × HasDrained b es b'
  unfolding drain_ringbuf unpack
  drain_ringbuf_returns b big =
      let (d, e, h) =
        drain_from_lem b (little_endian 8 b.at 0) (little_endian 8 b.at page_size) refl big in
      let nothing : HasDrained b [] b = record { rest = SameRest-refl b; moved = omega arith } in
      elim (Bool-cases (leb (0 + 8) b.size && leb (page_size + 8) b.size)) [
        | inl mapped ↦ (d.events, d.buf, ground (arith, mapped, e), h)
        | inr short ↦ ([], b, ground (arith, short), nothing)
      ]
