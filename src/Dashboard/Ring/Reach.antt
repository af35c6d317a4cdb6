-- ===== src/Dashboard/Ring/Reach.antt =====
-- How far `drain_ringbuf` gets where the data area is mapped twice, as `open_ringbuf` tries first.
use flux_guard.Base.{
  ℕ, suc, ◌+◌, ◌-◌, ◌*◌, ◌%◌, ◌^◌, ◌≤◌, ◌<◌, ◌≡◌, refl, ◌∙◌, true, List, [], arith, inl, inr, ◌⊎◌,
}
use flux_guard.Base.Bits.{bit_and-mask}
use flux_guard.Base.Exec.{ok}
use flux_guard.Address.{Codec}
use flux_guard.Dashboard.Ring.{
  Buffer, Event, Drain, stop, data_offset, little_endian, unpack, data_len, record_size, is_busy,
  advance, skip_record, take_record, by_header, next_record, drain_from, drain_ringbuf,
}
use flux_guard.Dashboard.Ring.Laws.{drain_loop_lem}
use flux_guard.Dashboard.Ring.Records.{slot, consumer, producer}

mod-lt : (c m : ℕ) → 0 < m → c % m < m
mod-lt c m h = grind arith

-- The header at a position.
abbrev pub header : ℕ → Buffer → ℕ → ℕ
header k b cons = little_endian 4 b.at (slot k cons)

-- A busy or discarded record of no length stands at the position.
abbrev pub IsStuck : ℕ → Buffer → ℕ → Type 0
IsStuck k b cons = (is_busy (header k b cons) ≡ true) × (data_len (header k b cons) ≡ 0)

record_size-zero : (n : ℕ) → record_size n ≡ 0 → n ≡ 0
unfolding record_size
record_size-zero n h = omega arith

module _ (v4 v6 : Codec) (k : ℕ) where
  next_record_stops :
      (d : Drain)
      → d.buf.size ≡ data_offset + 2 * 2 ^ k
      → 40 ≤ 2 ^ k
      → next_record v4 v6 (2 ^ k) d ≡ stop
      → IsStuck k d.buf d.cons
  unfolding next_record unpack by_header skip_record take_record advance
  next_record_stops d size big e =
      let below = mod-lt d.cons (2 ^ k) (omega arith) in
      ground
        (arith, below, bit_and-mask d.cons k, record_size-zero (data_len (header k d.buf d.cons)))

  -- In a ring of 2 ^ k bytes, at least 40, mapped twice, with a producer position that is not
  -- behind the consumer's, nor ahead by more than the ring, and stays below 2 ^ 64 by the length
  -- of a record: `drain_ringbuf` returns, and it has reached the producer position, unless it has
  -- met a busy or discarded record of no length.
  pub drain_ringbuf_reaches :
      (b : Buffer)
      → b.size ≡ data_offset + 2 * 2 ^ k
      → 40 ≤ 2 ^ k
      → consumer b ≤ producer b
      → producer b ≤ consumer b + 2 ^ k
      → producer b + 2 ^ 28 ≤ 2 ^ 64
      → (es : List Event) × (b' : Buffer) × (drain_ringbuf v4 v6 (2 ^ k) b ≡ ok (es, b'))
        × ((producer b ≤ consumer b') ⊎ IsStuck k b' (consumer b'))
  unfolding drain_ringbuf drain_from unpack
  drain_ringbuf_reaches b size big order near small =
      let d : Drain = record { buf = b; cons = consumer b; events = [] } in
      let (d', e, h, ended) =
        drain_loop_lem v4 v6 (2 ^ k) (producer b) (suc (producer b - consumer b)) d (omega arith)
          small refl in
      (
        d'.events,
        d'.buf,
        ground (arith, e),
        elim ended [
          | inl done ↦ inl (omega (arith, h.stored))
          | inr stopped ↦ inr (rw h.stored (next_record_stops d' (h.rest.size ∙ size) big stopped))
        ],
      )
