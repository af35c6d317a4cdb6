-- ===== src/Dashboard/Ring/Overrun.antt =====
-- The reader on a record as the kernel writes it, which puts the producer 40 bytes ahead.
use flux_guard.Base.{
  ℕ, ◌+◌, ◌-◌, ◌%◌, ◌^◌, ◌≤◌, ◌<◌, ◌≡◌, ◌≢◌, ◌∙◌, List, [], ◌∷◌, arith, Bool-cases, inl, inr,
}
use flux_guard.Base.Exec.{ok}
use flux_guard.Address.{Codec}
use flux_guard.Dashboard.Ring.{
  Buffer, Event, Drain, go, page_size, little_endian, unpack, store_cons, data_len, record_size,
  is_busy, read_event, next_record, drain_loop, drain_from, drain_ringbuf,
}
use flux_guard.Dashboard.Ring.Rounds.{data_len-mod, record_size_bound, little_endian-store_cons}
use flux_guard.Dashboard.Ring.Records.{
  slot, consumer, producer, header_sizes, take_goes, skip_goes, next_record-by_header,
  drain_loop_step, drain_loop_end, little_endian-store_cons_behind, producer-store_cons,
  mod-add_fits, record_size-gt, drain_ahead, HasRecord,
}

module _ (v4 v6 : Codec) (k : ℕ) (b : Buffer) (R : HasRecord k b) where
  -- The event that the kernel wrote, as the reader decodes it.
  abbrev pub first_event : Event
  first_event = read_event v4 v6 b (slot k (consumer b) + 8)

  -- The low half of its time stamp, which the reader takes for the next header.
  abbrev pub low_time : ℕ
  low_time = little_endian 4 b.at (slot k (consumer b) + 32)

  start : Drain
  start = record { buf = b; cons = consumer b; events = [] }

  second : Drain
  second = record {
    buf = store_cons (consumer b + 32) b;
    cons = consumer b + 32;
    events = first_event ∷ [];
  }

  first_round : next_record v4 v6 (2 ^ k) start ≡ go second
  unfolding start second
  first_round =
      next_record-by_header v4 v6 k 32 start (omega (arith, R.size, R.fits)) R.header
      ∙ take_goes v4 v6 (slot k (consumer b)) 32 start header_sizes.0
          (rw header_sizes.1 (omega arith)) (omega (arith, R.size, R.fits)) (omega (arith, R.small))
      ∙ rw header_sizes.1

  slot-second : slot k (consumer b + 32) ≡ slot k (consumer b) + 32
  slot-second = omega (arith, mod-add_fits (consumer b) 32 (2 ^ k) (omega (arith, R.fits)))

  header-second : little_endian 4 second.buf.at (slot k (consumer b + 32)) ≡ low_time
  unfolding second
  header-second =
      rw slot-second (
        little_endian-store_cons_behind (slot k (consumer b) + 32) (consumer b + 32) b
          (omega arith))

  step_size : ℕ
  step_size = record_size (data_len low_time)

  step_size_bounds : 8 < low_time % 2 ^ 28 → (8 < step_size) × (step_size ≤ 2 ^ 28)
  unfolding step_size
  step_size_bounds h = (
    record_size-gt (data_len low_time) (omega (arith, data_len-mod low_time)),
    record_size_bound low_time,
  )

  -- The second round reads the time stamp for a header, and goes on by what it says.
  second_round :
      8 < low_time % 2 ^ 28
      → (es : List Event) × (next_record v4 v6 (2 ^ k) second
          ≡ go (record {
            buf = store_cons (consumer b + 32 + step_size) second.buf;
            cons = consumer b + 32 + step_size;
            events = first_event ∷ es;
          }))
  unfolding step_size second
  second_round h =
      let room : slot k (consumer b + 32) + 40 ≤ second.buf.size =
        unfold second store_cons in omega (arith, R.size, R.fits, slot-second) in
      let goes =
        next_record-by_header v4 v6 k low_time second (omega (arith, room)) header-second in
      let moves : record_size (data_len low_time) ≢ 0 = omega (arith, step_size_bounds h) in
      elim (Bool-cases (is_busy low_time)) [
        | inl busy ↦ (
          [],
          goes
              ∙ skip_goes v4 v6 (slot k (consumer b + 32)) low_time second busy moves
                  (omega (arith, R.small)),
        )
        | inr free ↦ (
          read_event v4 v6 second.buf (slot k (consumer b + 32) + 8) ∷ [],
          goes
              ∙ take_goes v4 v6 (slot k (consumer b + 32)) low_time second free moves room
                  (omega (arith, R.small)),
        )
      ]

  -- In a ring of 2 ^ k bytes that is mapped twice, with one record as the kernel writes it, of an
  -- event whose time stamp has more than 8 in its low 28 bits, which does not wrap around, and a
  -- consumer position that stays below 2 ^ 64 by two records: the reader reports the event, and
  -- then takes the time stamp for the header of another record, so that it leaves the consumer
  -- position beyond the producer's. From there on it reports no event and changes nothing.
  pub drain_ringbuf_overruns :
      8 < low_time % 2 ^ 28
      → (es : List Event) × (b' : Buffer) × (drain_ringbuf v4 v6 (2 ^ k) b
          ≡ ok (first_event ∷ es, b'))
        × (producer b' < consumer b')
        × (drain_ringbuf v4 v6 (2 ^ k) b' ≡ ok ([], b'))
  drain_ringbuf_overruns h =
      let (es, two) = second_round h in
      let end = consumer b + 32 + step_size in
      let b' : Buffer = store_cons end second.buf in
      let d : Drain = record { buf = b'; cons = end; events = first_event ∷ es } in
      let bounds = step_size_bounds h in
      let loop =
        drain_loop_step v4 v6 40 (2 ^ k) (producer b) start second (before_start) first_round
        ∙ drain_loop_step v4 v6 39 (2 ^ k) (producer b) second d before_second two
        ∙ drain_loop_end v4 v6 38 (2 ^ k) (producer b) d (omega (arith, bounds, R.ahead)) in
      let ahead : producer b' < consumer b' = omega (
        arith,
        bounds,
        R.ahead,
        producer-store_cons end second.buf,
        producer_second,
        little_endian-store_cons end second.buf (omega (arith, bounds, R.small)),
      ) in
      (es, b', drain_first d loop, ahead, drain_ahead v4 v6 (2 ^ k) b' (room_second end) ahead)
    where
      before_start : start.cons < producer b
      before_start = unfold start in omega (arith, R.ahead)

      before_second : second.cons < producer b
      before_second = unfold second in omega (arith, R.ahead)

      drain_first :
          (d : Drain)
          → drain_loop v4 v6 41 (2 ^ k) (producer b) start ≡ ok d
          → drain_ringbuf v4 v6 (2 ^ k) b ≡ ok (d.events, d.buf)
      drain_first d e =
          let gap : producer b - consumer b ≡ 40 = omega (arith, R.ahead) in
          unfold drain_ringbuf drain_from unpack start in
          ground (arith, e, gap, R.ahead, R.fits, R.size)

      producer_second : producer second.buf ≡ producer b
      producer_second = unfold second in producer-store_cons (consumer b + 32) b

      room_second : (end : ℕ) → page_size + 8 ≤ (store_cons end second.buf).size
      room_second end = unfold second store_cons in omega (arith, R.size)
