-- ===== src/Dashboard/Ring/Records.antt =====
-- What a round does with a record, and records as the kernel writes them: a header of 8 bytes and an
-- event of 32.
use flux_guard.Base.{
  ℕ, suc, ◌+◌, ◌*◌, ◌%◌, ◌^◌, ◌≤◌, ◌<◌, ◌≡◌, ◌≢◌, refl, true, false, some, [], ◌∷◌, ◌++◌, arith,
}
use flux_guard.Base.Bits.{bit_and-mask}
use flux_guard.Base.Exec.{ok}
use flux_guard.Address.{Codec}
use flux_guard.Dashboard.Ring.{
  Buffer, Drain, go, page_size, data_offset, little_endian, unpack, store_cons, data_len,
  record_size, is_busy, advance, read_event, skip_record, take_record, by_header, next_record,
  drain_loop, drain_from, drain_ringbuf,
}
use flux_guard.Dashboard.Ring.Rounds.{record_size_bound}

-- The offset of the record at a position.
abbrev pub slot : ℕ → ℕ → ℕ
slot k cons = data_offset + cons % 2 ^ k

abbrev pub consumer : Buffer → ℕ
consumer b = little_endian 8 b.at 0

abbrev pub producer : Buffer → ℕ
producer b = little_endian 8 b.at page_size

-- One record of an event lies before the consumer, in a ring of 2 ^ k bytes that is mapped twice.
pub record HasRecord (k : ℕ) (b : Buffer) : Type 0 where
  pub ahead : producer b ≡ consumer b + 40
  pub header : little_endian 4 b.at (slot k (consumer b)) ≡ 32
  pub fits : consumer b % 2 ^ k + 40 ≤ 2 ^ k
  pub size : b.size ≡ data_offset + 2 * 2 ^ k
  pub small : consumer b + 2 ^ 29 ≤ 2 ^ 64

pub header_sizes : (is_busy 32 ≡ false) × (record_size (data_len 32) ≡ 32)
unfolding is_busy record_size data_len
header_sizes = (refl, refl)

module _ (v4 v6 : Codec) where
  -- A free record goes on by its size, with its event.
  pub take_goes :
      (a h : ℕ) (d : Drain)
      → is_busy h ≡ false
      → record_size (data_len h) ≢ 0
      → a + 40 ≤ d.buf.size
      → d.cons + 2 ^ 28 < 2 ^ 64
      → let n = d.cons + record_size (data_len h) in
        by_header v4 v6 a (some h) d
        ≡ go (record {
          buf = store_cons n d.buf;
          cons = n;
          events = d.events ++ read_event v4 v6 d.buf (a + 8) ∷ [];
        })
  unfolding by_header take_record advance
  take_goes a h d free size room small = ground (arith, record_size_bound h)

  pub skip_goes :
      (a h : ℕ) (d : Drain)
      → is_busy h ≡ true
      → record_size (data_len h) ≢ 0
      → d.cons + 2 ^ 28 < 2 ^ 64
      → let n = d.cons + record_size (data_len h) in
        by_header v4 v6 a (some h) d
        ≡ go (record { buf = store_cons n d.buf; cons = n; events = d.events })
  unfolding by_header skip_record advance
  skip_goes a h d busy size small = ground (arith, record_size_bound h)

  -- The header at the position is what the round goes by.
  pub next_record-by_header :
      (k h : ℕ) (d : Drain)
      → slot k d.cons + 4 ≤ d.buf.size
      → little_endian 4 d.buf.at (slot k d.cons) ≡ h
      → next_record v4 v6 (2 ^ k) d ≡ by_header v4 v6 (slot k d.cons) (some h) d
  unfolding next_record unpack
  next_record-by_header k h d room e = rw bit_and-mask (ground (arith, e))

  pub drain_loop_step :
      (fuel rb_size prod : ℕ) (d d' : Drain)
      → d.cons < prod
      → next_record v4 v6 rb_size d ≡ go d'
      → drain_loop v4 v6 (suc fuel) rb_size prod d ≡ drain_loop v4 v6 fuel rb_size prod d'
  unfolding drain_loop
  drain_loop_step fuel rb_size prod d d' l e = ground (arith, e)

  pub drain_loop_end :
      (fuel rb_size prod : ℕ) (d : Drain)
      → prod ≤ d.cons
      → drain_loop v4 v6 (suc fuel) rb_size prod d ≡ ok d
  unfolding drain_loop
  drain_loop_end fuel rb_size prod d l = ground arith

-- Storing the position changes nothing behind the first eight bytes.
pub little_endian-store_cons_behind :
    (i v : ℕ) (b : Buffer) → 8 ≤ i → little_endian 4 (store_cons v b).at i ≡ little_endian 4 b.at i
unfolding little_endian store_cons
little_endian-store_cons_behind i v b h = ground arith

pub producer-store_cons : (v : ℕ) (b : Buffer) → producer (store_cons v b) ≡ producer b
unfolding little_endian store_cons
producer-store_cons v b = refl

pub mod-add_fits : (c n m : ℕ) → c % m + n < m → (c + n) % m ≡ c % m + n
mod-add_fits c n m h = grind arith

pub record_size-gt : (n : ℕ) → 8 < n → 8 < record_size n
unfolding record_size
record_size-gt n h = omega arith

-- With the consumer ahead of the producer nothing is read, and nothing is put right.
pub drain_ahead :
    (v4 v6 : Codec) (rb_size : ℕ) (b : Buffer)
    → page_size + 8 ≤ b.size
    → producer b < consumer b
    → drain_ringbuf v4 v6 rb_size b ≡ ok ([], b)
unfolding drain_ringbuf drain_from unpack
drain_ahead v4 v6 rb_size b room l = ground arith
