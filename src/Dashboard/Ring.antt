-- ===== src/Dashboard/Ring.antt =====
-- `drain_ringbuf`: the reader of the kernel's ring buffer of events. The mapped memory is a function
-- from offsets to bytes, with the length of the mapping.
pub mod Rounds
pub mod Laws
pub mod Records
pub mod Overrun
pub mod Events
pub mod Reach
use Prim.Native.Nat.{bit_and, bit_or}
use flux_guard.Base.{
  ℕ, zero, suc, ◌+◌, ◌-◌, ◌*◌, ◌/◌, ◌%◌, ◌^◌, Bool, true, false, ◌||◌, Option, none, some, List, [],
  ◌∷◌, ◌++◌, ltb, leb, ◌==◌, if◌then◌else◌, Text, codes,
}
use flux_guard.Base.Decimal.{show_nat}
use flux_guard.Base.Exec.{Result, ok, err, other_error, unfinished}
use flux_guard.Address.{Codec}

pub record Buffer : Type 0 where
  pub at : ℕ → ℕ
  pub size : ℕ

-- `(ip_str, reason, ts_ns)`
pub record Event : Type 0 where
  pub ip : Text
  pub reason : ℕ
  pub ts_ns : ℕ

-- The variables of the loop.
pub record Drain : Type 0 where
  pub buf : Buffer
  pub cons : ℕ
  pub events : List Event

pub data Next : Type 0 where
  stop crash : Next
  go : Drain → Next

abbrev pub page_size : ℕ
page_size = 4096

abbrev pub data_offset : ℕ
data_offset = 2 * page_size

abbrev pub hdr_size : ℕ
hdr_size = 8

abbrev pub busy_flag : ℕ
busy_flag = 2 ^ 31

abbrev pub discard_flag : ℕ
discard_flag = 2 ^ 30

-- `n` bytes at an offset, as a little-endian number.
unfoldable pub little_endian : ℕ → (ℕ → ℕ) → ℕ → ℕ
little_endian zero f i = 0
little_endian (suc n) f i = f i + 256 * little_endian n f (suc i)

-- `n` bytes at an offset.
unfoldable pub slice : ℕ → (ℕ → ℕ) → ℕ → List ℕ
slice zero f i = []
slice (suc n) f i = f i ∷ slice n f (suc i)

-- The byte of a number at a place, the lowest first.
unfoldable pub byte : ℕ → ℕ → ℕ
byte zero v = v % 256
byte (suc i) v = byte i (v / 256)

-- `struct.pack(">I", v)`
unfoldable pub pack_be : ℕ → List ℕ
unfolding byte
pack_be v = byte 3 v ∷ byte 2 v ∷ byte 1 v ∷ byte 0 v ∷ []

-- `struct.unpack_from` of an unsigned number of `n` bytes; `none` for `struct.error`.
unfoldable pub unpack : ℕ → ℕ → Buffer → Option ℕ
unpack n offset buf =
    if leb (offset + n) buf.size then some (little_endian n buf.at offset) else none

-- The memory with the number in its first eight bytes.
unfoldable pub store_cons : ℕ → Buffer → Buffer
store_cons v buf = record buf { at = λ i. if ltb i 8 then byte i v else buf.at i }

unfoldable pub data_len : ℕ → ℕ
data_len hdr_len = bit_and hdr_len 0x0fff_ffff

-- Rounded up to a multiple of `RB_RECORD_HDR_SIZE`.
unfoldable pub record_size : ℕ → ℕ
record_size len = (len + hdr_size - 1) / hdr_size * hdr_size

unfoldable pub is_busy : ℕ → Bool
is_busy hdr_len = elim (bit_and hdr_len (bit_or busy_flag discard_flag) == 0) [
  | true ↦ false
  | false ↦ true
]

-- `cons += n`, written back by `struct.pack_into("<Q", …)`, which refuses a number of over 64 bits.
unfoldable pub advance : ℕ → Drain → Next
advance n d =
    if ltb (d.cons + n) (2 ^ 64)
    then go (record d { cons = d.cons + n; buf = store_cons (d.cons + n) d.buf })
    else crash

module _ (v4 v6 : Codec) where
  unfoldable pub event_ip : ℕ → ℕ → List ℕ → Text
  event_ip af src_v4 src_v6 =
      if af == 4
      then v4.format (pack_be src_v4)
      else if af == 6
      then v6.format src_v6
      else codes "unknown(af=" ++ (show_nat af ++ codes ")")

  -- The 32 bytes of an event, all of which are in the mapping: nothing raises here.
  unfoldable pub read_event : Buffer → ℕ → Event
  unfolding event_ip
  read_event buf payload_abs = record {
    ip =
        event_ip (little_endian 1 buf.at payload_abs) (little_endian 4 buf.at (payload_abs + 4))
          (slice 16 buf.at (payload_abs + 8));
    reason = little_endian 1 buf.at (payload_abs + 1);
    ts_ns = little_endian 8 buf.at (payload_abs + 24);
  }

  -- A record that is busy or discarded.
  unfoldable pub skip_record : ℕ → Drain → Next
  skip_record hdr_len d =
      let size = record_size (data_len hdr_len) in if size == 0 then stop else advance size d

  unfoldable pub take_record : ℕ → ℕ → Drain → Next
  take_record hdr_len hdr_abs d =
      let payload_abs = hdr_abs + hdr_size in
      let size = record_size (data_len hdr_len) in
      if ltb d.buf.size (payload_abs + 32)
      then stop
      else advance (if size == 0 then hdr_size else size)
          (record d { events = d.events ++ read_event d.buf payload_abs ∷ [] })

  -- By the header, where it lies in the mapping.
  unfoldable pub by_header : ℕ → Option ℕ → Drain → Next
  by_header hdr_abs none d = stop
  by_header hdr_abs (some hdr_len) d =
      if is_busy hdr_len then skip_record hdr_len d else take_record hdr_len hdr_abs d

  -- One round of the loop.
  unfoldable pub next_record : ℕ → Drain → Next
  next_record rb_size d =
      let hdr_abs = data_offset + bit_and d.cons (rb_size - 1) in
      by_header hdr_abs (unpack 4 hdr_abs d.buf) d

  -- `while cons < prod`
  unfoldable pub drain_loop : ℕ → ℕ → ℕ → Drain → Result Drain
  drain_loop zero rb_size prod d = err unfinished
  drain_loop (suc fuel) rb_size prod d = elim (ltb d.cons prod) [
    | false ↦ ok d
    | true ↦ elim (next_record rb_size d) [
      | stop ↦ ok d
      | crash ↦ err other_error
      | go d' ↦ drain_loop fuel rb_size prod d'
    ]
  ]

  unfoldable pub drain_from : ℕ → Buffer → ℕ → ℕ → Result Drain
  drain_from rb_size buf cons prod =
      let d : Drain = record { buf = buf; cons = cons; events = [] } in
      elim (ltb prod cons || ltb rb_size (prod - cons)) [
        | true ↦ ok d
        | false ↦ drain_loop (suc (prod - cons)) rb_size prod d
      ]

  -- The events come with the memory as it is left.
  unfoldable pub drain_ringbuf : ℕ → Buffer → Result (List Event × Buffer)
  drain_ringbuf rb_size buf = elim (unpack 8 0 buf) [
    | none ↦ ok ([], buf)
    | some cons ↦ elim (unpack 8 page_size buf) [
      | none ↦ ok ([], buf)
      | some prod ↦ elim (drain_from rb_size buf cons prod) [
        | ok d ↦ ok (d.events, d.buf)
        | err e ↦ err e
      ]
    ]
  ]
