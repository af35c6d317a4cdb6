-- ===== src/Tests/Ring.antt =====
-- A ring of 64 bytes with one record of an event from 10.0.0.9.
use flux_guard.Base.{ℕ, ◌<◌, ◌≤◌, ◌≡◌, refl, ◌↔◌, List, [], ◌∷◌, ◌==◌, if◌then◌else◌, arith, ◌⊎◌}
use flux_guard.Base.Exec.{ok}
use flux_guard.Address.Ipv4
use flux_guard.Bpf.Keys.{ipv4, ipv4-IsCodec}
use flux_guard.Dashboard.Ring.{Buffer, Event, little_endian, read_event, drain_ringbuf}
use flux_guard.Dashboard.Ring.Laws.{HasDrained, drain_ringbuf_returns}
use flux_guard.Dashboard.Ring.Events.{HasSource, read_event-ip}
use flux_guard.Dashboard.Ring.Reach.{IsStuck, drain_ringbuf_reaches}
use flux_guard.Dashboard.Ring.Records.{consumer, producer, HasRecord}
use flux_guard.Dashboard.Ring.Overrun.{first_event, drain_ringbuf_overruns}

abbrev ring : Buffer
ring = record {
  at = λ i.
      if i == 4096
      then 40
      else if i == 8192
      then 32
      else if i == 8200
      then 4
      else if i == 8201
      then 1
      else if i == 8204
      then 10
      else if i == 8207
      then 9
      else if i == 8224
      then 232
      else if i == 8225
      then 3
      else 0;
  size = 8320;
}

ring-HasRecord : HasRecord 6 ring
unfolding little_endian
ring-HasRecord = record {
  ahead = refl;
  header = refl;
  fits = omega arith;
  size = refl;
  small = omega arith;
}

ring-HasSource : HasSource ring 8200 10 0 0 9
ring-HasSource = record {
  family = refl;
  first = refl;
  second = refl;
  third = refl;
  fourth = refl;
  bytes = (omega arith, omega arith, omega arith, omega arith);
}

drain_ringbuf_returns_example :
    (es : List Event) × (b' : Buffer) × (drain_ringbuf ipv4 ipv4 64 ring ≡ ok (es, b'))
    × HasDrained ring es b'
unfolding little_endian
drain_ringbuf_returns_example = drain_ringbuf_returns ipv4 ipv4 64 ring (omega arith)

drain_ringbuf_reaches_example :
    (es : List Event) × (b' : Buffer) × (drain_ringbuf ipv4 ipv4 64 ring ≡ ok (es, b'))
    × ((producer ring ≤ consumer b') ⊎ IsStuck 6 b' (consumer b'))
unfolding little_endian
drain_ringbuf_reaches_example =
    drain_ringbuf_reaches ipv4 ipv4 6 ring refl (omega arith) (omega arith) (omega arith)
      (omega arith)

drain_ringbuf_overruns_example :
    (es : List Event) × (b' : Buffer) × (drain_ringbuf ipv4 ipv4 64 ring
      ≡ ok (first_event ipv4 ipv4 6 ring ring-HasRecord ∷ es, b'))
    × (producer b' < consumer b')
    × (drain_ringbuf ipv4 ipv4 64 b' ≡ ok ([], b'))
unfolding little_endian
drain_ringbuf_overruns_example =
    drain_ringbuf_overruns ipv4 ipv4 6 ring ring-HasRecord (omega arith)

read_event-ip_example :
    ((read_event ipv4 ipv4 ring 8200).ip ≡ Ipv4.format (9 ∷ 0 ∷ 0 ∷ 10 ∷ []))
    × (((read_event ipv4 ipv4 ring 8200).ip ≡ Ipv4.format (10 ∷ 0 ∷ 0 ∷ 9 ∷ []))
        ↔ (◌≡◌ {A = ℕ} 10 9 × ◌≡◌ {A = ℕ} 0 0))
read_event-ip_example = read_event-ip ipv4 ipv4 ipv4-IsCodec ring 8200 10 0 0 9 refl ring-HasSource
