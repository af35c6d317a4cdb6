-- ===== src/Dashboard/Live/Opened.antt =====
-- `open_ringbuf`, and rounds on the exporter's text.
use flux_guard.Base.{
  ℕ, ◌+◌, ◌*◌, ◌^◌, ◌≡◌, refl, ap, map, ◌∙◌, Option, none, some, List, [], ◌∷◌, length, arith, Text,
  All, ◌⊎◌, inl, inr,
}
use flux_guard.Base.Dict.{Dict, lookup, NodupKeys}
use flux_guard.Dashboard.Scrape.Contents.{as_int}
use flux_guard.Base.Int.{ℤ, pos}
use flux_guard.Base.Exec.{ok, Result-cases}
use flux_guard.Bpf.{Bpf, bpf_obj_get}
use flux_guard.Metrics.{MetricsState, render_prometheus_text, lines, join_lines}
use flux_guard.Dashboard.Scrape.{parse_metrics}
use flux_guard.Dashboard.Scrape.Lines.{Clean, CleanKeys}
use flux_guard.Dashboard.Scrape.RoundTrip.{reading, parse_metrics-reading, lookup-reading}
use flux_guard.Dashboard.Live.Shown.{IsShown, length-reading, table-IsShown}
use flux_guard.Dashboard.Ring.{Buffer, Event, page_size, data_offset}
use flux_guard.Dashboard.Live.{
  ringbuf_default_size, map_ring, open_ringbuf, Live, Row, Frame, scrape, show_round, render, row,
  top, sorted_top, accumulate, time_since,
}
use flux_guard.Base.{codes}
use flux_guard.Metrics.Server.{Utf8, Response, do_get}
use flux_guard.Dashboard.Fetch.{fetch_metrics, fetch_metrics-do_get}

module _ (mmap : ℕ → ℕ → Option Buffer) where
  -- A mapping has the length that was asked for.
  abbrev pub MapsWhole : Type 0
  MapsWhole = (fd n : ℕ) (b : Buffer) → mmap fd n ≡ some b → b.size ≡ n

  -- The ring is not open, or its data area lies behind two pages, once or twice.
  abbrev pub IsOpened : Option (Buffer × ℕ × ℕ) → Type 0
  IsOpened none = Unit
  IsOpened (some (b, offset, rb_size)) =
      (offset ≡ data_offset)
      × (rb_size ≡ 2 ^ 18)
      × ((b.size ≡ data_offset + 2 * 2 ^ 18) ⊎ (b.size ≡ data_offset + 2 ^ 18))

  map_ring-IsOpened : MapsWhole → (fd : ℕ) → IsOpened (map_ring mmap fd)
  unfolding map_ring
  map_ring-IsOpened w fd = by_first (mmap fd (2 * page_size + 2 * ringbuf_default_size)) refl
    where
      by_second :
          (o : Option Buffer)
          → mmap fd (2 * page_size + ringbuf_default_size) ≡ o
          → IsOpened (elim o as (λ _. Option (Buffer × ℕ × ℕ)) [
            | some buf ↦ some (buf, data_offset, ringbuf_default_size)
            | none ↦ none
          ])
      by_second none e = tt
      by_second (some b) e = (refl, refl, inr (w fd _ b e))

      by_first :
          (o : Option Buffer)
          → mmap fd (2 * page_size + 2 * ringbuf_default_size) ≡ o
          → IsOpened (elim o as (λ _. Option (Buffer × ℕ × ℕ)) [
            | some buf ↦ some (buf, data_offset, ringbuf_default_size)
            | none ↦
                elim (mmap fd (2 * page_size + ringbuf_default_size))
                  as (λ _. Option (Buffer × ℕ × ℕ)) [
                    | some buf ↦ some (buf, data_offset, ringbuf_default_size)
                    | none ↦ none
                  ]
          ])
      by_first none e = by_second (mmap fd (2 * page_size + ringbuf_default_size)) refl
      by_first (some b) e = (refl, refl, inl (w fd _ b e))

  -- Where a mapping has the length asked for: `open_ringbuf` raises nothing, whatever the kernel
  -- answers, and a ring that it returns has its data behind two pages, once or twice 256 KB.
  open_ringbuf-IsOpened :
      (B : Bpf) (path : Text) (s : B.State)
      → MapsWhole
      → (o : Option (Buffer × ℕ × ℕ)) × ((open_ringbuf B mmap path s).0 ≡ ok o) × IsOpened o
  unfolding open_ringbuf
  open_ringbuf-IsOpened B path s w = elim (Result-cases (bpf_obj_get B path s).0) [
    | inl (fd, e) ↦ (map_ring mmap fd, ground (arith, e), map_ring-IsOpened w fd)
    | inr (x, e) ↦ (none, ground (arith, e), tt)
  ]

-- The exporter's text is not empty, so it is parsed.
scrape-render :
    (m : MetricsState)
    → scrape (render_prometheus_text m) ≡ parse_metrics (render_prometheus_text m)
unfolding scrape render_prometheus_text lines join_lines
scrape-render m = refl

-- What a frame prints of the exporter's state: the four counters, how many addresses have packets,
-- and the top of their counts, each row with the status of its address and what is new.
pub record ShowsState (m : MetricsState) (prev_packets packets : Dict ℤ) (f : Frame) : Type 0 where
  pub rows : All (IsShown m prev_packets) f.rows
  pub counts : map (λ (r : Row). (r.ip, r.cnt)) f.rows ≡ top packets
  pub total : f.total ≡ length m.packets_by_ip
  pub blocked_count : f.blocked_count ≡ pos m.blocked_ips
  pub shields_up : f.shields_up ≡ pos m.global_pps_exceeded
  pub block_events : f.block_events ≡ pos m.block_events
  pub unblock_events : f.unblock_events ≡ pos m.unblock_events

-- A frame without addresses, and with counters of 0.
pub record ShowsNothing (f : Frame) : Type 0 where
  pub rows : f.rows ≡ []
  pub total : f.total ≡ 0
  pub blocked_count : f.blocked_count ≡ pos 0
  pub shields_up : f.shields_up ≡ pos 0
  pub block_events : f.block_events ≡ pos 0
  pub unblock_events : f.unblock_events ≡ pos 0

counts-rows :
    (blocked_set : List Text) (prev_packets d : Dict ℤ)
    → map (λ (r : Row). (r.ip, r.cnt)) (map (row blocked_set prev_packets) d) ≡ d
unfolding row
counts-rows blocked_set prev_packets [] = refl
counts-rows blocked_set prev_packets (e ∷ d) =
    ap (λ t. e ∷ t) (counts-rows blocked_set prev_packets d)

render-ShowsState :
    (m : MetricsState) (prev_packets : Dict ℤ) (dt : ℕ) (es : List Event)
    → NodupKeys m.packets_by_ip
    → ShowsState m prev_packets (reading m).packets (render (reading m) prev_packets dt es)
unfolding render
render-ShowsState m prev_packets dt es u = record {
  rows = table-IsShown m prev_packets u;
  counts = counts-rows (reading m).blocked_set prev_packets (top (reading m).packets);
  total = length-reading m u;
  blocked_count = refl;
  shields_up = refl;
  block_events = refl;
  unblock_events = refl;
}

-- From the exporter's state to the screen, where a decoder undoes the encoder and the addresses are
-- clean, each once among the packet counts: a round on what is fetched from the exporter goes on
-- and keeps the exporter's packet counts. Its frame shows the exporter's four counters, the number
-- of addresses with packets, and the top of the counts; each row has its address's own count, the
-- status blocked exactly if the address is blocked, and what its count has gained since the round
-- before, which is nothing for an address that is new. A round on a failed fetch goes on with a
-- frame of no address and counters of 0.
pub show_round_exported :
    (u : Utf8) (refresh : ℕ) (l : Live) (now : ℕ) (es : List Event) (m : MetricsState)
    → ((t : Text) → u.decode (u.encode t) ≡ some t)
    → NodupKeys m.packets_by_ip
    → CleanKeys m.packets_by_ip
    → All Clean m.blocked_ips_set
    → let round = λ (r : Option Response).
      show_round refresh (record { text = fetch_metrics u r; now = now; new_events = es }) l in
      ((f : Frame) × (l' : Live) × (round (some (do_get u m (codes "/metrics"))) ≡ ok (f, l'))
        × ShowsState m l.prev_packets l'.prev_packets f
        × ((ip : Text) → lookup ip l'.prev_packets ≡ as_int (lookup ip m.packets_by_ip)))
      × ((f : Frame) × (l' : Live) × (round none ≡ ok (f, l')) × ShowsNothing f)
unfolding show_round scrape top sorted_top fetch_metrics render
show_round_exported u refresh l now es m coded keys_once hp hb =
    let fetched = fetch_metrics u (some (do_get u m (codes "/metrics"))) in
    let whole : fetched ≡ render_prometheus_text m =
      (fetch_metrics-do_get u m (codes "/metrics") coded).0 ∙ ground arith in
    let read : scrape fetched ≡ ok (reading m) =
      ap scrape whole ∙ scrape-render m ∙ parse_metrics-reading m hp hb in
    let events = accumulate l.accumulated es in
    let dt = time_since refresh l.last_time now in
    (
      (
        render (reading m) l.prev_packets dt events,
        record { prev_packets = (reading m).packets; accumulated = events; last_time = now },
        ground (arith, read),
        render-ShowsState m l.prev_packets dt events keys_once,
        λ ip. lookup-reading m ip keys_once,
      ),
      (
        _,
        _,
        refl,
        record {
          rows = refl;
          total = refl;
          blocked_count = refl;
          shields_up = refl;
          block_events = refl;
          unblock_events = refl;
        },
      ),
    )
