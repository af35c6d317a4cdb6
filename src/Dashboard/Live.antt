-- ===== src/Dashboard/Live.antt =====
-- `open_ringbuf`, and the loop of `main` with what `render` shows. Times are numbers of
-- nanoseconds; the colours, the column widths and the clock beside an event are left out.
pub mod Events
pub mod Top
pub mod Shown
pub mod Opened
use flux_guard.Base.{
  ℕ, ◌+◌, ◌-◌, ◌*◌, Bool, Option, none, some, List, [], ◌∷◌, ◌++◌, ltb, if◌then◌else◌, Text, length,
  take, drop, map,
}
use flux_guard.Base.Dict.{Dict, lookup}
use flux_guard.Base.Int.{ℤ, pos_part, neg_part, sub_ℕ, ltb_ℤ}
use flux_guard.Base.Exec.{Result, ok, err, Exec}
use flux_guard.Bpf.{Bpf, bpf_obj_get}
use flux_guard.Dashboard.Scrape.{Scraped, nothing, contains, parse_metrics}
use flux_guard.Dashboard.Ring.{Buffer, Event, page_size, data_offset}

abbrev pub ringbuf_default_size : ℕ
ringbuf_default_size = 256 * 1024

-- `mmap.mmap(fd, length, …)`, with `none` where it raises: a parameter.
unfoldable pub map_ring : (ℕ → ℕ → Option Buffer) → ℕ → Option (Buffer × ℕ × ℕ)
map_ring mmap fd = elim (mmap fd (2 * page_size + 2 * ringbuf_default_size)) [
  | some buf ↦ some (buf, data_offset, ringbuf_default_size)
  | none ↦ elim (mmap fd (2 * page_size + ringbuf_default_size)) [
    | some buf ↦ some (buf, data_offset, ringbuf_default_size)
    | none ↦ none
  ]
]

unfoldable pub open_ringbuf :
    (B : Bpf) → (ℕ → ℕ → Option Buffer) → Text → Exec B.State (Option (Buffer × ℕ × ℕ))
unfolding map_ring
open_ringbuf B mmap map_path s =
    let (r, s') = bpf_obj_get B map_path s in
    elim r [ ok fd ↦ (ok (map_ring mmap fd), s') | err e ↦ (ok none, s') ]

-- Descending by count; of equal counts the earlier stays first.
unfoldable pub insert_top : Text → ℤ → Dict ℤ → Dict ℤ
insert_top ip cnt [] = (ip, cnt) ∷ []
insert_top ip cnt ((j, c) ∷ d) =
    if ltb_ℤ cnt c then (j, c) ∷ insert_top ip cnt d else (ip, cnt) ∷ (j, c) ∷ d

unfoldable pub sorted_top : Dict ℤ → Dict ℤ
sorted_top [] = []
sorted_top ((ip, cnt) ∷ d) = insert_top ip cnt (sorted_top d)

-- `sorted(packets.items(), key=lambda x: x[1], reverse=True)[:12]`
unfoldable pub top : Dict ℤ → Dict ℤ
top packets = take 12 (sorted_top packets)

-- A line of the table: the status by `blocked`, the rate by `gained` over the time since the last
-- frame.
pub record Row : Type 0 where
  pub ip : Text
  pub blocked : Bool
  pub cnt : ℤ
  pub gained : ℤ

-- What is printed: the table, the numbers below it, and the last events.
pub record Frame : Type 0 where
  pub rows : List Row
  pub dt : ℕ
  pub total : ℕ
  pub blocked_count : ℤ
  pub shields_up : ℤ
  pub block_events : ℤ
  pub unblock_events : ℤ
  pub recent : List Event

abbrev pub sub_ℤ : ℤ → ℤ → ℤ
sub_ℤ a b = sub_ℕ (pos_part a + neg_part b) (neg_part a + pos_part b)

-- `prev_packets.get(ip, cnt)`
unfoldable pub get_or : Text → ℤ → Dict ℤ → ℤ
get_or ip cnt d = elim (lookup ip d) [ none ↦ cnt | some c ↦ c ]

unfoldable pub row : List Text → Dict ℤ → Text × ℤ → Row
unfolding get_or
row blocked_set prev (ip, cnt) = record {
  ip = ip;
  blocked = contains ip blocked_set;
  cnt = cnt;
  gained = sub_ℤ cnt (get_or ip cnt prev);
}

-- `xs[-n:]` for a positive `n`.
unfoldable pub take_last {ℓ} : {A : Type ℓ} → ℕ → List A → List A
take_last n xs = drop (length xs - n) xs

unfoldable pub render : Scraped → Dict ℤ → ℕ → List Event → Frame
render s prev_packets dt rb_events = record {
  rows = map (row s.blocked_set prev_packets) (top s.packets);
  dt = dt;
  total = length s.packets;
  blocked_count = s.blocked_count;
  shields_up = s.shields_up;
  block_events = s.block_events;
  unblock_events = s.unblock_events;
  recent = take_last 8 rb_events;
}

-- The variables of the loop.
pub record Live : Type 0 where
  pub prev_packets : Dict ℤ
  pub accumulated : List Event
  pub last_time : ℕ

-- What one round of the loop meets: the fetched text, empty where the fetch failed, the clock, and
-- the events drained, none where the ring is not open.
pub record Input : Type 0 where
  pub text : Text
  pub now : ℕ
  pub new_events : List Event

unfoldable pub accumulate : List Event → List Event → List Event
accumulate acc new = let all = acc ++ new in if ltb 50 (length all) then take_last 50 all else all

-- `parse_metrics(text) if text else ({}, set(), 0, 0, 0, 0)`
unfoldable pub scrape : Text → Result Scraped
scrape [] = ok nothing
scrape (c ∷ text) = parse_metrics (c ∷ text)

unfoldable pub time_since : ℕ → ℕ → ℕ → ℕ
time_since refresh last now = if ltb last now then now - last else refresh

-- One round. A counter that `int` does not read ends the program.
unfoldable pub show_round : ℕ → Input → Live → Result (Frame × Live)
show_round refresh i l = elim (scrape i.text) [
  | err e ↦ err e
  | ok s ↦
      let events = accumulate l.accumulated i.new_events in
      ok (
        render s l.prev_packets (time_since refresh l.last_time i.now) events,
        record { prev_packets = s.packets; accumulated = events; last_time = i.now },
      )
]

-- The frames of a run, with the variables at its end.
unfoldable pub show_rounds : ℕ → List Input → Live → Result (List Frame × Live)
show_rounds refresh [] l = ok ([], l)
show_rounds refresh (i ∷ is) l = elim (show_round refresh i l) [
  | err e ↦ err e
  | ok (f, l') ↦ elim (show_rounds refresh is l') [
    | err e ↦ err e
    | ok (fs, l'') ↦ ok (f ∷ fs, l'')
  ]
]
