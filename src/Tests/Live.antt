-- ===== src/Tests/Live.antt =====
-- The dashboard's loop, on two failed fetches with an event each and on the exporter's text.
use flux_guard.Base.{
  ℕ, leb, ◌++◌, ◌≤◌, ◌≡◌, refl, Option, some, none, List, [], ◌∷◌, if◌then◌else◌, Text, codes,
  text_dec, length,
}
use flux_guard.Base.Dict.{Dict, lookup, NodupKeys}
use flux_guard.Base.Int.{ℤ, pos}
use flux_guard.Base.Exec.{ok}
use flux_guard.Metrics.Server.{Response, Utf8, do_get}
use flux_guard.Dashboard.Scrape.Contents.{as_int}
use flux_guard.Dashboard.Ring.{Buffer, Event}
use flux_guard.Dashboard.Fetch.{fetch_metrics}
use flux_guard.Dashboard.Live.{
  top, take_last, Live, Input, Frame, scrape, accumulate, render, show_round, show_rounds,
}
use flux_guard.Dashboard.Live.Events.{all_events, ShowsLast, show_rounds-accumulated}
use flux_guard.Dashboard.Live.Opened.{ShowsState, ShowsNothing, show_round_exported}
use flux_guard.Dashboard.Live.Top.{IsDescending, Kept, top_lem}
use flux_guard.Tests.Scrape.{state, state-nodup, host_a-Clean, host_b-Clean}

abbrev event : Event
event = record { ip = codes "10.0.0.9"; reason = 1; ts_ns = 1000 }

abbrev inputs : List Input
inputs =
    record { text = []; now = 5; new_events = event ∷ [] }
    ∷ record { text = []; now = 7; new_events = event ∷ event ∷ [] }
    ∷ []

abbrev before : Live
before = record { prev_packets = []; accumulated = []; last_time = 0 }

abbrev frame : ℕ → List Event → Frame
frame dt es = record {
  rows = [];
  dt = dt;
  total = 0;
  blocked_count = pos 0;
  shields_up = pos 0;
  block_events = pos 0;
  unblock_events = pos 0;
  recent = es;
}

abbrev after : Live
after = record { prev_packets = []; accumulated = event ∷ event ∷ event ∷ []; last_time = 7 }

show_rounds-accumulated_example :
    (after.accumulated ≡ take_last 50 ([] ++ all_events inputs))
    × ShowsLast [] inputs (frame 5 (event ∷ []) ∷ frame 2 (event ∷ event ∷ event ∷ []) ∷ [])
unfolding show_rounds take_last show_round scrape accumulate render
show_rounds-accumulated_example = show_rounds-accumulated 1 inputs before after _ [] refl refl

abbrev packets : Dict ℤ
packets = (codes "10.0.0.9", pos 120) ∷ (codes "10.0.0.7", pos 30) ∷ []

packets-NodupKeys : NodupKeys packets
unfolding lookup text_dec
packets-NodupKeys = (refl, (refl, tt))

top_example :
    (length (top packets) ≤ 12)
    × IsDescending (top packets)
    × Kept 12 (codes "10.0.0.9") (top packets) (lookup (codes "10.0.0.9") packets)
top_example = top_lem packets (codes "10.0.0.9") packets-NodupKeys

-- A mapping that the kernel allows up to 300000 bytes.
abbrev mmap : ℕ → ℕ → Option Buffer
mmap fd n = if leb n 300000 then some (record { at = λ i. 0; size = n }) else none

abbrev pub ascii : Utf8
ascii = record { encode = λ t. t; decode = λ b. some b }

show_round_exported_example :
    let round = λ (r : Option Response).
      show_round 1
        (record { text = fetch_metrics ascii r; now = 5; new_events = event ∷ [] })
        before in
    ((f : Frame) × (l' : Live) × (round (some (do_get ascii state (codes "/metrics"))) ≡ ok (f, l'))
      × ShowsState state before.prev_packets l'.prev_packets f
      × ((ip : Text) → lookup ip l'.prev_packets ≡ as_int (lookup ip state.packets_by_ip)))
    × ((f : Frame) × (l' : Live) × (round none ≡ ok (f, l')) × ShowsNothing f)
show_round_exported_example =
    show_round_exported ascii 1 before 5 (event ∷ []) state (λ t. refl) state-nodup
      (host_b-Clean, (host_a-Clean, tt)) (host_b-Clean, tt)
