-- ===== src/Tests/Scrape.antt =====
-- The exporter's text for two addresses, read by the dashboard.
use flux_guard.Base.{◌≡◌, refl, [], ◌∷◌, Text, codes, text_dec, arith}
use flux_guard.Base.Dict.{lookup, NodupKeys}
use flux_guard.Base.Int.{pos}
use flux_guard.Base.Exec.{ok}
use flux_guard.Metrics.{MetricsState, render_prometheus_text}
use flux_guard.Dashboard.Words.{is_break}
use flux_guard.Dashboard.Scrape.{Scraped, parse_metrics, contains}
use flux_guard.Dashboard.Scrape.Lines.{Clean}
use flux_guard.Dashboard.Scrape.Contents.{as_int}
use flux_guard.Dashboard.Scrape.RoundTrip.{parse_metrics-render_prometheus_text}

abbrev pub state : MetricsState
state = record {
  packets_by_ip = (codes "10.0.0.9", 120) ∷ (codes "10.0.0.7", 30) ∷ [];
  blocked_ips_set = codes "10.0.0.9" ∷ [];
  blocked_ips = 1;
  block_events = 2;
  unblock_events = 1;
  global_pps_exceeded = 0;
}

pub state-nodup : NodupKeys state.packets_by_ip
unfolding lookup text_dec
state-nodup = (refl, (refl, tt))

pub host_a-Clean : Clean (codes "10.0.0.7")
unfolding is_break
host_a-Clean = ground arith

pub host_b-Clean : Clean (codes "10.0.0.9")
unfolding is_break
host_b-Clean = ground arith

parse_metrics_example :
    (r : Scraped) × (parse_metrics (render_prometheus_text state) ≡ ok r)
    × ((ip : Text) → lookup ip r.packets ≡ as_int (lookup ip state.packets_by_ip))
    × ((ip : Text) → contains ip r.blocked_set ≡ contains ip state.blocked_ips_set)
    × (r.blocked_count ≡ pos 1)
    × (r.block_events ≡ pos 2)
    × (r.unblock_events ≡ pos 1)
    × (r.shields_up ≡ pos 0)
parse_metrics_example =
    parse_metrics-render_prometheus_text state state-nodup (host_b-Clean, (host_a-Clean, tt))
      (host_b-Clean, tt)
