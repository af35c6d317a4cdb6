-- ===== src/Dashboard/Fetch.antt =====
-- `fetch_metrics`, and what it gets from the exporter.
use flux_guard.Base.{
  ◌≡◌, ◌&&◌, Option, none, some, [], leb, ltb, if◌then◌else◌, arith, Text, codes, same, length,
  Bool-cases, inl, inr,
}
use flux_guard.Base.Dict.{lookup}
use flux_guard.Base.Decimal.{show_nat}
use flux_guard.Metrics.{MetricsState, render_prometheus_text}
use flux_guard.Metrics.Server.{Utf8, Response, do_get}

or_blank : Option Text → Text
or_blank none = []
or_blank (some t) = t

-- `none` stands for an exception of `urlopen`, which raises for a status that is no success too.
unfoldable pub fetch_metrics : Utf8 → Option Response → Text
unfolding or_blank
fetch_metrics u none = []
fetch_metrics u (some r) =
    if leb 200 r.status && ltb r.status 300 then or_blank (u.decode r.body) else []

-- At the path /metrics the exporter's text comes back, with the length of the body announced.
pub fetch_metrics-do_get :
    (u : Utf8) (m : MetricsState) (path : Text)
    → ((t : Text) → u.decode (u.encode t) ≡ some t)
    → (fetch_metrics u (some (do_get u m path))
        ≡ (if same path (codes "/metrics") then render_prometheus_text m else []))
      × (lookup (codes "Content-Length") (do_get u m path).headers ≡ (
          if same path (codes "/metrics")
          then some (show_nat (length (do_get u m path).body))
          else none))
unfolding fetch_metrics do_get lookup
fetch_metrics-do_get u m path h = elim (Bool-cases (same path (codes "/metrics"))) [
  | inl here ↦ (ground (arith, here, h (render_prometheus_text m)), ground (arith, here))
  | inr other ↦ (ground (arith, other), ground (arith, other))
]
