-- ===== src/Metrics/Server.antt =====
-- The handler of `start_metrics_server`. The socket and the thread belong to `http.server`; the
-- encoding of texts is a parameter.
use flux_guard.Base.{ℕ, Option, List, [], ◌∷◌, if◌then◌else◌, Text, codes, same, length}
use flux_guard.Base.Decimal.{show_nat}
use flux_guard.Metrics.{MetricsState, render_prometheus_text}

-- `str.encode("utf-8")` and `bytes.decode("utf-8")`, with `none` where it raises.
pub record Utf8 : Type 0 where
  pub encode : Text → List ℕ
  pub decode : List ℕ → Option Text

-- The headers are those that the handler sets.
pub record Response : Type 0 where
  pub status : ℕ
  pub headers : List (Text × Text)
  pub body : List ℕ

-- `do_GET`
unfoldable pub do_get : Utf8 → MetricsState → Text → Response
do_get u state path =
    if same path (codes "/metrics")
    then record {
      status = 200;
      headers =
          (codes "Content-Type", codes "text/plain; version=0.0.4; charset=utf-8")
          ∷ (codes "Content-Length", show_nat (length (u.encode (render_prometheus_text state))))
          ∷ [];
      body = u.encode (render_prometheus_text state);
    }
    else record { status = 404; headers = []; body = [] }
