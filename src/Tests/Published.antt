-- ===== src/Tests/Published.antt =====
-- A round with counters of both families in one map.
use flux_guard.Base.{◌≡◌, some, arith, codes, length}
use flux_guard.Base.Dict.{lookup, keys}
use flux_guard.Base.Exec.{ok}
use flux_guard.Bpf.Dump.{shown}
use flux_guard.Brain.State.{World}
use flux_guard.Brain.Tick.{round}
use flux_guard.Brain.Tick.Total.{round-Keeps}
use flux_guard.Brain.Tick.Published.{later, shown_if, round-published}
use flux_guard.Tests.Total.{still, frozen_maps, args, start}
use flux_guard.Tests.Main.{fds, fds-Serves}

abbrev after : World still
after = (round still args fds 10 start).1

step : round still args fds 10 start ≡ (ok tt, after)
step =
    ground (arith, ((round-Keeps still frozen_maps fds fds-Serves args 10).at start (tt, tt, tt)).0)

round-published_example :
    (after.metrics.blocked_ips ≡ length after.blocked_until)
    × (after.metrics.blocked_ips_set ≡ keys after.blocked_until)
    × (lookup (codes "10.0.0.9") after.metrics.packets_by_ip
        ≡ later
            (lookup (codes "10.0.0.9") (shown still.v4 (frozen_maps.entries 4 start.kernel)))
            (lookup (codes "10.0.0.9") (shown_if still frozen_maps (some 4) start.kernel)))
round-published_example =
    round-published still frozen_maps fds fds-Serves args 10 start after (codes "10.0.0.9") step
