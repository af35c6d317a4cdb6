-- ===== src/Metrics.antt =====
-- fluxguard_metrics.py: `MetricsState`, and the Prometheus text that it renders. Each method runs
-- under the object's lock, so a call is one step.
pub mod Order
pub mod Server
use flux_guard.Base.{
  ℕ, ◌+◌, Bool, true, false, List, [], ◌∷◌, ◌++◌, if◌then◌else◌, ◌==◌, ltb, Text, codes,
}
use flux_guard.Base.Dict.{Dict}
use flux_guard.Base.Decimal.{show_nat}

-- The fields are private in the source, with a leading underscore.
pub record MetricsState : Type 0 where
  pub packets_by_ip : Dict ℕ
  pub blocked_ips_set : List Text
  pub blocked_ips : ℕ
  pub block_events : ℕ
  pub unblock_events : ℕ
  pub global_pps_exceeded : ℕ

abbrev pub init : MetricsState
init = record {
  packets_by_ip = [];
  blocked_ips_set = [];
  blocked_ips = 0;
  block_events = 0;
  unblock_events = 0;
  global_pps_exceeded = 0;
}

unfoldable pub update_snapshot : Dict ℕ → ℕ → MetricsState → MetricsState
update_snapshot packets blocked m = record m { packets_by_ip = packets; blocked_ips = blocked }

unfoldable pub update_blocked_set : List Text → MetricsState → MetricsState
update_blocked_set blocked m = record m { blocked_ips_set = blocked }

unfoldable pub inc_block_events : MetricsState → MetricsState
inc_block_events m = record m { block_events = m.block_events + 1 }

unfoldable pub inc_unblock_events : MetricsState → MetricsState
inc_unblock_events m = record m { unblock_events = m.unblock_events + 1 }

unfoldable pub inc_global_pps_exceeded : MetricsState → MetricsState
inc_global_pps_exceeded m = record m { global_pps_exceeded = m.global_pps_exceeded + 1 }

-- `s < t` on texts, by code points.
unfoldable pub text_lt : Text → Text → Bool
text_lt s [] = false
text_lt [] (d ∷ t) = true
text_lt (c ∷ s) (d ∷ t) =
    let rest = text_lt s t in if ltb c d then true else if c == d then rest else false

-- `sorted` of the items of a dict, and of the items of a set: no two have equal keys.
unfoldable pub insert_item : Text → ℕ → Dict ℕ → Dict ℕ
unfolding text_lt
insert_item k v [] = (k, v) ∷ []
insert_item k v ((j, w) ∷ d) =
    if text_lt k j then (k, v) ∷ (j, w) ∷ d else (j, w) ∷ insert_item k v d

unfoldable pub sorted_items : Dict ℕ → Dict ℕ
unfolding insert_item
sorted_items [] = []
sorted_items ((k, v) ∷ d) = insert_item k v (sorted_items d)

unfoldable pub insert_text : Text → List Text → List Text
unfolding text_lt
insert_text k [] = k ∷ []
insert_text k (j ∷ l) = if text_lt k j then k ∷ j ∷ l else j ∷ insert_text k l

unfoldable pub sorted_texts : List Text → List Text
unfolding insert_text
sorted_texts [] = []
sorted_texts (k ∷ l) = insert_text k (sorted_texts l)

-- `ip.replace("\\", "\\\\").replace('"', '\\"')`: no text that the first call writes holds a quote,
-- so one pass does both.
unfoldable pub escape : Text → Text
escape [] = []
escape (c ∷ s) =
    let rest = escape s in
    if c == b'\\' then b'\\' ∷ b'\\' ∷ rest else if c == b'"' then b'\\' ∷ b'"' ∷ rest else c ∷ rest

abbrev pub meter_prefix : Text
meter_prefix = codes "fluxguard_meter_packets{ip=\""

abbrev pub blocked_ip_prefix : Text
blocked_ip_prefix = codes "fluxguard_blocked_ip{ip=\""

abbrev pub blocked_ips_prefix : Text
blocked_ips_prefix = codes "fluxguard_blocked_ips "

abbrev pub block_events_prefix : Text
block_events_prefix = codes "fluxguard_block_events_total "

abbrev pub unblock_events_prefix : Text
unblock_events_prefix = codes "fluxguard_unblock_events_total "

abbrev pub exceeded_prefix : Text
exceeded_prefix = codes "fluxguard_global_pps_exceeded_total "

unfoldable pub packet_lines : Dict ℕ → List Text
unfolding escape
packet_lines [] = []
packet_lines ((ip, cnt) ∷ d) =
    (meter_prefix ++ (escape ip ++ (codes "\"} " ++ show_nat cnt))) ∷ packet_lines d

unfoldable pub blocked_lines : List Text → List Text
unfolding escape
blocked_lines [] = []
blocked_lines (ip ∷ l) = (blocked_ip_prefix ++ (escape ip ++ codes "\"} 1")) ∷ blocked_lines l

-- The lines above the per-address blocks stand only if there is one.
unfoldable pub blocked_section : List Text → List Text
unfolding blocked_lines
blocked_section [] = []
blocked_section (ip ∷ l) =
    codes
      "# HELP fluxguard_blocked_ip Per-IP block status (1 = currently blocked, supports IPv4/IPv6)."
    ∷ codes "# TYPE fluxguard_blocked_ip gauge"
    ∷ blocked_lines (ip ∷ l)

-- The counters at the end.
unfoldable pub counter_lines : MetricsState → List Text
counter_lines m =
    codes "# HELP fluxguard_block_events_total Cumulative block events."
    ∷ codes "# TYPE fluxguard_block_events_total counter"
    ∷ (block_events_prefix ++ show_nat m.block_events)
    ∷ codes "# HELP fluxguard_unblock_events_total Cumulative unblock events."
    ∷ codes "# TYPE fluxguard_unblock_events_total counter"
    ∷ (unblock_events_prefix ++ show_nat m.unblock_events)
    ∷ codes "# HELP fluxguard_global_pps_exceeded_total Global Shields-Up events triggered."
    ∷ codes "# TYPE fluxguard_global_pps_exceeded_total counter"
    ∷ (exceeded_prefix ++ show_nat m.global_pps_exceeded)
    ∷ []

-- The list `lines`, but for the empty text at its end.
unfoldable pub lines : MetricsState → List Text
lines m =
    codes
      "# HELP fluxguard_meter_packets Current packet counter per source IP (IPv4 or IPv6) from meter_maps."
    ∷ codes "# TYPE fluxguard_meter_packets gauge"
    ∷ (packet_lines (sorted_items m.packets_by_ip)
        ++ codes "# HELP fluxguard_blocked_ips Number of IPs currently blocked by the brain."
          ∷ codes "# TYPE fluxguard_blocked_ips gauge"
          ∷ (blocked_ips_prefix ++ show_nat m.blocked_ips)
          ∷ (blocked_section (sorted_texts m.blocked_ips_set) ++ counter_lines m))

-- `"\n".join(lines + [""])`: every line is ended by a newline.
unfoldable pub join_lines : List Text → Text
join_lines [] = []
join_lines (l ∷ ls) = l ++ b'\n' ∷ join_lines ls

unfoldable pub render_prometheus_text : MetricsState → Text
unfolding lines join_lines counter_lines sorted_items sorted_texts packet_lines blocked_section
    show_nat
render_prometheus_text m = join_lines (lines m)
