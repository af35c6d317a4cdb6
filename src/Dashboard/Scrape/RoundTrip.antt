-- ===== src/Dashboard/Scrape/RoundTrip.antt =====
-- `parse_metrics` on the whole text of the exporter.
use flux_guard.Base.{
  ◌≡◌, refl, ◌∙◌, Bool, true, false, ◌||◌, Option, none, some, List, [], ◌∷◌, Text, starts_with,
  All,
}
use flux_guard.Base.Dict.{lookup, NodupKeys}
use flux_guard.Base.Int.{ℤ, pos}
use flux_guard.Base.Exec.{ok}
use flux_guard.Metrics.Order.{lookup-sorted_items, sorted_items-NodupKeys}
use flux_guard.Metrics.{
  MetricsState, sorted_items, sorted_texts, lines, join_lines, counter_lines,
  render_prometheus_text,
}
use flux_guard.Dashboard.Words.Laws.{Unbroken, split_lines-join_lines}
use flux_guard.Dashboard.Scrape.{Scraped, nothing, contains, parse_line, parse_lines, parse_metrics}
use flux_guard.Dashboard.Scrape.Lines.{
  Clean, CleanKeys, insert_all, add_all, parse_lines_step, parse_packet_lines,
  parse_blocked_section, blocked_ips_line, block_events_line, unblock_events_line, exceeded_line,
}
use flux_guard.Dashboard.Scrape.Contents.{
  as_int, or_else, lookup-insert_all, contains-add_all, contains-sorted_texts,
  sorted_items-CleanKeys, sorted_texts-Clean,
}
use flux_guard.Dashboard.Scrape.Unbroken.{lines-Unbroken}

-- What the exporter's lines say.
abbrev pub reading : MetricsState → Scraped
reading m = record {
  packets = insert_all (sorted_items m.packets_by_ip) [];
  blocked_set = add_all (sorted_texts m.blocked_ips_set) [];
  blocked_count = pos m.blocked_ips;
  block_events = pos m.block_events;
  unblock_events = pos m.unblock_events;
  shields_up = pos m.global_pps_exceeded;
}

-- A comment line is passed over.
comment :
    (s : Text) (ls : List Text) (r : Scraped) → parse_lines ((b'#' ∷ s) ∷ ls) r ≡ parse_lines ls r
unfolding parse_line starts_with
comment s ls r = parse_lines_step (b'#' ∷ s) ls r r refl

parse_counter_lines :
    (m : MetricsState) (r : Scraped)
    → parse_lines (counter_lines m) r
      ≡ ok (record r {
        block_events = pos m.block_events;
        unblock_events = pos m.unblock_events;
        shields_up = pos m.global_pps_exceeded;
      })
unfolding counter_lines
parse_counter_lines m r =
    comment _ _ r
    ∙ (comment _ _ r
        ∙ (parse_lines_step _ _ r _ (block_events_line m.block_events r)
            ∙ (comment _ _ _
                ∙ (comment _ _ _
                    ∙ (parse_lines_step _ _ _ _ (unblock_events_line m.unblock_events _)
                        ∙ (comment _ _ _
                            ∙ (comment _ _ _
                                ∙ (parse_lines_step _ _ _ _ (exceeded_line m.global_pps_exceeded _)
                                    ∙ (unfold parse_lines in refl)))))))))

parse_metrics-join_lines :
    (ls : List Text) → All Unbroken ls → parse_metrics (join_lines ls) ≡ parse_lines ls nothing
unfolding parse_metrics
parse_metrics-join_lines ls h = rw (split_lines-join_lines ls h)

parse_lines-lines :
    (m : MetricsState)
    → CleanKeys m.packets_by_ip
    → All Clean m.blocked_ips_set
    → parse_lines (lines m) nothing ≡ ok (reading m)
unfolding lines
parse_lines-lines m hp hb =
    comment _ _ nothing
    ∙ (comment _ _ nothing
        ∙ (parse_packet_lines (sorted_items m.packets_by_ip) _ nothing (sorted_items-CleanKeys _ hp)
            ∙ (comment _ _ _
                ∙ (comment _ _ _
                    ∙ (parse_lines_step _ _ _ _ (blocked_ips_line m.blocked_ips _)
                        ∙ (parse_blocked_section (sorted_texts m.blocked_ips_set) _ _
                              (sorted_texts-Clean _ hb)
                            ∙ parse_counter_lines m _))))))

or_else-nil : (j : Text) (o : Option ℤ) → or_else o (lookup j []) ≡ o
unfolding lookup
or_else-nil j none = refl
or_else-nil j (some n) = refl

or-nil : (j : Text) (b : Bool) → (b || contains j []) ≡ b
unfolding contains
or-nil j true = refl
or-nil j false = refl

pub parse_metrics-reading :
    (m : MetricsState)
    → CleanKeys m.packets_by_ip
    → All Clean m.blocked_ips_set
    → parse_metrics (render_prometheus_text m) ≡ ok (reading m)
unfolding render_prometheus_text
parse_metrics-reading m hp hb =
    parse_metrics-join_lines (lines m) (lines-Unbroken m hp hb) ∙ parse_lines-lines m hp hb

pub lookup-reading :
    (m : MetricsState) (ip : Text)
    → NodupKeys m.packets_by_ip
    → lookup ip (reading m).packets ≡ as_int (lookup ip m.packets_by_ip)
lookup-reading m ip u =
    lookup-insert_all ip (sorted_items m.packets_by_ip) [] (sorted_items-NodupKeys _ u)
    ∙ rw (lookup-sorted_items ip m.packets_by_ip u) (or_else-nil ip _)

pub contains-reading :
    (m : MetricsState) (ip : Text)
    → contains ip (reading m).blocked_set ≡ contains ip m.blocked_ips_set
contains-reading m ip =
    contains-add_all ip (sorted_texts m.blocked_ips_set) []
    ∙ rw (contains-sorted_texts ip m.blocked_ips_set) (or-nil ip _)

-- For a state whose addresses are clean texts, the dashboard's parse of the exporter's text returns
-- without an exception. It finds every address with its packet count, and no other; exactly the
-- blocked addresses; and the four counters.
pub parse_metrics-render_prometheus_text :
    (m : MetricsState)
    → NodupKeys m.packets_by_ip
    → CleanKeys m.packets_by_ip
    → All Clean m.blocked_ips_set
    → (r : Scraped) × (parse_metrics (render_prometheus_text m) ≡ ok r)
      × ((ip : Text) → lookup ip r.packets ≡ as_int (lookup ip m.packets_by_ip))
      × ((ip : Text) → contains ip r.blocked_set ≡ contains ip m.blocked_ips_set)
      × (r.blocked_count ≡ pos m.blocked_ips)
      × (r.block_events ≡ pos m.block_events)
      × (r.unblock_events ≡ pos m.unblock_events)
      × (r.shields_up ≡ pos m.global_pps_exceeded)
parse_metrics-render_prometheus_text m u hp hb = (
  reading m,
  parse_metrics-reading m hp hb,
  λ ip. lookup-reading m ip u,
  contains-reading m,
  refl,
  refl,
  refl,
  refl,
)
