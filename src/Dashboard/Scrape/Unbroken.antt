-- ===== src/Dashboard/Scrape/Unbroken.antt =====
-- Line breaks in the exporter's text.
use flux_guard.Base.{ℕ, ◌≡◌, refl, true, List, [], ◌∷◌, ◌++◌, arith, Text, codes, All, All-append}
use flux_guard.Base.Dict.{Dict}
use flux_guard.Base.Decimal.{show_nat, show_nat-IsDigit, IsDigit}
use flux_guard.Metrics.{
  MetricsState, packet_lines, blocked_lines, blocked_section, meter_prefix, blocked_ip_prefix,
  sorted_items, sorted_texts, lines, counter_lines, blocked_ips_prefix, block_events_prefix,
  unblock_events_prefix, exceeded_prefix,
}
use flux_guard.Dashboard.Words.{is_break}
use flux_guard.Dashboard.Words.Laws.{unbroken, Unbroken, append-Unbroken}
use flux_guard.Dashboard.Scrape.Lines.{Clean, CleanKeys, escape-Clean}
use flux_guard.Dashboard.Scrape.Contents.{sorted_items-CleanKeys, sorted_texts-Clean}

-- No line of the text is broken.
Clean-Unbroken : (s : Text) → Clean s → Unbroken s
unfolding unbroken
Clean-Unbroken [] h = refl
Clean-Unbroken (c ∷ s) (hc, h) = rw (hc.0, Clean-Unbroken s h)

digits-Unbroken : (s : Text) → All IsDigit s → Unbroken s
unfolding unbroken is_break
digits-Unbroken [] h = refl
digits-Unbroken (c ∷ s) (hc, h) = ground (arith, digits-Unbroken s h)

number-Unbroken : (s : Text) (n : ℕ) → Unbroken s → Unbroken (s ++ show_nat n)
number-Unbroken s n h = append-Unbroken s (show_nat n) h (digits-Unbroken _ (show_nat-IsDigit n))

packet_lines-Unbroken : (d : Dict ℕ) → CleanKeys d → All Unbroken (packet_lines d)
unfolding packet_lines
packet_lines-Unbroken [] h = tt
packet_lines-Unbroken ((ip, n) ∷ d) (hip, h) = (
  rw (escape-Clean ip hip) (
      append-Unbroken meter_prefix (ip ++ (codes "\"} " ++ show_nat n)) (unfold unbroken in refl) (
        append-Unbroken ip (codes "\"} " ++ show_nat n) (Clean-Unbroken ip hip)
          (number-Unbroken (codes "\"} ") n (unfold unbroken in refl)))),
  packet_lines-Unbroken d h,
)

blocked_lines-Unbroken : (l : List Text) → All Clean l → All Unbroken (blocked_lines l)
unfolding blocked_lines
blocked_lines-Unbroken [] h = tt
blocked_lines-Unbroken (ip ∷ l) (hip, h) = (
  rw (escape-Clean ip hip) (
      append-Unbroken blocked_ip_prefix (ip ++ codes "\"} 1") (unfold unbroken in refl)
        (append-Unbroken ip (codes "\"} 1") (Clean-Unbroken ip hip) (unfold unbroken in refl))),
  blocked_lines-Unbroken l h,
)

blocked_section-Unbroken : (l : List Text) → All Clean l → All Unbroken (blocked_section l)
unfolding blocked_section
blocked_section-Unbroken [] h = tt
blocked_section-Unbroken (ip ∷ l) h =
    (unfold unbroken in refl, (unfold unbroken in refl, blocked_lines-Unbroken (ip ∷ l) h))

counters-Unbroken : (m : MetricsState) → All Unbroken (counter_lines m)
unfolding counter_lines unbroken
counters-Unbroken m = (
  refl,
  (
    refl,
    (
      number-Unbroken block_events_prefix m.block_events refl,
      (
        refl,
        (
          refl,
          (
            number-Unbroken unblock_events_prefix m.unblock_events refl,
            (refl, (refl, (number-Unbroken exceeded_prefix m.global_pps_exceeded refl, tt))),
          ),
        ),
      ),
    ),
  ),
)

pub lines-Unbroken :
    (m : MetricsState)
    → CleanKeys m.packets_by_ip
    → All Clean m.blocked_ips_set
    → All Unbroken (lines m)
unfolding lines unbroken
lines-Unbroken m hp hb = (
  plain,
  (
    plain,
    All-append Unbroken (packet_lines (sorted_items m.packets_by_ip)) _
        (packet_lines-Unbroken _ (sorted_items-CleanKeys _ hp))
        (
          plain,
          (
            plain,
            (
              number-Unbroken blocked_ips_prefix m.blocked_ips plain,
              All-append Unbroken (blocked_section (sorted_texts m.blocked_ips_set)) _
                  (blocked_section-Unbroken _ (sorted_texts-Clean _ hb)) (counters-Unbroken m),
            ),
          ),
        ),
  ),
)
  where
    plain : true ≡ true
    plain = refl
