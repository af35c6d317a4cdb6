-- ===== src/Dashboard/Scrape/Lines.antt =====
-- `parse_metrics` on each kind of line that the exporter writes.
use flux_guard.Base.{
  ℕ, ◌≡◌, refl, sym, ap, ◌∙◌, ◌≢◌, false, List, [], ◌∷◌, ◌++◌, append_assoc, arith, Text, codes,
  starts_with, All,
}
use flux_guard.Base.Dict.{Dict, insert}
use flux_guard.Base.Int.{ℤ, pos}
use flux_guard.Base.Decimal.{show_nat}
use flux_guard.Base.Exec.{ok}
use flux_guard.Metrics.{
  escape, packet_lines, blocked_lines, blocked_section, meter_prefix, blocked_ip_prefix,
  blocked_ips_prefix, block_events_prefix, unblock_events_prefix, exceeded_prefix,
}
use flux_guard.Dashboard.Words.{is_break, quoted}
use flux_guard.Dashboard.Words.Laws.{last_word-show_nat, to_int-show_nat, until_quote-append}
use flux_guard.Dashboard.Scrape.{Scraped, add, last_int, label, parse_line, parse_lines}

-- An address text, as `ipaddress` writes it, has no quotation mark, backslash or line break.
abbrev pub Clean : Text → Type 0
Clean = All (λ c. (is_break c ≡ false) × (c ≢ b'"') × (c ≢ b'\\'))

pub escape-Clean : (s : Text) → Clean s → escape s ≡ s
unfolding escape
escape-Clean [] h = refl
escape-Clean (c ∷ s) (hc, h) = ground (arith, escape-Clean s h)

Clean-no_quote : (s : Text) → Clean s → All (λ c. c ≢ b'"') s
Clean-no_quote [] h = tt
Clean-no_quote (c ∷ s) (hc, h) = (hc.1, Clean-no_quote s h)

-- The counter at the end of a line.
last_int_lem : (p q : Text) (n : ℕ) → last_int (p ++ (q ++ b' ' ∷ show_nat n)) ≡ ok (pos n)
unfolding last_int
last_int_lem p q n = ground (arith, last_word-show_nat p q n, to_int-show_nat n)

last_int-meter :
    (ip : Text) (n : ℕ)
    → last_int (meter_prefix ++ (ip ++ (codes "\"} " ++ show_nat n))) ≡ ok (pos n)
last_int-meter ip n =
    ap last_int (sym (append_assoc meter_prefix ip (codes "\"} " ++ show_nat n)))
    ∙ last_int_lem (meter_prefix ++ ip) (codes "\"}") n

label-meter : (ip t : Text) → Clean ip → label (meter_prefix ++ (ip ++ b'"' ∷ t)) ≡ ok ip
unfolding label quoted
label-meter ip t h = rw (until_quote-append ip t (Clean-no_quote ip h))

label-blocked : (ip t : Text) → Clean ip → label (blocked_ip_prefix ++ (ip ++ b'"' ∷ t)) ≡ ok ip
unfolding label quoted
label-blocked ip t h = rw (until_quote-append ip t (Clean-no_quote ip h))

-- One line of each kind.
meter_line :
    (ip : Text) (n : ℕ) (r : Scraped)
    → Clean ip
    → parse_line (meter_prefix ++ (ip ++ (codes "\"} " ++ show_nat n))) r
      ≡ ok (record r { packets = insert ip (pos n) r.packets })
unfolding parse_line starts_with
meter_line ip n r h = rw (label-meter ip (codes "} " ++ show_nat n) h, last_int-meter ip n)

blocked_line :
    (ip : Text) (r : Scraped)
    → Clean ip
    → parse_line (blocked_ip_prefix ++ (ip ++ codes "\"} 1")) r
      ≡ ok (record r { blocked_set = add ip r.blocked_set })
unfolding parse_line starts_with
blocked_line ip r h = rw (label-blocked ip (codes "} 1") h)

pub blocked_ips_line :
    (n : ℕ) (r : Scraped)
    → parse_line (blocked_ips_prefix ++ show_nat n) r ≡ ok (record r { blocked_count = pos n })
unfolding parse_line starts_with
blocked_ips_line n r = rw (last_int_lem [] (codes "fluxguard_blocked_ips") n)

pub block_events_line :
    (n : ℕ) (r : Scraped)
    → parse_line (block_events_prefix ++ show_nat n) r ≡ ok (record r { block_events = pos n })
unfolding parse_line starts_with
block_events_line n r = rw (last_int_lem [] (codes "fluxguard_block_events_total") n)

pub unblock_events_line :
    (n : ℕ) (r : Scraped)
    → parse_line (unblock_events_prefix ++ show_nat n) r ≡ ok (record r { unblock_events = pos n })
unfolding parse_line starts_with
unblock_events_line n r = rw (last_int_lem [] (codes "fluxguard_unblock_events_total") n)

pub exceeded_line :
    (n : ℕ) (r : Scraped)
    → parse_line (exceeded_prefix ++ show_nat n) r ≡ ok (record r { shields_up = pos n })
unfolding parse_line starts_with
exceeded_line n r = rw (last_int_lem [] (codes "fluxguard_global_pps_exceeded_total") n)

-- What the packet lines add to a dict, and the block lines to a set.
unfoldable pub insert_all : Dict ℕ → Dict ℤ → Dict ℤ
insert_all [] acc = acc
insert_all ((k, n) ∷ d) acc = insert_all d (insert k (pos n) acc)

unfoldable pub add_all : List Text → List Text → List Text
add_all [] acc = acc
add_all (k ∷ l) acc = add_all l (add k acc)

abbrev pub CleanKeys : Dict ℕ → Type 0
CleanKeys = All (λ e. Clean e.0)

-- A line that is read adds one round.
pub parse_lines_step :
    (line : Text) (ls : List Text) (r r' : Scraped)
    → parse_line line r ≡ ok r'
    → parse_lines (line ∷ ls) r ≡ parse_lines ls r'
unfolding parse_lines
parse_lines_step line ls r r' h = ground (arith, h)

pub parse_packet_lines :
    (d : Dict ℕ) (ls : List Text) (r : Scraped)
    → CleanKeys d
    → parse_lines (packet_lines d ++ ls) r
      ≡ parse_lines ls (record r { packets = insert_all d r.packets })
unfolding packet_lines insert_all
parse_packet_lines [] ls r h = refl
parse_packet_lines ((ip, n) ∷ d) ls r (hip, h) =
    parse_lines_step _ (packet_lines d ++ ls) r (record r { packets = insert ip (pos n) r.packets })
      (rw (escape-Clean ip hip) (meter_line ip n r hip))
    ∙ (parse_packet_lines d ls (record r { packets = insert ip (pos n) r.packets }) h)

parse_blocked_lines :
    (l ls : List Text) (r : Scraped)
    → All Clean l
    → parse_lines (blocked_lines l ++ ls) r
      ≡ parse_lines ls (record r { blocked_set = add_all l r.blocked_set })
unfolding blocked_lines add_all
parse_blocked_lines [] ls r h = refl
parse_blocked_lines (ip ∷ l) ls r (hip, h) =
    parse_lines_step _ (blocked_lines l ++ ls) r (record r { blocked_set = add ip r.blocked_set })
      (rw (escape-Clean ip hip) (blocked_line ip r hip))
    ∙ (parse_blocked_lines l ls (record r { blocked_set = add ip r.blocked_set }) h)

pub parse_blocked_section :
    (l ls : List Text) (r : Scraped)
    → All Clean l
    → parse_lines (blocked_section l ++ ls) r
      ≡ parse_lines ls (record r { blocked_set = add_all l r.blocked_set })
unfolding parse_lines blocked_section add_all parse_line starts_with
parse_blocked_section [] ls r h = refl
parse_blocked_section (ip ∷ l) ls r h = parse_blocked_lines (ip ∷ l) ls r h
