-- ===== src/Dashboard/Scrape.antt =====
-- `parse_metrics`
pub mod Lines
pub mod Contents
pub mod Unbroken
pub mod RoundTrip
use flux_guard.Base.{
  Bool, false, ◌||◌, none, some, List, [], ◌∷◌, ◌++◌, if◌then◌else◌, Text, same, starts_with,
}
use flux_guard.Base.Dict.{Dict, insert}
use flux_guard.Base.Int.{ℤ, pos}
use flux_guard.Base.Exec.{Result, ok, err, value_error, other_error}
use flux_guard.Metrics.{
  meter_prefix, blocked_ip_prefix, blocked_ips_prefix, block_events_prefix, unblock_events_prefix,
  exceeded_prefix,
}
use flux_guard.Dashboard.Words.{split_lines, last_word, quoted, to_int}

-- The six results.
pub record Scraped : Type 0 where
  pub packets : Dict ℤ
  pub blocked_set : List Text
  pub blocked_count : ℤ
  pub block_events : ℤ
  pub unblock_events : ℤ
  pub shields_up : ℤ

abbrev pub nothing : Scraped
nothing = record {
  packets = [];
  blocked_set = [];
  blocked_count = pos 0;
  block_events = pos 0;
  unblock_events = pos 0;
  shields_up = pos 0;
}

unfoldable pub contains : Text → List Text → Bool
contains t [] = false
contains t (x ∷ l) = same t x || contains t l

-- `s.add(t)`, which keeps a member where it is.
unfoldable pub add : Text → List Text → List Text
unfolding contains
add t l = if contains t l then l else l ++ t ∷ []

-- `int(line.split()[-1])`: an `IndexError` or a `ValueError` ends the parse.
unfoldable pub last_int : Text → Result ℤ
last_int line = elim (last_word line) [
  | none ↦ err other_error
  | some word ↦ elim (to_int word) [ none ↦ err value_error | some n ↦ ok n ]
]

-- `line.split('"')[1]`
unfoldable pub label : Text → Result Text
label line = elim (quoted line) [ none ↦ err other_error | some ip ↦ ok ip ]

infixl 5 ◌>>=◌
abbrev pub ◌>>=◌ : {A B : Type 0} → Result A → (A → Result B) → Result B
ok a >>= f = f a
err e >>= f = err e

-- One round of the loop over the lines.
unfoldable pub parse_line : Text → Scraped → Result Scraped
parse_line line r =
    if starts_with line meter_prefix
    then (do
      ip ← label line
      cnt ← last_int line
      ok (record r { packets = insert ip cnt r.packets }))
    else if starts_with line blocked_ips_prefix
    then (do n ← last_int line; ok (record r { blocked_count = n }))
    else if starts_with line block_events_prefix
    then (do n ← last_int line; ok (record r { block_events = n }))
    else if starts_with line unblock_events_prefix
    then (do n ← last_int line; ok (record r { unblock_events = n }))
    else if starts_with line exceeded_prefix
    then (do n ← last_int line; ok (record r { shields_up = n }))
    else if starts_with line blocked_ip_prefix
    then (do ip ← label line; ok (record r { blocked_set = add ip r.blocked_set }))
    else ok r

unfoldable pub parse_lines : List Text → Scraped → Result Scraped
parse_lines [] r = ok r
parse_lines (line ∷ ls) r = elim (parse_line line r) [ ok r' ↦ parse_lines ls r' | err e ↦ err e ]

unfoldable pub parse_metrics : Text → Result Scraped
unfolding parse_lines parse_line last_int label add
parse_metrics text = parse_lines (split_lines false text) nothing
