-- ===== src/Dashboard/Live/Shown.antt =====
-- What the table of the dashboard shows of the exporter's state.
use flux_guard.Base.{
  ℕ, zero, suc, ◌+◌, ◌≡◌, refl, sym, ap, ◌∙◌, Option, none, some, [], ◌∷◌, map, arith, Text, length,
  take, All, All-if,
}
use flux_guard.Base.Dict.{Dict, lookup, insert, NodupKeys}
use flux_guard.Base.Dict.Laws.{insert-NodupKeys, length-insert_new, lookup-insert}
use flux_guard.Base.Int.{ℤ, pos, ltb_ℤ}
use flux_guard.Metrics.{MetricsState, insert_item, sorted_items}
use flux_guard.Metrics.Order.{sorted_items-NodupKeys}
use flux_guard.Dashboard.Scrape.{contains}
use flux_guard.Dashboard.Scrape.Contents.{as_int}
use flux_guard.Dashboard.Scrape.Lines.{insert_all}
use flux_guard.Dashboard.Scrape.RoundTrip.{reading, lookup-reading, contains-reading}
use flux_guard.Dashboard.Live.{Row, insert_top, sorted_top, top, sub_ℤ, get_or, row}

-- The packets since the last frame; none for an address that was not there.
abbrev pub gain : ℤ → Option ℤ → ℤ
gain c none = pos 0
gain c (some before) = sub_ℤ c before

-- A row that tells of an address what the exporter has: its status, its packets, and how many of
-- them are new.
pub record IsShown (m : MetricsState) (prev_packets : Dict ℤ) (r : Row) : Type 0 where
  pub blocked : r.blocked ≡ contains r.ip m.blocked_ips_set
  pub cnt : as_int (lookup r.ip m.packets_by_ip) ≡ some r.cnt
  pub gained : r.gained ≡ gain r.cnt (lookup r.ip prev_packets)

insert_all-NodupKeys : (d : Dict ℕ) (acc : Dict ℤ) → NodupKeys acc → NodupKeys (insert_all d acc)
unfolding insert_all
insert_all-NodupKeys [] acc u = u
insert_all-NodupKeys ((k, n) ∷ d) acc u =
    insert_all-NodupKeys d (insert k (pos n) acc) (insert-NodupKeys k (pos n) acc u)

-- None of the keys is there yet.
abbrev AreNew : Dict ℕ → Dict ℤ → Type 0
AreNew d acc = All (λ e. lookup e.0 acc ≡ none) d

AreNew-insert :
    (k : Text) (v : ℤ) (d : Dict ℕ) (acc : Dict ℤ)
    → lookup k d ≡ none
    → AreNew d acc
    → AreNew d (insert k v acc)
unfolding lookup
AreNew-insert k v [] acc h u = tt
AreNew-insert k v ((j, n) ∷ d) acc h (hj, u) =
    (ground (arith, lookup-insert j k v acc, hj, h), AreNew-insert k v d acc (ground (arith, h)) u)

length-insert_all :
    (d : Dict ℕ) (acc : Dict ℤ)
    → NodupKeys d
    → AreNew d acc
    → length (insert_all d acc) ≡ length d + length acc
unfolding insert_all
length-insert_all [] acc u h = omega arith
length-insert_all ((k, n) ∷ d) acc (fresh, u) (hk, h) = omega (
  arith,
  length-insert_all d (insert k (pos n) acc) u (AreNew-insert k (pos n) d acc fresh h),
  length-insert_new k (pos n) acc hk,
)

AreNew-nil : (d : Dict ℕ) → AreNew d []
unfolding lookup
AreNew-nil [] = tt
AreNew-nil (e ∷ d) = (refl, AreNew-nil d)

length-insert_item : (k : Text) (n : ℕ) (d : Dict ℕ) → length (insert_item k n d) ≡ suc (length d)
unfolding insert_item
length-insert_item k n [] = refl
length-insert_item k n (e ∷ d) = ground (arith, length-insert_item k n d)

length-sorted_items : (d : Dict ℕ) → length (sorted_items d) ≡ length d
unfolding sorted_items
length-sorted_items [] = refl
length-sorted_items ((k, n) ∷ d) =
    length-insert_item k n (sorted_items d) ∙ ap suc (length-sorted_items d)

pub length-reading :
    (m : MetricsState)
    → NodupKeys m.packets_by_ip
    → length (reading m).packets ≡ length m.packets_by_ip
length-reading m u = omega (
  arith,
  length-insert_all (sorted_items m.packets_by_ip) [] (sorted_items-NodupKeys _ u) (AreNew-nil _),
  length-sorted_items m.packets_by_ip,
)

-- What all entries of a dict have, those of its table have.
module _ (Q : Text × ℤ → Type 0) where
  insert_top-All :
      (ip : Text) (c : ℤ) (d : Dict ℤ) → Q (ip, c) → All Q d → All Q (insert_top ip c d)
  unfolding insert_top
  insert_top-All ip c [] q h = (q, tt)
  insert_top-All ip c ((j, x) ∷ d) q (hx, h) =
      All-if Q (ltb_ℤ c x) ((j, x) ∷ insert_top ip c d) ((ip, c) ∷ (j, x) ∷ d)
        (hx, insert_top-All ip c d q h) (q, (hx, h))

  sorted_top-All : (d : Dict ℤ) → All Q d → All Q (sorted_top d)
  unfolding sorted_top
  sorted_top-All [] h = tt
  sorted_top-All ((ip, c) ∷ d) (q, h) = insert_top-All ip c (sorted_top d) q (sorted_top-All d h)

  take-All : (n : ℕ) (d : Dict ℤ) → All Q d → All Q (take n d)
  take-All zero d h = tt
  take-All (suc n) [] h = tt
  take-All (suc n) (e ∷ d) (q, h) = (q, take-All n d h)

  top-All : (d : Dict ℤ) → All Q d → All Q (top d)
  unfolding top
  top-All d h = take-All 12 (sorted_top d) (sorted_top-All d h)

-- A dict maps its keys to their values.
abbrev Maps : Dict ℤ → Dict ℤ → Type 0
Maps e = All (λ x. lookup x.0 e ≡ some x.1)

Maps-cons : (k : Text) (v : ℤ) (e d : Dict ℤ) → lookup k d ≡ none → Maps e d → Maps ((k, v) ∷ e) d
unfolding lookup
Maps-cons k v e [] h u = tt
Maps-cons k v e ((j, x) ∷ d) h (hj, u) =
    (ground (arith, hj, h), Maps-cons k v e d (ground (arith, h)) u)

Maps-self : (d : Dict ℤ) → NodupKeys d → Maps d d
unfolding lookup
Maps-self [] u = tt
Maps-self ((k, v) ∷ d) (fresh, u) = (ground arith, Maps-cons k v d d fresh (Maps-self d u))

sub_ℤ-self : (c : ℤ) → sub_ℤ c c ≡ pos 0
sub_ℤ-self c = ground arith

new_of : (c : ℤ) (o : Option ℤ) → sub_ℤ c (elim o [ none ↦ c | some b ↦ b ]) ≡ gain c o
new_of c none = sub_ℤ-self c
new_of c (some b) = refl

row-IsShown :
    (m : MetricsState) (prev_packets : Dict ℤ) (ip : Text) (c : ℤ)
    → NodupKeys m.packets_by_ip
    → lookup ip (reading m).packets ≡ some c
    → IsShown m prev_packets (row (reading m).blocked_set prev_packets (ip, c))
unfolding row get_or
row-IsShown m prev_packets ip c u e =
    let found : as_int (lookup ip m.packets_by_ip) ≡ some c = sym (lookup-reading m ip u) ∙ e in
    record {
      blocked = contains-reading m ip;
      cnt = found;
      gained = new_of c (lookup ip prev_packets);
    }

rows-IsShown :
    (m : MetricsState) (prev_packets d : Dict ℤ)
    → NodupKeys m.packets_by_ip
    → Maps (reading m).packets d
    → All (IsShown m prev_packets) (map (row (reading m).blocked_set prev_packets) d)
rows-IsShown m prev_packets [] u h = tt
rows-IsShown m prev_packets ((ip, c) ∷ d) u (e, h) =
    (row-IsShown m prev_packets ip c u e, rows-IsShown m prev_packets d u h)

pub table-IsShown :
    (m : MetricsState) (prev_packets : Dict ℤ)
    → NodupKeys m.packets_by_ip
    → All
        (IsShown m prev_packets)
        (map (row (reading m).blocked_set prev_packets) (top (reading m).packets))
table-IsShown m prev_packets u = rows-IsShown m prev_packets (top (reading m).packets) u (
    top-All _ (reading m).packets
      (Maps-self _ (insert_all-NodupKeys (sorted_items m.packets_by_ip) [] tt)))
