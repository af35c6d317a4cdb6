-- ===== src/Filter/Runs.antt =====
-- The filter over packets in a row.
use flux_guard.Base.{ℕ, ◌+◌, Bool, true, false, ◌&&◌, List, [], ◌∷◌, leb, length, if◌then◌else◌}
use flux_guard.Filter.{Verdict, xdp_pass, xdp_drop, Helpers, fluxguard_filter}

-- Packets in a row, each with its time.
abbrev pub Packets : Type 0
Packets = List (List ℕ × ℕ)

unfoldable pub filter_all : {S : Type 0} → Helpers S → Packets → S → S
filter_all H [] s = s
filter_all H ((packet, time) ∷ packets) s =
    filter_all H packets (fluxguard_filter H packet time s).1

abbrev pub passes : Verdict → Bool
passes xdp_pass = true
passes xdp_drop = false

-- The number of those let through that have an Ethernet header.
unfoldable pub passed_all : {S : Type 0} → Helpers S → Packets → S → ℕ
passed_all H [] s = 0
passed_all H ((packet, time) ∷ packets) s =
    let (verdict, s') = fluxguard_filter H packet time s in
    (if leb 14 (length packet) && passes verdict then 1 else 0) + passed_all H packets s'
