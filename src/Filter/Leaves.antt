-- ===== src/Filter/Leaves.antt =====
-- The verdicts of the filter, and what a packet leaves in the allowlists and blacklists.
use flux_guard.Base.{
  ℕ, ◌≡◌, ◌⊎◌, sym, ◌∙◌, true, false, ◌&&◌, none, some, List, if◌then◌else◌, arith, Text, same,
  Bool-cases, Option-cases, inl, inr,
}
use flux_guard.Filter.Bucket.{global_check, token_bucket_check}
use flux_guard.Filter.{
  Verdict, xdp_pass, xdp_drop, MapId, Helpers, Family, fresh_bucket, block_event, shields_up, meter,
  auto_block, check_rate, check_blacklist, is_filtered, check_source, fluxguard_filter,
}
use flux_guard.Filter.Verdicts.{
  is_lru, same_map, IsHelpers, Sender, sender, IsFamily, sender-IsFamily, sender-length,
  check_packet_lem,
}

module _ {S : Type 0} (H : Helpers S) (L : IsHelpers H) where
  -- Before the packet is looked at.
  pub lookup-shields_up :
      (m : MapId) (j : Text) (now : ℕ) (s : S)
      → H.lookup_elem m j (shields_up H now (H.count_packet s)).1 ≡ H.lookup_elem m j s
  unfolding shields_up
  lookup-shields_up m j now s = elim (Option-cases (H.global_rate (H.count_packet s))) [
    | inl missing ↦ ground (arith, missing, L.count_lem m j s)
    | inr (gtb, e) ↦
        ground (
          arith,
          e,
          L.count_lem m j s,
          L.global_lem m j (global_check gtb now).0 (H.count_packet s),
        )
  ]

  pub lookup-meter :
      (f : Family) (src : Text) (m : MapId) (j : Text) (s : S)
      → IsFamily f
      → is_lru m ≡ false
      → H.lookup_elem m j (meter H f src s) ≡ H.lookup_elem m j s
  unfolding meter
  lookup-meter f src m j s F p =
      ground (arith, L.add_lem m f.meter j src s p F.meter, L.lru_lem m f.meter j src 1 s p F.meter)

  -- A packet of a source that is not in the blacklist puts it there, and is dropped.
  pub check_rate-blocks :
      (f : Family) (src : Text) (now : ℕ) (m : MapId) (j : Text) (s : S)
      → IsFamily f
      → is_lru m ≡ false
      → (H.lookup_elem m j (check_rate H f src now s).1 ≡ H.lookup_elem m j s)
        ⊎ ((same_map m f.blacklist && same j src ≡ true)
            × (H.lookup_elem m j (check_rate H f src now s).1 ≡ some 1)
            × ((check_rate H f src now s).0 ≡ xdp_drop))
  unfolding check_rate auto_block
  check_rate-blocks f src now m j s F p = elim (Option-cases (H.lookup_bucket f.rate src s)) [
    | inl new ↦ inl (ground (arith, new, L.bucket_lem m f.rate j src (fresh_bucket now) s p F.rate))
    | inr (tb, e) ↦
        let (tb', dropped) = token_bucket_check tb now in
        let s1 = H.set_bucket f.rate src tb' s in
        let set = L.set_lem m f.rate j src tb' s p F.rate in
        let written = L.update_lem m f.blacklist j src 1 s1 p F.blacklist in
        let emitted = L.emit_lem m j (block_event f src now) (H.update_elem f.blacklist src 1 s1) in
        elim (Bool-cases dropped) [
          | inr kept ↦ inl (ground (arith, e, set, kept))
          | inl hit ↦
              elim (Bool-cases
                (L.takes f.blacklist src s1 && (same_map m f.blacklist && same j src))) [
                  | inr other ↦ inl (ground (arith, e, set, hit, written, emitted, other))
                  | inl own ↦ inr (
                    ground (arith, own),
                    ground (arith, e, hit, written, emitted, own),
                    ground (arith, e, hit),
                  )
                ]
        ]
  ]

  -- The packet that blocks a source: it comes from it, and finds it in neither of the two maps.
  pub record Blocks (x : Sender) (m : MapId) (j : Text) (s s' : S) (v : Verdict) : Type 0 where
    pub own : same_map m x.family.blacklist && same j x.src ≡ true
    pub unlisted : H.lookup_elem x.family.allowlist x.src s ≡ none
    pub unblocked : H.lookup_elem x.family.blacklist x.src s ≡ none
    pub written : H.lookup_elem m j s' ≡ some 1
    pub dropped : v ≡ xdp_drop

  check_source-Blocks :
      (x : Sender) (now : ℕ) (m : MapId) (j : Text) (s : S)
      → IsFamily x.family
      → is_lru m ≡ false
      → (let run = check_source H x.family x.src x.proto now s in
          (H.lookup_elem m j run.1 ≡ H.lookup_elem m j s) ⊎ Blocks x m j s run.1 run.0)
  unfolding check_source check_blacklist
  check_source-Blocks x now m j s F p =
      let f = x.family in
      let s1 = meter H f x.src s in
      let metered = lookup-meter f x.src m j s F p in
      let metered_own = lookup-meter f x.src f.blacklist x.src s F F.blacklist in
      elim (Option-cases (H.lookup_elem f.allowlist x.src s)) [
        | inr (v, listed) ↦ inl (ground (arith, listed))
        | inl unlisted ↦ elim (Bool-cases (is_filtered H x.proto s)) [
          | inl filtered ↦ inl (ground (arith, unlisted, filtered))
          | inr other ↦ elim (Option-cases (H.lookup_elem f.blacklist x.src s1)) [
            | inr (v, blocked) ↦ inl (ground (arith, unlisted, other, blocked, metered))
            | inl new ↦ elim (check_rate-blocks f x.src now m j s1 F p) [
              | inl kept ↦ inl (ground (arith, unlisted, other, new, kept, metered))
              | inr (own, written, dropped) ↦ inr (record {
                own = own;
                unlisted = unlisted;
                unblocked = sym metered_own ∙ new;
                written = ground (arith, unlisted, other, new, written);
                dropped = ground (arith, unlisted, other, new, dropped);
              })
            ]
          ]
        ]
      ]

  -- A packet that is long enough goes through the Shields-Up bucket, and then by its source.
  filter_steps :
      (packet : List ℕ) (x : Sender) (now : ℕ) (s : S)
      → sender packet ≡ some x
      → (let (dropped, s') = shields_up H now (H.count_packet s) in
          fluxguard_filter H packet now s
          ≡ (if dropped then (xdp_drop, s') else check_source H x.family x.src x.proto now s'))
  unfolding fluxguard_filter
  filter_steps packet x now s e =
      let s' = (shields_up H now (H.count_packet s)).1 in
      ground (arith, sender-length packet x e, check_packet_lem H packet now s', e)

  filter_other :
      (packet : List ℕ) (now : ℕ) (m : MapId) (j : Text) (s : S)
      → sender packet ≡ none
      → H.lookup_elem m j (fluxguard_filter H packet now s).1 ≡ H.lookup_elem m j s
  unfolding fluxguard_filter
  filter_other packet now m j s e =
      let s' = (shields_up H now (H.count_packet s)).1 in
      ground (arith, check_packet_lem H packet now s', e, lookup-shields_up m j now s)

  -- For helpers as documented: a packet leaves every entry of the allowlists, the blacklists and
  -- the protocol filter as it was, except that its own source may get the entry 1 in the blacklist
  -- of its family; then the source was in neither the allowlist nor the blacklist of the family,
  -- and the packet is dropped.
  pub fluxguard_filter-Blocks :
      (packet : List ℕ) (now : ℕ) (m : MapId) (j : Text) (s : S)
      → is_lru m ≡ false
      → (let run = fluxguard_filter H packet now s in
          (H.lookup_elem m j run.1 ≡ H.lookup_elem m j s)
          ⊎ ((x : Sender) × (sender packet ≡ some x) × Blocks x m j s run.1 run.0))
  fluxguard_filter-Blocks packet now m j s p = elim (Option-cases (sender packet)) [
    | inl none_sent ↦ inl (filter_other packet now m j s none_sent)
    | inr (x, e) ↦
        let (dropped, s') = shields_up H now (H.count_packet s) in
        let steps = filter_steps packet x now s e in
        let head = lookup-shields_up m j now s in
        elim (Bool-cases dropped) [
          | inl hit ↦ inl (ground (arith, steps, hit, head))
          | inr on ↦ elim (check_source-Blocks x now m j s' (sender-IsFamily packet x e) p) [
            | inl kept ↦ inl (ground (arith, steps, on, head, kept))
            | inr b ↦ inr (
              x,
              e,
              record {
                own = b.own;
                unlisted = sym (lookup-shields_up x.family.allowlist x.src now s) ∙ b.unlisted;
                unblocked = sym (lookup-shields_up x.family.blacklist x.src now s) ∙ b.unblocked;
                written = ground (arith, steps, on, b.written);
                dropped = ground (arith, steps, on, b.dropped);
              },
            )
          ]
        ]
  ]

  -- For helpers as documented: every packet of a source that the blacklist of its family has, and
  -- the allowlist has not, is dropped.
  pub fluxguard_filter-drops :
      (packet : List ℕ) (x : Sender) (now v : ℕ) (s : S)
      → sender packet ≡ some x
      → H.lookup_elem x.family.allowlist x.src s ≡ none
      → H.lookup_elem x.family.blacklist x.src s ≡ some v
      → (fluxguard_filter H packet now s).0 ≡ xdp_drop
  unfolding check_source check_blacklist
  fluxguard_filter-drops packet x now v s e unlisted blocked =
      let s' = (shields_up H now (H.count_packet s)).1 in
      let F = sender-IsFamily packet x e in
      ground (
        arith,
        filter_steps packet x now s e,
        lookup-shields_up x.family.allowlist x.src now s,
        lookup-shields_up x.family.blacklist x.src now s,
        lookup-meter x.family x.src x.family.blacklist x.src s' F F.blacklist,
        unlisted,
        blocked,
      )

  -- For helpers as documented: a packet of a source on the allowlist of its family passes exactly if
  -- the Shields-Up bucket lets it through, and blocks nobody.
  pub fluxguard_filter-allows :
      (packet : List ℕ) (x : Sender) (now v : ℕ) (m : MapId) (j : Text) (s : S)
      → sender packet ≡ some x
      → H.lookup_elem x.family.allowlist x.src s ≡ some v
      → ((fluxguard_filter H packet now s).0
          ≡ (if (shields_up H now (H.count_packet s)).0 then xdp_drop else xdp_pass))
        × (H.lookup_elem m j (fluxguard_filter H packet now s).1 ≡ H.lookup_elem m j s)
  unfolding check_source
  fluxguard_filter-allows packet x now v m j s e listed = ground (
    arith,
    filter_steps packet x now s e,
    lookup-shields_up x.family.allowlist x.src now s,
    lookup-shields_up m j now s,
    listed,
  )
