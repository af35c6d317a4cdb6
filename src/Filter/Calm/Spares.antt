-- ===== src/Filter/Calm/Spares.antt =====
-- The whole filter on packets in a row, of a source that keeps to the limit and of others.
use flux_guard.Base.{
  ℕ, ◌+◌, ◌*◌, ◌^◌, ◌<◌, ◌≤◌, ◌≡◌, ◌⊎◌, refl, sym, ap, ◌∙◌, subst, Bool, true, false, ◌&&◌, none,
  some, List, [], ◌∷◌, if◌then◌else◌, arith, Text, same, Bool-cases, Option-cases, inl, inr,
}
use flux_guard.Filter.Bucket.{kern_pps_limit}
use flux_guard.Filter.{
  Helpers, Family, inet4, inet6, shields_up, check_source, check_packet, fluxguard_filter,
}
use flux_guard.Filter.Verdicts.{
  is_lru, same_map, IsHelpers, Sender, sender, sender-IsFamily, check_packet_lem,
}
use flux_guard.Filter.Leaves.{lookup-shields_up, fluxguard_filter-Blocks}
use flux_guard.Filter.Runs.{Packets, filter_all}
use flux_guard.Filter.Calm.{
  Fades, IsRates, IsCalm, IsCalm-Fades, IsCalm-later, Fades-trans, shields_up-Fades,
  check_source-Fades, check_source-IsCalm,
}

-- A family of IP.
abbrev pub IsIp : Family → Type 0
IsIp f = (f ≡ inet4) ⊎ (f ≡ inet6)

sender-IsIp : (packet : List ℕ) (x : Sender) → sender packet ≡ some x → IsIp x.family
unfolding sender
sender-IsIp packet x e = ground (arith, e)

same_family : (f g : Family) → IsIp f → IsIp g → same_map f.rate g.rate ≡ true → f ≡ g
same_family f g (inl a) (inl b) h = a ∙ sym b
same_family f g (inr a) (inr b) h = a ∙ sym b
same_family f g (inl a) (inr b) h = absurd (ground (arith, a, b, h))
same_family f g (inr a) (inl b) h = absurd (ground (arith, a, b, h))

ip_blacklist : (f : Family) → IsIp f → is_lru f.blacklist ≡ false
ip_blacklist f (inl e) = ground (arith, e)
ip_blacklist f (inr e) = ground (arith, e)

-- The maps of two families are the same ones, or all of them differ.
paired :
    (f g : Family) → IsIp f → IsIp g → same_map f.blacklist g.blacklist ≡ same_map f.rate g.rate
paired f g (inl a) (inl b) = ground (arith, a, b)
paired f g (inl a) (inr b) = ground (arith, a, b)
paired f g (inr a) (inl b) = ground (arith, a, b)
paired f g (inr a) (inr b) = ground (arith, a, b)

-- The packet comes from the source.
unfoldable pub is_from : Family → Text → List ℕ → Bool
is_from f j packet = elim (sender packet) [
  | none ↦ false
  | some x ↦ same_map f.rate x.family.rate && same j x.src
]

module _ {S : Type 0} (H : Helpers S) (R : IsRates H) (L : IsHelpers H) where
  -- The state behind a packet is one of these.
  filter_cases :
      (packet : List ℕ) (now : ℕ) (s : S)
      → (let s' = (fluxguard_filter H packet now s).1 in
          let s1 = (shields_up H now (H.count_packet s)).1 in
          (s' ≡ s) ⊎ ((s' ≡ s1) ⊎ (s' ≡ (check_packet H packet now s1).1)))
  unfolding fluxguard_filter
  filter_cases packet now s = ground arith

  check_packet-Fades :
      (f : Family) (j : Text) (packet : List ℕ) (now : ℕ) (s : S)
      → is_from f j packet ≡ false
      → Fades
          (H.lookup_bucket f.rate j (check_packet H packet now s).1)
          (H.lookup_bucket f.rate j s)
  unfolding is_from
  check_packet-Fades f j packet now s other = elim (Option-cases (sender packet)) [
    | inl e ↦ ground (arith, e, check_packet_lem H packet now s)
    | inr (x, e) ↦
        let not_own : same_map f.rate x.family.rate && same j x.src ≡ false =
          ground (arith, e, other) in
        let run : (check_packet H packet now s).1
            ≡ (check_source H x.family x.src x.proto now s).1 =
          ground (arith, e, check_packet_lem H packet now s) in
        Fades-trans _ _ _ (inl (ap (H.lookup_bucket f.rate j) run))
          (check_source-Fades H R x.family x.src x.proto now f.rate j s not_own)
  ]

  -- A packet of another source.
  filter-Fades :
      (f : Family) (j : Text) (packet : List ℕ) (now : ℕ) (s : S)
      → is_from f j packet ≡ false
      → Fades
          (H.lookup_bucket f.rate j (fluxguard_filter H packet now s).1)
          (H.lookup_bucket f.rate j s)
  filter-Fades f j packet now s other =
      let s1 = (shields_up H now (H.count_packet s)).1 in
      let head = shields_up-Fades H R now f.rate j s in
      elim (filter_cases packet now s) [
        | inl e ↦ inl (ap (H.lookup_bucket f.rate j) e)
        | inr (inl e) ↦ Fades-trans _ _ _ (inl (ap (H.lookup_bucket f.rate j) e)) head
        | inr (inr e) ↦
            Fades-trans _ _ _ (inl (ap (H.lookup_bucket f.rate j) e))
              (Fades-trans _ _ _ (check_packet-Fades f j packet now s1 other) head)
      ]

  filter-unblocked :
      (f : Family) (j : Text) (packet : List ℕ) (now : ℕ) (s : S)
      → IsIp f
      → is_from f j packet ≡ false
      → H.lookup_elem f.blacklist j (fluxguard_filter H packet now s).1
        ≡ H.lookup_elem f.blacklist j s
  unfolding is_from
  filter-unblocked f j packet now s ip other =
      elim (fluxguard_filter-Blocks H L packet now f.blacklist j s (ip_blacklist f ip)) [
        | inl kept ↦ kept
        | inr (x, e, b) ↦ absurd (own x e b.own)
      ]
    where
      own :
          (x : Sender)
          → sender packet ≡ some x
          → same_map f.blacklist x.family.blacklist && same j x.src ≡ true
          → ⊥
      own x e h =
          let rates = paired f x.family ip (sender-IsIp packet x e) in
          ground (arith, e, h, other, rates)

-- The packets of a source are a millisecond or more apart, and behind the given time, and come within 213 days of the start of the clock; the others come at any time.
abbrev pub Modest : Family → Text → ℕ → Packets → Type 0
Modest f j last [] = Unit
Modest f j last ((packet, now) ∷ packets) =
    (is_from f j packet ≡ true → (last + 1_000_000 ≤ now) × (now * kern_pps_limit < 2 ^ 64))
    × Modest f j (if is_from f j packet then now else last) packets

module _ {S : Type 0} (H : Helpers S) (R : IsRates H) (L : IsHelpers H) where
  -- What is left for a source: its bucket is calm, and its entry in the blacklist as it was.
  Spared : Family → Text → ℕ → S → S → Type 0
  Spared f j t s s' =
      IsCalm t (H.lookup_bucket f.rate j s')
      × (H.lookup_elem f.blacklist j s' ≡ H.lookup_elem f.blacklist j s)

  sender-Spared :
      (packet : List ℕ) (x : Sender) (now t : ℕ) (s : S)
      → sender packet ≡ some x
      → IsCalm t (H.lookup_bucket x.family.rate x.src s)
      → t + 1_000_000 ≤ now
      → now * kern_pps_limit < 2 ^ 64
      → Spared x.family x.src now s (fluxguard_filter H packet now s).1
  unfolding Spared
  sender-Spared packet x now t s e c gap h =
      let f = x.family in
      let s1 = (shields_up H now (H.count_packet s)).1 in
      let head = lookup-shields_up H L f.blacklist x.src now s in
      let c1 = IsCalm-Fades t _ _ (shields_up-Fades H R now f.rate x.src s) c in
      let run : (check_packet H packet now s1).1 ≡ (check_source H f x.src x.proto now s1).1 =
        ground (arith, e, check_packet_lem H packet now s1) in
      let (c2, kept) =
        check_source-IsCalm H R L f x.src x.proto now t s1 (sender-IsFamily packet x e) c1 gap h in
      elim (filter_cases H R L packet now s) [
        | inl q ↦ (
          IsCalm-Fades now _ _ (inl (ap (H.lookup_bucket f.rate x.src) q))
              (IsCalm-later t now _ (omega (arith, gap)) c),
          ap (H.lookup_elem f.blacklist x.src) q,
        )
        | inr (inl q) ↦ (
          IsCalm-Fades now _ _ (inl (ap (H.lookup_bucket f.rate x.src) q))
              (IsCalm-later t now _ (omega (arith, gap)) c1),
          ap (H.lookup_elem f.blacklist x.src) q ∙ head,
        )
        | inr (inr q) ↦ (
          IsCalm-Fades now _ _ (inl (ap (H.lookup_bucket f.rate x.src) (q ∙ run))) c2,
          ap (H.lookup_elem f.blacklist x.src) (q ∙ run) ∙ kept ∙ head,
        )
      ]

  own-Spared :
      (f : Family) (j : Text) (packet : List ℕ) (now t : ℕ) (s : S)
      → IsIp f
      → is_from f j packet ≡ true
      → IsCalm t (H.lookup_bucket f.rate j s)
      → t + 1_000_000 ≤ now
      → now * kern_pps_limit < 2 ^ 64
      → Spared f j now s (fluxguard_filter H packet now s).1
  unfolding is_from
  own-Spared f j packet now t s ip own c gap h = elim (Option-cases (sender packet)) [
    | inl e ↦ absurd (ground (arith, e, own))
    | inr (x, e) ↦
        let both : same_map f.rate x.family.rate && same j x.src ≡ true = ground (arith, e, own) in
        let q : f ≡ x.family =
          same_family f x.family ip (sender-IsIp packet x e) (ground (arith, both)) in
        let r : j ≡ x.src = ground (arith, both) in
        let c' =
          subst (λ k. IsCalm t (H.lookup_bucket x.family.rate k s)) r
            (subst (λ g. IsCalm t (H.lookup_bucket g.rate j s)) q c) in
        let s' = (fluxguard_filter H packet now s).1 in
        subst (λ g. Spared g j now s s') (sym q)
          (subst (λ k. Spared x.family k now s s') (sym r)
            (sender-Spared packet x now t s e c' gap h))
  ]

  -- No false alarm: for helpers as documented, where the maps of buckets may drop any entry: a
  -- source of IPv4 or IPv6 whose bucket is missing or not in debt, and whose packets come a
  -- millisecond or more apart, and behind the time of the bucket, within 213 days of the start of
  -- the clock, is not blocked by the filter: its entry in the blacklist is after all packets what
  -- it was before, whatever packets of others come between, and when.
  pub filter_all_spares :
      (f : Family) (j : Text) (packets : Packets) (t : ℕ) (s : S)
      → IsIp f
      → IsCalm t (H.lookup_bucket f.rate j s)
      → Modest f j t packets
      → H.lookup_elem f.blacklist j (filter_all H packets s) ≡ H.lookup_elem f.blacklist j s
  unfolding filter_all Spared
  filter_all_spares f j [] t s ip c m = refl
  filter_all_spares f j ((packet, now) ∷ packets) t s ip c (gaps, m) =
      let s' = (fluxguard_filter H packet now s).1 in
      elim (Bool-cases (is_from f j packet)) [
        | inl own ↦
            let (gap, h) = gaps own in
            let (c', kept) = own-Spared f j packet now t s ip own c gap h in
            let m' : Modest f j now packets =
              subst (λ b. Modest f j (if b then now else t) packets) own m in
            filter_all_spares f j packets now s' ip c' m' ∙ kept
        | inr other ↦
            let c' = IsCalm-Fades t _ _ (filter-Fades H R L f j packet now s other) c in
            let m' : Modest f j t packets =
              subst (λ b. Modest f j (if b then now else t) packets) other m in
            filter_all_spares f j packets t s' ip c' m'
            ∙ filter-unblocked H R L f j packet now s ip other
      ]
