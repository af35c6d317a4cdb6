-- ===== src/Filter/Calm.antt =====
-- A source that keeps to the limit, among packets of others.
pub mod Spares
use flux_guard.Base.{
  ℕ, ◌+◌, ◌*◌, ◌^◌, ◌<◌, ◌≤◌, ◌≡◌, ◌⊎◌, refl, sym, ap, ◌∙◌, subst, true, false, ◌&&◌, Option, none,
  some, if◌then◌else◌, arith, Text, same, Bool-cases, Option-cases, inl, inr,
}
use flux_guard.Base.Int.{neg_part}
use flux_guard.Bpf.{TokenBucket}
use flux_guard.Filter.Bucket.{kern_pps_limit, global_check, token_bucket_check}
use flux_guard.Filter.Bucket.Refill.{token_bucket_check-spaced}
use flux_guard.Filter.{
  xdp_pass, MapId, AttackEvent, Helpers, Family, fresh_bucket, block_event, shields_up, meter,
  auto_block, check_rate, check_blacklist, check_source,
}
use flux_guard.Filter.Verdicts.{same_map, IsHelpers, IsFamily}
use flux_guard.Filter.Leaves.{check_rate-blocks, lookup-meter}

-- A bucket that is as it was, or that its map has dropped.
abbrev pub Fades : Option TokenBucket → Option TokenBucket → Type 0
Fades new old = (new ≡ old) ⊎ (new ≡ none)

-- What is documented of the maps of buckets: an entry changes by its own updates only, but that an
-- LRU map may drop it at any time.
pub record IsRates {S : Type 0} (H : Helpers S) : Type 0 where
  pub count_lem :
      (m : MapId) (j : Text) (s : S)
      → Fades (H.lookup_bucket m j (H.count_packet s)) (H.lookup_bucket m j s)
  pub global_lem :
      (m : MapId) (j : Text) (tb : TokenBucket) (s : S)
      → Fades (H.lookup_bucket m j (H.set_global_rate tb s)) (H.lookup_bucket m j s)
  pub update_lem :
      (m n : MapId) (j k : Text) (v : ℕ) (s : S)
      → Fades (H.lookup_bucket m j (H.update_elem n k v s)) (H.lookup_bucket m j s)
  pub add_lem :
      (m n : MapId) (j k : Text) (s : S)
      → Fades (H.lookup_bucket m j (H.add_one n k s)) (H.lookup_bucket m j s)
  pub emit_lem :
      (m : MapId) (j : Text) (e : AttackEvent) (s : S)
      → Fades (H.lookup_bucket m j (H.emit e s)) (H.lookup_bucket m j s)
  pub set_lem :
      (m n : MapId) (j k : Text) (tb : TokenBucket) (s : S)
      → Fades
          (H.lookup_bucket m j (H.set_bucket n k tb s))
          (if same_map m n && same j k then some tb else H.lookup_bucket m j s)
  pub bucket_lem :
      (m n : MapId) (j k : Text) (tb : TokenBucket) (s : S)
      → Fades
          (H.lookup_bucket m j (H.update_bucket n k tb s))
          (if same_map m n && same j k then some tb else H.lookup_bucket m j s)

-- A bucket, if there is one, that is not in debt, and not newer than a time.
abbrev pub IsCalm : ℕ → Option TokenBucket → Type 0
IsCalm t none = Unit
IsCalm t (some tb) = (tb.last_time ≤ t) × (neg_part tb.tokens ≡ 0)

pub IsCalm-Fades :
    (t : ℕ) (new old : Option TokenBucket) → Fades new old → IsCalm t old → IsCalm t new
IsCalm-Fades t new old (inl e) c = subst (IsCalm t) (sym e) c
IsCalm-Fades t new old (inr e) c = subst (IsCalm t) (sym e) tt

pub IsCalm-later : (t now : ℕ) (o : Option TokenBucket) → t ≤ now → IsCalm t o → IsCalm now o
IsCalm-later t now none l c = tt
IsCalm-later t now (some tb) l (a, b) = (omega (arith, l, a), b)

pub Fades-trans : (a b c : Option TokenBucket) → Fades a b → Fades b c → Fades a c
Fades-trans a b c (inl e) q = subst (λ z. Fades z c) (sym e) q
Fades-trans a b c (inr e) q = inr e

own_map : (m : MapId) → same_map m m ≡ true
own_map m = ground arith

own_text : (j : Text) → same j j ≡ true
own_text j = ground arith

module _ {S : Type 0} (H : Helpers S) (R : IsRates H) where
  meter-Fades :
      (f : Family) (src : Text) (m : MapId) (j : Text) (s : S)
      → Fades (H.lookup_bucket m j (meter H f src s)) (H.lookup_bucket m j s)
  unfolding meter
  meter-Fades f src m j s = elim (Option-cases (H.lookup_elem f.meter src s)) [
    | inl e ↦ ground (arith, e, R.update_lem m f.meter j src 1 s)
    | inr (v, e) ↦ ground (arith, e, R.add_lem m f.meter j src s)
  ]

  auto_block-Fades :
      (f : Family) (src : Text) (now : ℕ) (m : MapId) (j : Text) (s : S)
      → Fades (H.lookup_bucket m j (auto_block H f src now s)) (H.lookup_bucket m j s)
  unfolding auto_block
  auto_block-Fades f src now m j s =
      Fades-trans _ _ _ (R.emit_lem m j (block_event f src now) (H.update_elem f.blacklist src 1 s))
        (R.update_lem m f.blacklist j src 1 s)

  pub shields_up-Fades :
      (now : ℕ) (m : MapId) (j : Text) (s : S)
      → Fades (H.lookup_bucket m j (shields_up H now (H.count_packet s)).1) (H.lookup_bucket m j s)
  unfolding shields_up
  shields_up-Fades now m j s = elim (Option-cases (H.global_rate (H.count_packet s))) [
    | inl e ↦ ground (arith, e, R.count_lem m j s)
    | inr (gtb, e) ↦
        let run : (shields_up H now (H.count_packet s)).1
            ≡ H.set_global_rate (global_check gtb now).0 (H.count_packet s) =
          ground (arith, e) in
        Fades-trans _ _ _ (inl (ap (H.lookup_bucket m j) run)) (
          Fades-trans _ _ _ (R.global_lem m j (global_check gtb now).0 (H.count_packet s))
            (R.count_lem m j s))
  ]

  check_rate-Fades :
      (f : Family) (src : Text) (now : ℕ) (m : MapId) (j : Text) (s : S)
      → same_map m f.rate && same j src ≡ false
      → Fades (H.lookup_bucket m j (check_rate H f src now s).1) (H.lookup_bucket m j s)
  unfolding check_rate
  check_rate-Fades f src now m j s other = elim (Option-cases (H.lookup_bucket f.rate src s)) [
    | inl e ↦ ground (arith, e, other, R.bucket_lem m f.rate j src (fresh_bucket now) s)
    | inr (tb, e) ↦
        let (tb', dropped) = token_bucket_check tb now in
        let s1 = H.set_bucket f.rate src tb' s in
        let set : Fades (H.lookup_bucket m j s1) (H.lookup_bucket m j s) =
          ground (arith, other, R.set_lem m f.rate j src tb' s) in
        elim (Bool-cases dropped) [
          | inr on ↦ ground (arith, e, on, set)
          | inl hit ↦
              let run : (check_rate H f src now s).1 ≡ auto_block H f src now s1 =
                ground (arith, e, hit) in
              Fades-trans _ _ _ (inl (ap (H.lookup_bucket m j) run))
                (Fades-trans _ _ _ (auto_block-Fades f src now m j s1) set)
        ]
  ]

  -- A packet of the source itself, a millisecond after the time of its bucket at least.
  check_rate-IsCalm :
      (f : Family) (src : Text) (now t : ℕ) (s : S)
      → IsCalm t (H.lookup_bucket f.rate src s)
      → t + 1_000_000 ≤ now
      → now * kern_pps_limit < 2 ^ 64
      → ((check_rate H f src now s).0 ≡ xdp_pass)
        × IsCalm now (H.lookup_bucket f.rate src (check_rate H f src now s).1)
  unfolding check_rate
  check_rate-IsCalm f src now t s c gap h = elim (Option-cases (H.lookup_bucket f.rate src s)) [
    | inl e ↦
        let tb = fresh_bucket now in
        let set : Fades (H.lookup_bucket f.rate src (check_rate H f src now s).1) (some tb) =
          ground
            (arith, e, own_map f.rate, own_text src, R.bucket_lem f.rate f.rate src src tb s) in
        (ground (arith, e), IsCalm-Fades now _ _ set (omega arith, refl))
    | inr (tb, e) ↦
        let (l, credit) = subst (IsCalm t) e c in
        let (tb', dropped) = token_bucket_check tb now in
        let (on, last, left) =
          token_bucket_check-spaced tb now (omega (arith, l, gap), omega (arith, h))
            (omega (arith, l, gap, h)) (omega (arith, l, gap)) credit in
        let set : Fades (H.lookup_bucket f.rate src (check_rate H f src now s).1) (some tb') =
          ground
            (arith, e, on, own_map f.rate, own_text src, R.set_lem f.rate f.rate src src tb' s) in
        (ground (arith, e, on), IsCalm-Fades now _ _ set (omega (arith, last), left))
  ]

  -- The state behind a source's checks is one of these.
  check_source_cases :
      (f : Family) (src : Text) (proto now : ℕ) (s : S)
      → (let s' = (check_source H f src proto now s).1 in
          (s' ≡ s) ⊎ ((s' ≡ meter H f src s) ⊎ (s' ≡ (check_rate H f src now (meter H f src s)).1)))
  unfolding check_source check_blacklist
  check_source_cases f src proto now s = ground arith

  pub check_source-Fades :
      (f : Family) (src : Text) (proto now : ℕ) (m : MapId) (j : Text) (s : S)
      → same_map m f.rate && same j src ≡ false
      → Fades (H.lookup_bucket m j (check_source H f src proto now s).1) (H.lookup_bucket m j s)
  check_source-Fades f src proto now m j s other =
      let s1 = meter H f src s in
      let metered = meter-Fades f src m j s in
      elim (check_source_cases f src proto now s) [
        | inl e ↦ inl (ap (H.lookup_bucket m j) e)
        | inr (inl e) ↦ Fades-trans _ _ _ (inl (ap (H.lookup_bucket m j) e)) metered
        | inr (inr e) ↦
            Fades-trans _ _ _ (inl (ap (H.lookup_bucket m j) e))
              (Fades-trans _ _ _ (check_rate-Fades f src now m j s1 other) metered)
      ]

  module _ (L : IsHelpers H) where
    pub check_source-IsCalm :
        (f : Family) (src : Text) (proto now t : ℕ) (s : S)
        → IsFamily f
        → IsCalm t (H.lookup_bucket f.rate src s)
        → t + 1_000_000 ≤ now
        → now * kern_pps_limit < 2 ^ 64
        → IsCalm now (H.lookup_bucket f.rate src (check_source H f src proto now s).1)
          × (H.lookup_elem f.blacklist src (check_source H f src proto now s).1
              ≡ H.lookup_elem f.blacklist src s)
    check_source-IsCalm f src proto now t s F c gap h =
        let s1 = meter H f src s in
        let c1 = IsCalm-Fades t _ _ (meter-Fades f src f.rate src s) c in
        let metered = lookup-meter H L f src f.blacklist src s F F.blacklist in
        let (passes, c2) = check_rate-IsCalm f src now t s1 c1 gap h in
        elim (check_source_cases f src proto now s) [
          | inl e ↦ (
            IsCalm-Fades now _ _ (inl (ap (H.lookup_bucket f.rate src) e))
                (IsCalm-later t now _ (omega (arith, gap)) c),
            ap (H.lookup_elem f.blacklist src) e,
          )
          | inr (inl e) ↦ (
            IsCalm-Fades now _ _ (inl (ap (H.lookup_bucket f.rate src) e))
                (IsCalm-later t now _ (omega (arith, gap)) c1),
            ap (H.lookup_elem f.blacklist src) e ∙ metered,
          )
          | inr (inr e) ↦ (
            IsCalm-Fades now _ _ (inl (ap (H.lookup_bucket f.rate src) e)) c2,
            ap (H.lookup_elem f.blacklist src) e ∙ kept passes ∙ metered,
          )
        ]
      where
        kept :
            (check_rate H f src now (meter H f src s)).0 ≡ xdp_pass
            → H.lookup_elem f.blacklist src (check_rate H f src now (meter H f src s)).1
              ≡ H.lookup_elem f.blacklist src (meter H f src s)
        kept p =
            elim (check_rate-blocks H L f src now f.blacklist src (meter H f src s) F F.blacklist) [
              | inl same ↦ same
              | inr (_, _, dropped) ↦ absurd (ground (arith, p, dropped))
            ]
