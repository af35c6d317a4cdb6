-- ===== src/Dashboard/Ring/Events.antt =====
-- The addresses in the events. The kernel stores an IPv4 address byte by byte in network order.
use flux_guard.Base.{ℕ, suc, ◌+◌, ◌*◌, ◌<◌, ◌≡◌, ◌↔◌, sym, ap, ◌∙◌, [], ◌∷◌, arith}
use flux_guard.Address.{Codec, IsCodec, IsPacked}
use flux_guard.Dashboard.Ring.{Buffer, little_endian, pack_be, read_event}

-- The four bytes of an address in an event at an offset.
pub record HasSource (b : Buffer) (p w x y z : ℕ) : Type 0 where
  pub family : b.at p ≡ 4
  pub first : b.at (p + 4) ≡ w
  pub second : b.at (p + 5) ≡ x
  pub third : b.at (p + 6) ≡ y
  pub fourth : b.at (p + 7) ≡ z
  pub bytes : (w < 256) × (x < 256) × (y < 256) × (z < 256)

pack_be-little_endian :
    (w x y z : ℕ)
    → w < 256
    → x < 256
    → y < 256
    → z < 256
    → pack_be (w + 256 * (x + 256 * (y + 256 * (z + 256 * 0)))) ≡ z ∷ y ∷ x ∷ w ∷ []
unfolding pack_be
pack_be-little_endian w x y z hw hx hy hz = ground arith

family : (b : Buffer) (p w x y z : ℕ) → HasSource b p w x y z → little_endian 1 b.at p ≡ 4
unfolding little_endian
family b p w x y z h = omega (arith, h.family)

module _ (v4 v6 : Codec) (L : IsCodec v4) where
  source_number :
      (b : Buffer) (p w x y z : ℕ)
      → HasSource b p w x y z
      → little_endian 4 b.at (p + 4) ≡ w + 256 * (x + 256 * (y + 256 * (z + 256 * 0)))
  unfolding little_endian
  source_number b p w x y z h =
      let second : b.at (suc (p + 4)) ≡ x = ap b.at (omega arith) ∙ h.second in
      let third : b.at (suc (suc (p + 4))) ≡ y = ap b.at (omega arith) ∙ h.third in
      let fourth : b.at (suc (suc (suc (p + 4)))) ≡ z = ap b.at (omega arith) ∙ h.fourth in
      omega (arith, h.first, second, third, fourth)

  read_event-reversed :
      (b : Buffer) (p w x y z : ℕ)
      → HasSource b p w x y z
      → (read_event v4 v6 b p).ip ≡ v4.format (z ∷ y ∷ x ∷ w ∷ [])
  unfolding read_event
  read_event-reversed b p w x y z h =
      let number = source_number b p w x y z h in
      let reversed =
        ap pack_be number ∙ pack_be-little_endian w x y z h.bytes.0 h.bytes.1 h.bytes.2 h.bytes.3 in
      ground (arith, family b p w x y z h, ap v4.format reversed)

  packed : (w x y z : ℕ) → w < 256 → x < 256 → y < 256 → z < 256 → IsPacked 4 (w ∷ x ∷ y ∷ z ∷ [])
  packed w x y z hw hx hy hz = ground arith

  -- For a lawful IPv4 codec with keys of four bytes: the text reported for an IPv4 event is that of
  -- the bytes in reverse order, and so it is the address of the event exactly if the address reads
  -- the same both ways.
  pub read_event-ip :
      (b : Buffer) (p w x y z : ℕ)
      → v4.width ≡ 4
      → HasSource b p w x y z
      → ((read_event v4 v6 b p).ip ≡ v4.format (z ∷ y ∷ x ∷ w ∷ []))
        × (((read_event v4 v6 b p).ip ≡ v4.format (w ∷ x ∷ y ∷ z ∷ [])) ↔ ((w ≡ z) × (x ≡ y)))
  read_event-ip b p w x y z four h =
      let r = read_event-reversed b p w x y z h in
      (r, (λ e. same (sym r ∙ e), λ q. r ∙ ground (arith, q)))
    where
      same : v4.format (z ∷ y ∷ x ∷ w ∷ []) ≡ v4.format (w ∷ x ∷ y ∷ z ∷ []) → (w ≡ z) × (x ≡ y)
      same e = ground (
        arith,
        ap v4.parse e,
        L.parse-format (w ∷ x ∷ y ∷ z ∷ [])
            (rw four (packed w x y z h.bytes.0 h.bytes.1 h.bytes.2 h.bytes.3)),
        L.parse-format (z ∷ y ∷ x ∷ w ∷ [])
            (rw four (packed z y x w h.bytes.3 h.bytes.2 h.bytes.1 h.bytes.0)),
      )
