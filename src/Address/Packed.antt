-- ===== src/Address/Packed.antt =====
-- Addresses in packed form.
use flux_guard.Base.{ℕ, ◌<◌, ◌≡◌, Text, length, All}

-- A packed address of `width` bytes.
abbrev pub IsPacked : ℕ → Text → Type 0
IsPacked width k = (length k ≡ width) × All (λ b. b < 256) k
