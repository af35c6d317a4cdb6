-- ===== src/Address.antt =====
-- Text form and packed form of an address, the part of `ipaddress` that fluxguard_bpf.py calls:
-- `ipaddress.IPv4Address(s).packed`, `str(ipaddress.IPv4Address(b))` and the same for IPv6.
pub mod Packed
pub mod Ipv4
pub use Packed.{IsPacked}
use flux_guard.Base.{ℕ, ◌≡◌, Option, some, Text}

-- One address family. `parse` is `none` where the constructor raises `AddressValueError`.
pub record Codec : Type 0 where
  pub width : ℕ
  pub parse : Text → Option Text
  pub format : Text → Text

-- What is documented of a family: an accepted text packs to bytes of the family's width, and the
-- text of a packed address is accepted and packs to it again.
pub record IsCodec (c : Codec) : Type 0 where
  pub parse-IsPacked : (s k : Text) → c.parse s ≡ some k → IsPacked c.width k
  pub parse-format : (k : Text) → IsPacked c.width k → c.parse (c.format k) ≡ some k
