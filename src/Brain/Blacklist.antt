-- ===== src/Brain/Blacklist.antt =====
-- The kernel's blacklist of IPv4, by the addresses in it.
use flux_guard.Base.{ℕ, ◌==◌, ◌≡◌, false, Option, some, arith, Text, has_char, same}
use flux_guard.Base.Dict.{lookup}
use flux_guard.Address.{IsCodec, IsPacked}
use flux_guard.Bpf.Laws.{HashMaps, IsHashMaps}
use flux_guard.Brain.State.{Platform, Fds, World}

-- Lawful maps; a lawful text form of IPv4, the only one of each address, without a colon; and a
-- blacklist of IPv6 that is another map.
pub record Blacklist (P : Platform) (M : HashMaps P.bpf) (fds : Fds) : Type 0 where
  pub laws : IsHashMaps P.bpf M
  pub codec : IsCodec P.v4
  pub canonical : (ip k : Text) → P.v4.parse ip ≡ some k → P.v4.format k ≡ ip
  pub plain : (k : Text) → IsPacked P.v4.width k → has_char b':' (P.v4.format k) ≡ false
  pub apart :
      (fd : ℕ) → fds.blacklist_v6 ≡ some fd → (M.map_id fds.blacklist == M.map_id fd) ≡ false

-- The entry of a key in the blacklist.
abbrev pub entry : (P : Platform) → HashMaps P.bpf → Fds → Text → World P → Option ℕ
entry P M fds j w = lookup j (M.entries fds.blacklist w.kernel)

-- The text of a key is an address exactly if the key is the one of the address.
pub same-format :
    (P : Platform) (M : HashMaps P.bpf) (fds : Fds) (B : Blacklist P M fds) (j ip k : Text)
    → IsPacked P.v4.width j
    → P.v4.parse ip ≡ some k
    → same (P.v4.format j) ip ≡ same j k
same-format P M fds B j ip k pj p =
    let back = B.codec.parse-format j pj in
    let text = B.canonical ip k p in ground (arith, back, text, p)
