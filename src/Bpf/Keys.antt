-- ===== src/Bpf/Keys.antt =====
-- `key_to_ip` and `ip_to_key` over dotted decimal.
use flux_guard.Base.{◌≡◌, ◌↔◌, arith, some, Text}
use flux_guard.Base.Exec.{ok}
use flux_guard.Address.{Codec, IsCodec, IsPacked}
use flux_guard.Address.Ipv4
use flux_guard.Address.Ipv4.RoundTrip
use flux_guard.Bpf.{key_to_ip, ip_to_key}

abbrev pub ipv4 : Codec
ipv4 = record { width = 4; parse = Ipv4.parse; format = Ipv4.format }

pub ipv4-IsCodec : IsCodec ipv4
ipv4-IsCodec = record {
  parse-IsPacked = Ipv4.RoundTrip.parse-IsPacked;
  parse-format = Ipv4.RoundTrip.parse-format;
}

-- Dotted decimal: an IPv4 text is accepted, with a key, exactly if that key has four bytes and the
-- text is the key's own.
pub ip_to_key-key_to_ip :
    {S : Type 0} (ip k : Text) (s : S)
    → (ip_to_key ipv4 ip s ≡ (ok k, s)) ↔ ((key_to_ip ipv4 k ≡ ip) × IsPacked 4 k)
unfolding ip_to_key key_to_ip
ip_to_key-key_to_ip ip k s = (
  λ h.
      let p : Ipv4.parse ip ≡ some k = ground (arith, h) in
      (Ipv4.RoundTrip.format-parse ip k p, Ipv4.RoundTrip.parse-IsPacked ip k p),
  λ h. ground (arith, h.0, Ipv4.RoundTrip.parse-format k h.1),
)
