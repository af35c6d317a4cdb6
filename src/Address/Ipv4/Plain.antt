-- ===== src/Address/Ipv4/Plain.antt =====
-- The characters of a dotted decimal.
use flux_guard.Base.{ℕ, ◌<◌, ◌≡◌, refl, false, ◌||◌, [], ◌∷◌, ◌++◌, arith, Text, has_char, All}
use flux_guard.Address.Ipv4.{show_octet, show_parts, join, format, dot}

has_char-append : (c : ℕ) (s t : Text) → has_char c (s ++ t) ≡ has_char c s || has_char c t
unfolding has_char
has_char-append c [] t = refl
has_char-append c (x ∷ s) t = ground (arith, has_char-append c s t)

show_octet-plain : (b : ℕ) → b < 256 → has_char b':' (show_octet b) ≡ false
unfolding show_octet has_char
show_octet-plain b h = ground arith

join-plain : (k : Text) → All (λ b. b < 256) k → has_char b':' (join (show_parts k)) ≡ false
unfolding join show_parts has_char
join-plain [] h = refl
join-plain (b ∷ []) (hb, h) = show_octet-plain b hb
join-plain (b ∷ c ∷ k) (hb, h) = ground (
  arith,
  has_char-append b':' (show_octet b) (dot ∷ join (show_parts (c ∷ k))),
  show_octet-plain b hb,
  join-plain (c ∷ k) h,
)

-- No dotted decimal has a colon.
pub format-plain : (k : Text) → All (λ b. b < 256) k → has_char b':' (format k) ≡ false
unfolding format
format-plain k h = join-plain k h
