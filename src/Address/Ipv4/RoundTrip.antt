-- ===== src/Address/Ipv4/RoundTrip.antt =====
-- Dotted decimal against four bytes, both ways.
use flux_guard.Base.{
  ℕ, ◌<◌, ◌≡◌, refl, sym, ap, ◌∙◌, ◌≢◌, Option, some, List, [], ◌∷◌, ◌++◌, arith, ==_iff, Text, All,
}
use flux_guard.Address.Packed.{IsPacked}
use flux_guard.Address.Ipv4.{
  dot, extend, split, join, octet, show_octet, pack, from_parts, parse, show_parts, format,
}

octet-lt-256 : (s : Text) {b : ℕ} → octet s ≡ some b → b < 256
unfolding octet
octet-lt-256 [] h = cc
octet-lt-256 (a ∷ []) h = ground arith
octet-lt-256 (a ∷ b ∷ []) h = ground arith
octet-lt-256 (a ∷ b ∷ c ∷ []) h = ground arith
octet-lt-256 (a ∷ b ∷ c ∷ d ∷ s) h = cc

octet-show_octet : (b : ℕ) → b < 256 → octet (show_octet b) ≡ some b
unfolding octet show_octet
octet-show_octet b h = ground arith

show_octet-octet : (s : Text) {b : ℕ} → octet s ≡ some b → show_octet b ≡ s
unfolding octet show_octet
show_octet-octet [] h = cc
show_octet-octet (a ∷ []) h = ground arith
show_octet-octet (a ∷ b ∷ []) h = ground arith
show_octet-octet (a ∷ b ∷ c ∷ []) h = ground arith
show_octet-octet (a ∷ b ∷ c ∷ d ∷ s) h = cc

split-ne-nil : (s : Text) → split s ≢ []
unfolding split extend
split-ne-nil [] h = cc
split-ne-nil (c ∷ s) h = ground (arith, split-ne-nil s)

join-extend : (c : ℕ) (ws : List Text) → ws ≢ [] → join (extend c ws) ≡ c ∷ join ws
unfolding extend join
join-extend c [] h = absurd (h refl)
join-extend c (w ∷ []) h = ground (arith, ==_iff c dot)
join-extend c (w ∷ v ∷ ws) h = ground (arith, ==_iff c dot)

join-split : (s : Text) → join (split s) ≡ s
unfolding split
join-split [] = unfold join in refl
join-split (c ∷ s) = join-extend c (split s) (split-ne-nil s) ∙ ap (◌∷◌ c) (join-split s)

abbrev Undotted : Text → Type 0
Undotted = All (λ c. c ≢ dot)

show_octet-Undotted : (b : ℕ) → Undotted (show_octet b)
unfolding show_octet
show_octet-Undotted b = ground arith

split_plain : (w : Text) → Undotted w → split w ≡ w ∷ []
unfolding split extend
split_plain [] h = refl
split_plain (c ∷ w) h = ground (arith, split_plain w h.1, ==_iff c dot)

split-append : (w rest : Text) → Undotted w → split (w ++ dot ∷ rest) ≡ w ∷ split rest
unfolding split extend
split-append [] rest h = ground (arith, split-ne-nil rest)
split-append (c ∷ w) rest h = ground (arith, split-append w rest h.1, ==_iff c dot)

split-format :
    (a b c d : ℕ)
    → split (format (a ∷ b ∷ c ∷ d ∷ []))
      ≡ show_octet a ∷ show_octet b ∷ show_octet c ∷ show_octet d ∷ []
unfolding show_parts join
split-format a b c d =
    unfold format in
    rw (split-append _ _ (show_octet-Undotted a)) (
      rw (split-append _ _ (show_octet-Undotted b)) (
        rw (split-append _ _ (show_octet-Undotted c)) (rw (split_plain _ (show_octet-Undotted d)))))

parse-eq-from_parts : (s : Text) → parse s ≡ from_parts (split s)
unfolding parse
parse-eq-from_parts s = refl

parse-format_four :
    (a b c d : ℕ)
    → a < 256
    → b < 256
    → c < 256
    → d < 256
    → parse (format (a ∷ b ∷ c ∷ d ∷ [])) ≡ some (a ∷ b ∷ c ∷ d ∷ [])
unfolding from_parts pack
parse-format_four a b c d ha hb hc hd =
    rw (parse-eq-from_parts, split-format a b c d)
      (rw (
        octet-show_octet a ha,
        octet-show_octet b hb,
        octet-show_octet c hc,
        octet-show_octet d hd,
      ))

-- Every packed address is read back from its text.
pub parse-format : (k : Text) → IsPacked 4 k → parse (format k) ≡ some k
parse-format (a ∷ b ∷ c ∷ d ∷ []) (n, bytes) =
    parse-format_four a b c d (omega arith) (omega arith) (omega arith) (omega arith)
parse-format k h = absurd (omega arith)

show_parts-pack :
    (a b c d : Text) (p q r s : Option ℕ) (k : Text)
    → octet a ≡ p
    → octet b ≡ q
    → octet c ≡ r
    → octet d ≡ s
    → pack p q r s ≡ some k
    → (show_parts k ≡ a ∷ b ∷ c ∷ d ∷ []) × IsPacked 4 k
unfolding pack show_parts
show_parts-pack a b c d (some w) (some x) (some y) (some z) k ha hb hc hd h =
    let e : k ≡ w ∷ x ∷ y ∷ z ∷ [] = ground arith in
    rw
      (
        e,
        show_octet-octet a ha,
        show_octet-octet b hb,
        show_octet-octet c hc,
        show_octet-octet d hd,
      )
      (
        refl,
        (
          refl,
          omega (arith, octet-lt-256 a ha, octet-lt-256 b hb, octet-lt-256 c hc, octet-lt-256 d hd),
        ),
      )
show_parts-pack a b c d p q r s k ha hb hc hd h = cc

show_parts-from_parts :
    (ws : List Text) (k : Text) → from_parts ws ≡ some k → (show_parts k ≡ ws) × IsPacked 4 k
unfolding from_parts
show_parts-from_parts (a ∷ b ∷ c ∷ d ∷ []) k h =
    show_parts-pack a b c d _ _ _ _ k refl refl refl refl h
show_parts-from_parts ws k h = cc

-- An accepted text is the text of what it packs to.
pub format-parse : (s k : Text) → parse s ≡ some k → format k ≡ s
unfolding format
format-parse s k h =
    let p : from_parts (split s) ≡ some k = sym (parse-eq-from_parts s) ∙ h in
    ap join (show_parts-from_parts (split s) k p).0 ∙ join-split s

pub parse-IsPacked : (s k : Text) → parse s ≡ some k → IsPacked 4 k
parse-IsPacked s k h = (show_parts-from_parts (split s) k (sym (parse-eq-from_parts s) ∙ h)).1
