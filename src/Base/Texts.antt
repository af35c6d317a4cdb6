-- ===== src/Base/Texts.antt =====
-- Texts as lists of code points, with the tests of Python's `str` that the program uses. A packed
-- address, a list of bytes, goes by the same equality.
use Prim.Native.Nat.{ℕ}
use Prim.Native.Char.{code}
use Prim.Native.String.{String}
use mathlib.Core.Logic.{ite}
use mathlib.Core.Bool.{Bool, true, false, ◌||◌}
use mathlib.Core.List.{List, [], ◌∷◌}
use mathlib.Core.Path.{◌≡◌, refl, ap₂}
use native.Mathlib.Decide.{ℕ_discrete}
use flux_guard.Base.Tests.{◌==◌, if◌then◌else◌}

abbrev pub Text : Type 0
Text = List ℕ

-- The code points of a literal.
abbrev pub codes : String → Text
codes String.[] = []
codes (String.◌∷◌ c s) = code c ∷ codes s

pub cons_head : {x y : ℕ} {s t : Text} → x ∷ s ≡ y ∷ t → x ≡ y
cons_head e = cc

pub cons_tail : {x y : ℕ} {s t : Text} → x ∷ s ≡ y ∷ t → s ≡ t
cons_tail e = cc

-- Shut in proofs, where a split on `same s t` yields the equation or its negation.
unfoldable pub text_dec : Discrete Text
unfolding ℕ_discrete
text_dec [] [] = yes refl
text_dec [] (y ∷ t) = no (λ e. cc)
text_dec (x ∷ s) [] = no (λ e. cc)
text_dec (x ∷ s) (y ∷ t) =
    let rest : Dec (s ≡ t) = text_dec s t in
    elim (ℕ_discrete x y) [
      | yes p ↦ elim rest [ yes q ↦ yes (ap₂ ◌∷◌ p q) | no n ↦ no (λ e. n (cons_tail e)) ]
      | no n ↦ no (λ e. n (cons_head e))
    ]

-- `s == t`
abbrev pub same : Text → Text → Bool
same s t = ite (text_dec s t) true false

-- `c in s`, for a text of one character.
unfoldable pub has_char : ℕ → Text → Bool
has_char c [] = false
has_char c (x ∷ s) = x == c || has_char c s

-- `s.rstrip(c)`, for a text of one character.
unfoldable pub rstrip : ℕ → Text → Text
rstrip c [] = []
rstrip c (x ∷ s) = elim (rstrip c s) [ [] ↦ if x == c then [] else x ∷ [] | y ∷ t ↦ x ∷ y ∷ t ]

-- `s.startswith(prefix)`
unfoldable pub starts_with : Text → Text → Bool
starts_with s [] = true
starts_with [] (p ∷ prefix) = false
starts_with (c ∷ s) (p ∷ prefix) = elim (c == p) [ true ↦ starts_with s prefix | false ↦ false ]
