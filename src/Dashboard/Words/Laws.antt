-- ===== src/Dashboard/Words/Laws.antt =====
-- What the `str` methods return on the lines that the exporter writes.
use flux_guard.Base.{
  ℕ, ◌+◌, ◌-◌, ◌*◌, ◌≡◌, refl, ap, ◌∙◌, ◌≢◌, Bool, true, false, ◌&&◌, not, Option, none, some, List,
  [], ◌∷◌, ◌++◌, append-nil, append_assoc, arith, Text, All,
}
use flux_guard.Base.Int.{pos}
use flux_guard.Base.Decimal.{
  IsDigit, value_from, show_nat, show_nat-IsDigit, show_nat-ne-nil, value_from-show_nat,
}
use flux_guard.Metrics.{join_lines}
use flux_guard.Dashboard.Words.{
  is_break, split_lines, is_space, end_word, scan_words, last_word, until_quote, scan_digits,
  to_int,
}

-- No character ends a line.
unfoldable pub unbroken : Text → Bool
unfolding is_break
unbroken [] = true
unbroken (c ∷ s) = not (is_break c) && unbroken s

abbrev pub Unbroken : Text → Type 0
Unbroken s = unbroken s ≡ true

pub append-Unbroken : (s t : Text) → Unbroken s → Unbroken t → Unbroken (s ++ t)
unfolding unbroken
append-Unbroken [] t hs ht = ht
append-Unbroken (c ∷ s) t hs ht = ground (arith, append-Unbroken s t)

split_lines-append :
    (l s : Text) → Unbroken l → split_lines false (l ++ b'\n' ∷ s) ≡ l ∷ split_lines false s
unfolding split_lines unbroken
split_lines-append [] s h = refl
split_lines-append (c ∷ l) s h = ground (arith, split_lines-append l s)

pub split_lines-join_lines :
    (ls : List Text) → All Unbroken ls → split_lines false (join_lines ls) ≡ ls
unfolding join_lines
split_lines-join_lines [] h = unfold split_lines in refl
split_lines-join_lines (l ∷ ls) (hl, h) =
    split_lines-append l (join_lines ls) hl ∙ ap (◌∷◌ l) (split_lines-join_lines ls h)

abbrev NoSpace : Text → Type 0
NoSpace = All (λ c. is_space c ≡ false)

scan_words_word :
    (last : Option Text) (acc w : Text)
    → NoSpace w
    → scan_words last acc w ≡ end_word last (acc ++ w)
unfolding scan_words
scan_words_word last acc [] h = rw append-nil
scan_words_word last acc (c ∷ w) (hc, h) =
    ground (arith, hc, scan_words_word last (acc ++ c ∷ []) w h, append_assoc acc (c ∷ []) w)

-- What ends a text in a word behind a space ends any longer text in that word.
module _ (w : Text) where
  abbrev EndsIn : Text → Type 0
  EndsIn s = (last : Option Text) (word : Text) → scan_words last word s ≡ some w

  append-EndsIn : (p s : Text) → EndsIn s → EndsIn (p ++ s)
  unfolding scan_words
  append-EndsIn [] s h last word = h last word
  append-EndsIn (c ∷ p) s h last word = ground (
    arith,
    append-EndsIn p s h (end_word last word) [],
    append-EndsIn p s h last (word ++ c ∷ []),
  )

  space-EndsIn : NoSpace w → w ≢ [] → EndsIn (b' ' ∷ w)
  unfolding scan_words
  space-EndsIn h n last word = ground (arith, scan_words_word (end_word last word) [] w h)

digits-NoSpace : (s : Text) → All IsDigit s → NoSpace s
unfolding is_space
digits-NoSpace [] h = tt
digits-NoSpace (c ∷ s) (hc, h) = (ground arith, digits-NoSpace s h)

-- The last word of a text that ends in a space and a shown number is the number.
pub last_word-show_nat :
    (p q : Text) (n : ℕ) → last_word (p ++ (q ++ b' ' ∷ show_nat n)) ≡ some (show_nat n)
unfolding last_word
last_word-show_nat p q n =
    append-EndsIn w p (q ++ b' ' ∷ w)
      (append-EndsIn w q (b' ' ∷ w)
        (space-EndsIn w (digits-NoSpace w (show_nat-IsDigit n)) (show_nat-ne-nil n)))
      none []
  where
    w : Text
    w = show_nat n

scan_digits_lem : (s : Text) (n : ℕ) → All IsDigit s → scan_digits true n s ≡ some (value_from n s)
unfolding scan_digits
scan_digits_lem [] n h = refl
scan_digits_lem (c ∷ s) n (hc, h) = ground (arith, scan_digits_lem s (n * 10 + (c - b'0')) h)

to_int_digits : (s : Text) → All IsDigit s → s ≢ [] → to_int s ≡ some (pos (value_from 0 s))
unfolding to_int
to_int_digits [] h n = absurd (n refl)
to_int_digits (c ∷ s) (hc, h) n = ground (arith, scan_digits_lem s (c - b'0') h)

pub to_int-show_nat : (n : ℕ) → to_int (show_nat n) ≡ some (pos n)
to_int-show_nat n =
    to_int_digits (show_nat n) (show_nat-IsDigit n) (show_nat-ne-nil n)
    ∙ ap (λ (k : ℕ). some (pos k)) (value_from-show_nat n)

pub until_quote-append : (s t : Text) → All (λ c. c ≢ b'"') s → until_quote (s ++ b'"' ∷ t) ≡ s
unfolding until_quote
until_quote-append [] t h = refl
until_quote-append (c ∷ s) t (hc, h) = ground (arith, until_quote-append s t h)
