-- ===== src/Dashboard/Words.antt =====
-- The methods of `str` that `parse_metrics` calls, on code points.
pub mod Laws
use flux_guard.Base.{
  ℕ, ◌+◌, ◌-◌, ◌*◌, Bool, true, false, ◌&&◌, ◌||◌, Option, none, some, List, [], ◌∷◌, ◌++◌, leb,
  ◌==◌, if◌then◌else◌, Text,
}
use flux_guard.Base.Int.{ℤ, pos, negsuc}

-- The characters that end a line for `str.splitlines`.
unfoldable pub is_break : ℕ → Bool
is_break c =
    (leb 10 c && leb c 13)
    || ((leb 28 c && leb c 30) || (c == 0x85 || (c == 0x2028 || c == 0x2029)))

-- Puts a character before the first line.
unfoldable pub extend_line : ℕ → List Text → List Text
extend_line c [] = (c ∷ []) ∷ []
extend_line c (l ∷ ls) = (c ∷ l) ∷ ls

-- `s.splitlines()`. The flag tells that a carriage return was just read: a newline belongs to it.
unfoldable pub split_lines : Bool → Text → List Text
unfolding is_break extend_line
split_lines after_cr [] = []
split_lines after_cr (c ∷ s) =
    let skipped = split_lines false s in
    let ended = [] ∷ split_lines (c == 13) s in
    let more = extend_line c (split_lines false s) in
    if after_cr && c == 10 then skipped else if is_break c then ended else more

-- White space for `str.split()`.
unfoldable pub is_space : ℕ → Bool
is_space c =
    (leb 9 c && leb c 13)
    || ((leb 28 c && leb c 32)
        || (c == 0x85
            || (c == 0xa0
                || (c == 0x1680
                    || ((leb 0x2000 c && leb c 0x200a)
                        || (c == 0x2028
                            || (c == 0x2029 || (c == 0x202f || (c == 0x205f || c == 0x3000)))))))))

-- The word that ends a text, after the last word before it.
abbrev pub end_word : Option Text → Text → Option Text
end_word last [] = last
end_word last (c ∷ word) = some (c ∷ word)

unfoldable pub scan_words : Option Text → Text → Text → Option Text
unfolding is_space
scan_words last word [] = end_word last word
scan_words last word (c ∷ s) =
    let at_space = scan_words (end_word last word) [] s in
    let in_word = scan_words last (word ++ c ∷ []) s in if is_space c then at_space else in_word

-- `s.split()[-1]`; `none` is an `IndexError`.
unfoldable pub last_word : Text → Option Text
unfolding scan_words
last_word s = scan_words none [] s

-- The text up to the next quotation mark.
unfoldable pub until_quote : Text → Text
until_quote [] = []
until_quote (c ∷ s) = if c == b'"' then [] else c ∷ until_quote s

-- `s.split('"')[1]`; `none` is an `IndexError`.
unfoldable pub quoted : Text → Option Text
unfolding until_quote
quoted [] = none
quoted (c ∷ s) = let rest = quoted s in if c == b'"' then some (until_quote s) else rest

-- The digits of an `int` literal: single underscores may stand between two of them. The flag tells
-- that the character before was a digit.
unfoldable pub scan_digits : Bool → ℕ → Text → Option ℕ
scan_digits after_digit n [] = if after_digit then some n else none
scan_digits after_digit n (c ∷ s) =
    let digit = scan_digits true (n * 10 + (c - b'0')) s in
    let underscore = scan_digits false n s in
    if leb b'0' c && leb c b'9'
    then digit
    else if c == b'_' && after_digit
    then underscore
    else none

negate : Option ℕ → Option ℤ
negate none = none
negate (some n) = if n == 0 then some (pos 0) else some (negsuc (n - 1))

positive : Option ℕ → Option ℤ
positive none = none
positive (some n) = some (pos n)

-- `int(word)` for a word without white space; `none` is a `ValueError`.
unfoldable pub to_int : Text → Option ℤ
unfolding scan_digits negate positive
to_int [] = none
to_int (c ∷ s) =
    if c == b'-'
    then negate (scan_digits false 0 s)
    else if c == b'+'
    then positive (scan_digits false 0 s)
    else positive (scan_digits false 0 (c ∷ s))
