-- ===== src/Address/Ipv4.antt =====
-- `ipaddress.IPv4Address` of Python 3.9.5 or later: dotted decimal, four octets, no leading zeros.
pub mod RoundTrip
pub mod Plain
use flux_guard.Base.{
  ℕ, ◌+◌, ◌-◌, ◌*◌, ◌/◌, ◌%◌, Bool, ◌&&◌, Option, none, some, List, [], ◌∷◌, ◌++◌, leb, ltb, ◌==◌,
  if◌then◌else◌, Text,
}

abbrev pub dot : ℕ
dot = b'.'

-- Puts a character before a split text: a dot opens a new part.
extend : ℕ → List Text → List Text
extend c [] = []
extend c (w ∷ ws) = if c == dot then [] ∷ w ∷ ws else (c ∷ w) ∷ ws

-- `s.split('.')`
split : Text → List Text
split [] = [] ∷ []
split (c ∷ s) = extend c (split s)

-- `'.'.join(parts)`
join : List Text → Text
join [] = []
join (w ∷ []) = w
join (w ∷ v ∷ ws) = w ++ dot ∷ join (v ∷ ws)

is_digit : ℕ → Bool
is_digit c = leb b'0' c && leb c b'9'

abbrev value : ℕ → ℕ
value c = c - b'0'

abbrev up_to_255 : ℕ → Option ℕ
up_to_255 n = if leb n 255 then some n else none

-- `_parse_octet`: one to three digits, the first of several not 0, and at most 255.
octet : Text → Option ℕ
unfolding is_digit
octet (a ∷ []) = if is_digit a then some (value a) else none
octet (a ∷ b ∷ []) =
    if is_digit a && is_digit b
    then (if a == b'0' then none else some (value a * 10 + value b))
    else none
octet (a ∷ b ∷ c ∷ []) =
    if is_digit a && (is_digit b && is_digit c)
    then (if a == b'0' then none else up_to_255 (value a * 100 + value b * 10 + value c))
    else none
octet s = none

-- Decimal digits of a byte.
show_octet : ℕ → Text
show_octet n =
    if ltb n 10
    then (b'0' + n) ∷ []
    else if ltb n 100
    then (b'0' + n / 10) ∷ (b'0' + n % 10) ∷ []
    else (b'0' + n / 100) ∷ (b'0' + n / 10 % 10) ∷ (b'0' + n % 10) ∷ []

pack : Option ℕ → Option ℕ → Option ℕ → Option ℕ → Option Text
pack (some a) (some b) (some c) (some d) = some (a ∷ b ∷ c ∷ d ∷ [])
pack a b c d = none

from_parts : List Text → Option Text
from_parts (a ∷ b ∷ c ∷ d ∷ []) = pack (octet a) (octet b) (octet c) (octet d)
from_parts parts = none

-- `ipaddress.IPv4Address(s).packed`
unfoldable pub parse : Text → Option Text
unfolding split extend octet pack from_parts
parse s = from_parts (split s)

show_parts : Text → List Text
show_parts [] = []
show_parts (b ∷ k) = show_octet b ∷ show_parts k

-- `str(ipaddress.IPv4Address(k))`
unfoldable pub format : Text → Text
unfolding join show_octet show_parts
format k = join (show_parts k)
