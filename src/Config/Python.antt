-- ===== src/Config/Python.antt =====
-- The values of JSON as Python objects.
use flux_guard.Base.{Bool, true, false, not, [], ◌∷◌, Text, ◌==◌}
use flux_guard.Base.Int.{pos, negsuc}
use flux_guard.Config.{
  Value, null, flag, int, float, str, array, object, no_more, item, no_members, member,
}

-- Python's `str` on the values that are no text, the truth of a number that is no integer, and
-- `str(ipaddress.IPv6Address(t))` for a text `t` that is an IPv6 address: parameters.
pub record Python : Type 0 where
  pub show : Value → Text
  pub is_zero : Text → Bool
  pub canonical_v6 : Text → Text

-- `not v`
unfoldable pub is_falsy : Python → Value → Bool
is_falsy Y null = true
is_falsy Y (flag b) = not b
is_falsy Y (int n) = elim n [ pos n ↦ n == 0 | negsuc n ↦ false ]
is_falsy Y (float t) = Y.is_zero t
is_falsy Y (str []) = true
is_falsy Y (str (c ∷ t)) = false
is_falsy Y (array no_more) = true
is_falsy Y (array (item v vs)) = false
is_falsy Y (object no_members) = true
is_falsy Y (object (member k v ms)) = false

-- `f"{v}"`
unfoldable pub show_value : Python → Value → Text
show_value Y (str t) = t
show_value Y other = Y.show other
