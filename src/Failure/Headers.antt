-- ===== src/Failure/Headers.antt =====
-- core/failure_copy.py: header values and what is read from them. A message's headers are a `dict`
-- from names to values, in insertion order.
use Prim.Native.String.{String}
use text.Mathlib.Text.{◌==◌}
use text.Mathlib.TextEquality.{eq_iff}
use rabbitkit.Prelude.{
  ℕ, min, ◌≡◌, refl, Bool, Option, none, some, List, [], ◌∷◌, arith, if◌then◌else◌, ℤ, pos, negsuc,
  Text, parse_int, is_empty,
}

-- An entry of a list; of a `dict`, the text under "queue" (`str` or `bytes`) if there is one.
pub data Death : Type 0 where
  table : Option Text → Death
  no_table : Death

-- `str`, `bytes` (as they decode), `int` (or a `float`, truncated), `bool`, `datetime` (a tick in
-- UTC), `list`, `None`, and whatever else AMQP allows.
pub data Value : Type 0 where
  str : Text → Value
  bytes : Text → Value
  int : ℤ → Value
  bool : Bool → Value
  datetime : ℕ → Value
  list : List Death → Value
  null : Value
  other : Value

abbrev pub Headers : Type 0
Headers = List (String × Value)

-- headers.get(name)
unfoldable pub get : Headers → String → Option Value
get [] k = none
get ((j, v) ∷ h) k = let rest = get h k in if j == k then some v else rest

-- headers[name] = value
unfoldable pub put : String → Value → Headers → Headers
put k v [] = (k, v) ∷ []
put k v ((j, w) ∷ h) = let rest = put k v h in if j == k then (k, v) ∷ h else (j, w) ∷ rest

-- headers.pop(name, None)
unfoldable pub pop : String → Headers → Headers
pop k [] = []
pop k ((j, v) ∷ h) = let rest = pop k h in if j == k then rest else (j, v) ∷ rest

-- headers.update(other)
unfoldable pub update : Headers → Headers → Headers
unfolding put
update h [] = h
update h ((k, v) ∷ more) = update (put k v h) more

unfoldable pub header_text : Option Value → Text
header_text (some (str t)) = t
header_text (some (bytes t)) = t
header_text _ = []

unfoldable pub non_negative : Option ℤ → ℕ
non_negative (some (pos n)) = n
non_negative (some (negsuc n)) = 0
non_negative none = 0

unfoldable pub header_int : Option Value → ℕ
unfolding non_negative
header_int (some (str t)) = non_negative (parse_int t)
header_int (some (bytes t)) = non_negative (parse_int t)
header_int (some (int z)) = non_negative (some z)
header_int _ = 0

-- `datetime.fromisoformat` is a parameter: a time without a zone reads as UTC.
module _ (fromisoformat : Text → Option ℕ) where
  unfoldable pub iso_value : Option Value → Option ℕ
  unfolding header_text
  iso_value (some (datetime t)) = some t
  iso_value v = if is_empty (header_text v) then none else fromisoformat (header_text v)

  unfoldable pub clamped : ℕ → Option ℕ → Option ℕ
  clamped now none = none
  clamped now (some t) = some (min t now)

  -- The time now is an argument.
  unfoldable pub parse_iso : ℕ → Option Value → Option ℕ
  unfolding iso_value clamped
  parse_iso now v = clamped now (iso_value v)

pub get-put :
    (k j : String) (v : Value) (h : Headers)
    → get (put k v h) j ≡ (if k == j then some v else get h j)
unfolding get put
get-put k j v [] = refl
get-put k j v ((i, w) ∷ h) = ground (arith, eq_iff k j, eq_iff i k, eq_iff i j, get-put k j v h)

pub get-pop : (k j : String) (h : Headers) → get (pop k h) j ≡ (if k == j then none else get h j)
unfolding get pop
get-pop k j [] = ground arith
get-pop k j ((i, w) ∷ h) = ground (arith, eq_iff k j, eq_iff i k, eq_iff i j, get-pop k j h)
