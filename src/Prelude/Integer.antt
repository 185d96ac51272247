-- ===== src/Prelude/Integer.antt =====
-- Python's `int`, and `int(text)` for ASCII text: spaces around it, a sign, and digits that single
-- underscores may part.
use Prim.Native.Nat.{ℕ, zero, suc, ◌+◌, ◌-◌, ◌*◌}
use mathlib.Core.Bool.{Bool, true, false, ◌&&◌, ◌||◌}
use mathlib.Core.Option.{Option, none, some}
use mathlib.Core.List.{[], ◌∷◌, reverse}
use rabbitkit.Prelude.Tests.{◌==◌, leb, if◌then◌else◌}
use rabbitkit.Prelude.Codes.{Text, is_digit}

pub data ℤ : Type 0 where
  pos : ℕ → ℤ
  negsuc : ℕ → ℤ

unfoldable pub negated : ℕ → ℤ
negated zero = pos 0
negated (suc n) = negsuc n

-- Space, tab, line feed, vertical tab, form feed, carriage return, and the separators 28 to 31.
unfoldable pub is_space : ℕ → Bool
is_space c = (c == 32) || (leb 9 c && leb c 13) || (leb 28 c && leb c 31)

unfoldable pub strip_left : Text → Text
unfolding is_space
strip_left [] = []
strip_left (c ∷ s) = if is_space c then strip_left s else c ∷ s

unfoldable pub strip : Text → Text
unfolding strip_left
strip s = reverse (strip_left (reverse (strip_left s)))

-- The digits after a number `n`; an underscore may follow a digit, and a digit must end.
unfoldable pub parse_digits : ℕ → Bool → Text → Option ℕ
unfolding is_digit
parse_digits n after_digit [] = if after_digit then some n else none
parse_digits n after_digit (c ∷ s) =
    let longer = parse_digits (n * 10 + (c - b'0')) true s in
    let parted = parse_digits n false s in
    if is_digit c then longer else if (c == b'_') && after_digit then parted else none

unfoldable pub signed : (ℕ → ℤ) → Option ℕ → Option ℤ
signed sign none = none
signed sign (some n) = some (sign n)

unfoldable pub parse_signed : Text → Option ℤ
unfolding parse_digits signed negated
parse_signed [] = none
parse_signed (c ∷ s) =
    if c == b'-'
    then signed negated (parse_digits 0 false s)
    else if c == b'+'
    then signed pos (parse_digits 0 false s)
    else signed pos (parse_digits 0 false (c ∷ s))

-- int(text), with `none` for ValueError
unfoldable pub parse_int : Text → Option ℤ
unfolding strip parse_signed
parse_int s = parse_signed (strip s)
