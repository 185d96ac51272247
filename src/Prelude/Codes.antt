-- ===== src/Prelude/Codes.antt =====
-- Python's `str` as a list of code points, with the ASCII part of its methods: `int(text)`, `str(n)`,
-- `startswith`, `split`, `isdigit`. A literal is a native string under `codes`.
use Prim.Native.Nat.{ℕ, zero, suc, ◌+◌, ◌-◌, ◌*◌, ◌/◌, ◌%◌, ◌<◌}
use Prim.Native.Char.{code}
use Prim.Native.String.{String}
use mathlib.Core.Path.{◌≡◌, refl, ◌∙◌}
use mathlib.Core.Bool.{Bool, true, false, ◌&&◌}
use mathlib.Core.Option.{Option, none, some}
use mathlib.Core.List.{List, [], ◌∷◌, ◌++◌, append-nil}
use native.Mathlib.Omega.{arith}
use rabbitkit.Prelude.Tests.{◌==◌, leb, ltb, if◌then◌else◌}

abbrev pub Text : Type 0
Text = List ℕ

-- The code points of a literal.
abbrev pub codes : String → Text
codes String.[] = []
codes (String.◌∷◌ c s) = code c ∷ codes s

abbrev pub is_empty : Text → Bool
is_empty [] = true
is_empty (c ∷ s) = false

unfoldable pub same_text : Text → Text → Bool
same_text [] [] = true
same_text [] (d ∷ t) = false
same_text (c ∷ s) [] = false
same_text (c ∷ s) (d ∷ t) = let rest = same_text s t in (c == d) && rest

-- `text[len(prefix):]` where `text.startswith(prefix)`
unfoldable pub strip_prefix : Text → Text → Option Text
strip_prefix [] text = some text
strip_prefix (c ∷ prefix) [] = none
strip_prefix (c ∷ prefix) (d ∷ text) =
    let rest = strip_prefix prefix text in if c == d then rest else none

-- `text.split(chr(c), 1)[0]`
unfoldable pub before : ℕ → Text → Text
before c [] = []
before c (d ∷ text) = let rest = before c text in if d == c then [] else d ∷ rest

unfoldable pub is_digit : ℕ → Bool
is_digit c = leb b'0' c && leb c b'9'

abbrev pub all_chars : (ℕ → Bool) → Text → Bool
all_chars test [] = true
all_chars test (c ∷ s) = test c && all_chars test s

-- `text.isdigit()`
unfoldable pub is_decimal : Text → Bool
unfolding is_digit
is_decimal [] = false
is_decimal (c ∷ s) = all_chars is_digit (c ∷ s)

-- The value of digits that follow a number `n`.
abbrev pub digits_value : ℕ → Text → ℕ
digits_value n [] = n
digits_value n (c ∷ s) = digits_value (n * 10 + (c - b'0')) s

digits : ℕ → ℕ → Text → Text
digits zero n rest = rest
digits (suc fuel) n rest =
    let more = digits fuel (n / 10) ((b'0' + n % 10) ∷ rest) in
    if ltb n 10 then (b'0' + n) ∷ rest else more

-- `str(n)`: a number has at most as many digits as one more than itself.
unfoldable pub decimal : ℕ → Text
unfolding digits
decimal n = digits (suc n) n []

digits_value-digits :
    (fuel n : ℕ) (rest : Text)
    → n < fuel
    → digits_value 0 (digits fuel n rest) ≡ digits_value n rest
unfolding digits
digits_value-digits zero n rest h = absurd (omega arith)
digits_value-digits (suc fuel) n rest h =
    ground (arith, digits_value-digits fuel (n / 10) ((b'0' + n % 10) ∷ rest))

pub digits_value-decimal : (n : ℕ) → digits_value 0 (decimal n) ≡ n
unfolding decimal
digits_value-decimal n = digits_value-digits (suc n) n [] (omega arith)

all_chars-digits :
    (fuel n : ℕ) (rest : Text)
    → all_chars is_digit rest ≡ true
    → all_chars is_digit (digits fuel n rest) ≡ true
unfolding digits is_digit
all_chars-digits zero n rest h = h
all_chars-digits (suc fuel) n rest h =
    ground (arith, all_chars-digits fuel (n / 10) ((b'0' + n % 10) ∷ rest) (ground (arith, h)))

digits_nonempty : (fuel n c : ℕ) (rest : Text) → is_empty (digits fuel n (c ∷ rest)) ≡ false
unfolding digits
digits_nonempty zero n c rest = refl
digits_nonempty (suc fuel) n c rest =
    ground (arith, digits_nonempty fuel (n / 10) (b'0' + n % 10) (c ∷ rest))

is_decimal_of_nonempty : (s : Text) → is_empty s ≡ false → is_decimal s ≡ all_chars is_digit s
unfolding is_decimal
is_decimal_of_nonempty [] h = ground arith
is_decimal_of_nonempty (c ∷ s) h = refl

decimal_nonempty : (n : ℕ) → is_empty (decimal n) ≡ false
unfolding decimal digits
decimal_nonempty n = ground (arith, digits_nonempty n (n / 10) (b'0' + n % 10) [])

all_chars-decimal : (n : ℕ) → all_chars is_digit (decimal n) ≡ true
unfolding decimal
all_chars-decimal n = all_chars-digits (suc n) n [] refl

pub is_decimal-decimal : (n : ℕ) → is_decimal (decimal n) ≡ true
is_decimal-decimal n = is_decimal_of_nonempty (decimal n) (decimal_nonempty n) ∙ all_chars-decimal n

pub strip_prefix-append : (prefix text : Text) → strip_prefix prefix (prefix ++ text) ≡ some text
unfolding strip_prefix
strip_prefix-append [] text = refl
strip_prefix-append (c ∷ prefix) text = ground (arith, strip_prefix-append prefix text)

-- Where a text of digits ends.
before-append :
    (c : ℕ) (s rest : Text)
    → is_digit c ≡ false
    → all_chars is_digit s ≡ true
    → before c (s ++ rest) ≡ s ++ before c rest
unfolding before is_digit
before-append c [] rest other h = refl
before-append c (d ∷ s) rest other h = ground (arith, before-append c s rest other)

pub before-decimal_end : (n : ℕ) → before b'.' (decimal n) ≡ decimal n
unfolding before is_digit
before-decimal_end n =
    let whole = before-append b'.' (decimal n) [] refl (all_chars-decimal n) in
    rw (append-nil) at whole

pub before-decimal_dot : (n : ℕ) (rest : Text) → before b'.' (decimal n ++ b'.' ∷ rest) ≡ decimal n
unfolding before is_digit
before-decimal_dot n rest =
    before-append b'.' (decimal n) (b'.' ∷ rest) refl (all_chars-decimal n) ∙ append-nil (decimal n)

pub same_text_refl : (s : Text) → same_text s s ≡ true
unfolding same_text
same_text_refl [] = refl
same_text_refl (c ∷ s) = ground (arith, same_text_refl s)
