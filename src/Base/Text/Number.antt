-- ===== src/Base/Text/Number.antt =====
-- strconv of Go, as far as the code calls it: ParseInt with base 10 and 64 bits, which Atoi is on
-- the platforms of the service, and ParseBool. Which error they give, for a text that is no number or
-- for one out of range, is left out.
use Prim.Native.Nat.{ℕ, zero, suc, ◌+◌, ◌-◌, ◌*◌, ◌^◌}
use mathlib.Core.Path.{◌≡◌, refl}
use mathlib.Core.Bool.{Bool, true, false, ◌||◌}
use mathlib.Core.Option.{Option, none, some}
use mathlib.Core.List.{List, [], ◌∷◌}
use go_skeleton.Base.Tests.{leb, ltb, ◌==◌, if◌then◌else◌}
use go_skeleton.Base.Int.{ℤ, pos, negsuc}
use go_skeleton.Base.Text.{Bytes, codes, beq, between, is_empty}

-- The number that a text of digits adds to, or none if a byte is no digit.
digits_from : ℕ → Bytes → Option ℕ
digits_from n [] = some n
digits_from n (c ∷ s) =
    let rest = digits_from (n * 10 + (c - b'0')) s in if between b'0' c b'9' then rest else none

-- -n as an integer.
abbrev negative : ℕ → ℤ
negative zero = pos 0
negative (suc n) = negsuc n

abbrev in_range : Bool → Option ℕ → Option ℤ
in_range neg none = none
in_range true (some n) = if leb n (2 ^ 63) then some (negative n) else none
in_range false (some n) = if ltb n (2 ^ 63) then some (pos n) else none

abbrev unsigned : Bool → Bytes → Option ℤ
unsigned neg s = if is_empty s then none else in_range neg (digits_from 0 s)

-- strconv.ParseInt(s, 10, 64)
unfoldable pub parse_int : Bytes → Option ℤ
unfolding digits_from
parse_int [] = none
parse_int (c ∷ s) =
    if c == b'-'
    then unsigned true s
    else if c == b'+'
    then unsigned false s
    else unsigned false (c ∷ s)

abbrev pub one_of : Bytes → List Bytes → Bool
one_of s [] = false
one_of s (t ∷ ts) = beq s t || one_of s ts

-- strconv.ParseBool
unfoldable pub parse_bool : Bytes → Option Bool
parse_bool s =
    if one_of s
      (codes "1" ∷ codes "t" ∷ codes "T" ∷ codes "TRUE" ∷ codes "true" ∷ codes "True" ∷ [])
    then some true
    else if one_of s
        (codes "0" ∷ codes "f" ∷ codes "F" ∷ codes "FALSE" ∷ codes "false" ∷ codes "False" ∷ [])
    then some false
    else none

smallest : parse_int (codes "-9223372036854775808") ≡ some (negsuc (2 ^ 63 - 1))
unfolding parse_int
smallest = refl

too_large : parse_int (codes "+9223372036854775808") ≡ none
unfolding parse_int
too_large = refl

no_digits : parse_int (codes "-") ≡ none
unfolding parse_int
no_digits = refl
