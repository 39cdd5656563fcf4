-- ===== src/Base/Text.antt =====
-- Go strings as lists of bytes, with the functions of Go's package `strings` that the code calls.
-- `trim` is TrimSpace over UTF-8, all white space of Unicode included. `to_lower` is ToLower as far
-- as the code can tell: a letter outside ASCII is kept unless its lower case is an ASCII letter,
-- because every caller compares the result with ASCII text.
pub mod Trim
pub mod Number
use Prim.Native.Char.{code}
use Prim.Native.Nat.{ℕ, zero, suc, ◌+◌}
use Prim.Native.String.{String}
use mathlib.Core.Path.{◌≡◌, refl, ap, ap₂}
use mathlib.Core.Logic.{◌↔◌}
use mathlib.Core.Bool.{Bool, true, false, ◌&&◌, ◌||◌}
use mathlib.Core.Option.{Option, none, some}
use mathlib.Core.List.{List, [], ◌∷◌, ◌++◌, reverse}
use native.Mathlib.Omega.{arith}
use go_skeleton.Base.Tests.{leb, ◌==◌, ==_iff, if◌then◌else◌}
use go_skeleton.Base.Lists.{length, drop}

abbrev pub Bytes : Type 0
Bytes = List ℕ

-- The bytes of an ASCII literal.
abbrev pub codes : String → Bytes
codes String.[] = []
codes (String.◌∷◌ c s) = code c ∷ codes s

unfoldable pub beq : Bytes → Bytes → Bool
beq [] [] = true
beq [] (y ∷ ys) = false
beq (x ∷ xs) [] = false
beq (x ∷ xs) (y ∷ ys) = (x == y) && beq xs ys

pub beq_iff : (xs ys : Bytes) → (beq xs ys ≡ true) ↔ (xs ≡ ys)
unfolding beq
beq_iff [] [] = ground arith
beq_iff [] (y ∷ ys) = ground arith
beq_iff (x ∷ xs) [] = ground arith
beq_iff (x ∷ xs) (y ∷ ys) = ground (arith, beq_iff xs ys)

pub beq_self : (xs : Bytes) → beq xs xs ≡ true
beq_self xs = (beq_iff xs xs).1 refl

-- `s == ""`
abbrev pub is_empty : Bytes → Bool
is_empty [] = true
is_empty (_ ∷ _) = false

abbrev pub between : ℕ → ℕ → ℕ → Bool
between lo c hi = leb lo c && leb c hi

-- White space of one, two and three bytes.
abbrev space_1 : ℕ → Bool
space_1 a = between 9 a 13 || a == 32

abbrev space_2 : ℕ → ℕ → Bool
space_2 a b = a == 0xc2 && (b == 0x85 || b == 0xa0)

abbrev space_3 : ℕ → ℕ → ℕ → Bool
space_3 a b c =
    a == 0xe1 && b == 0x9a && c == 0x80
    || a == 0xe2 && b == 0x80 && (between 0x80 c 0x8a || c == 0xa8 || c == 0xa9 || c == 0xaf)
    || a == 0xe2 && b == 0x81 && c == 0x9f
    || a == 0xe3 && b == 0x80 && c == 0x80

abbrev space_width_3 : ℕ → ℕ → Bytes → ℕ
space_width_3 a b [] = 0
space_width_3 a b (c ∷ _) = if space_3 a b c then 3 else 0

abbrev space_width_2 : ℕ → Bytes → ℕ
space_width_2 a [] = 0
space_width_2 a (b ∷ s) = if space_2 a b then 2 else space_width_3 a b s

-- The width of the white space that a text begins with, 0 if there is none.
pub space_width : Bytes → ℕ
space_width [] = 0
space_width (a ∷ s) = if space_1 a then 1 else space_width_2 a s

abbrev last_width_3 : ℕ → ℕ → Bytes → ℕ
last_width_3 b c [] = 0
last_width_3 b c (a ∷ _) = if space_3 a b c then 3 else 0

abbrev last_width_2 : ℕ → Bytes → ℕ
last_width_2 c [] = 0
last_width_2 c (b ∷ s) = if space_2 b c then 2 else last_width_3 b c s

-- The same at the end, of the reversed text.
pub last_width : Bytes → ℕ
last_width [] = 0
last_width (c ∷ s) = if space_1 c then 1 else last_width_2 c s

-- Drops what `width` measures until it measures nothing. Fuel: the length.
strip : (Bytes → ℕ) → ℕ → Bytes → Bytes
strip width zero s = s
strip width (suc fuel) s =
    let rest = strip width fuel (drop (width s) s) in if width s == 0 then s else rest

trim_left : Bytes → Bytes
trim_left s = strip space_width (length s) s

trim_right : Bytes → Bytes
trim_right s = reverse (strip last_width (length s) (reverse s))

-- strings.TrimSpace
unfoldable pub trim : Bytes → Bytes
unfolding trim_left trim_right strip space_width last_width
trim s = trim_right (trim_left s)

abbrev head_is : ℕ → Bytes → Bool
head_is c [] = false
head_is c (d ∷ _) = c == d

-- U+0130 and U+212A have the lower cases "i" and "k".
abbrev is_dotted_i : ℕ → Bytes → Bool
is_dotted_i a s = a == 0xc4 && head_is 0xb0 s

abbrev is_kelvin : ℕ → Bytes → Bool
is_kelvin a s = a == 0xe2 && head_is 0x84 s && head_is 0xaa (drop 1 s)

unfoldable pub lower : ℕ → ℕ
lower c = if between b'A' c b'Z' then c + 32 else c

unfoldable pub lower_from : ℕ → Bytes → Bytes
lower_from skip [] = []
lower_from (suc skip) (a ∷ s) = lower_from skip s
lower_from zero (a ∷ s) =
    (if is_dotted_i a s then b'i' else if is_kelvin a s then b'k' else lower a)
    ∷ lower_from (if is_dotted_i a s then 1 else if is_kelvin a s then 2 else 0) s

-- strings.ToLower
unfoldable pub to_lower : Bytes → Bytes
unfolding lower_from lower
to_lower s = lower_from 0 s

-- strings.HasPrefix
unfoldable pub has_prefix : Bytes → Bytes → Bool
has_prefix s [] = true
has_prefix [] (p ∷ ps) = false
has_prefix (c ∷ s) (p ∷ ps) = c == p && has_prefix s ps

abbrev pub prepend : ℕ → List Bytes → List Bytes
prepend c [] = (c ∷ []) ∷ []
prepend c (part ∷ parts) = (c ∷ part) ∷ parts

-- strings.Split at a separator of one byte.
unfoldable pub split : ℕ → Bytes → List Bytes
split sep [] = [] ∷ []
split sep (c ∷ s) = let parts = split sep s in if c == sep then [] ∷ parts else prepend c parts

abbrev pub cut_cons : ℕ → Option (Bytes × Bytes) → Option (Bytes × Bytes)
cut_cons c none = none
cut_cons c (some (a, b)) = some (c ∷ a, b)

-- strings.Cut at a separator of one byte; `none` where the separator is not found.
unfoldable pub cut : ℕ → Bytes → Option (Bytes × Bytes)
cut sep [] = none
cut sep (c ∷ s) = if c == sep then some ([], s) else cut_cons c (cut sep s)

-- strings.Join
unfoldable pub join : Bytes → List Bytes → Bytes
join sep [] = []
join sep (part ∷ []) = part
join sep (part ∷ more ∷ parts) = part ++ (sep ++ join sep (more ∷ parts))

trims : trim (0xe3 ∷ 0x80 ∷ 0x80 ∷ codes " a b\t" ++ 0xc2 ∷ 0xa0 ∷ []) ≡ codes "a b"
unfolding trim
trims = refl

lowers : to_lower (codes "BEARER " ++ 0xe2 ∷ 0x84 ∷ 0xaa ∷ []) ≡ codes "bearer k"
unfolding to_lower
lowers = refl

splits : (split b',' (codes "a,,b") ≡ codes "a" ∷ [] ∷ codes "b" ∷ [])
unfolding split
splits = refl
