-- ===== src/Scripts/Endpoint/Names.antt =====
-- The names that scripts/new-endpoint.go makes: pascalize, goIdentifier, and deriveHandlerMethod.
use go_skeleton.Base.{
  ℕ, ◌-◌, ◌≡◌, refl, subst, Bool, true, false, not, ◌||◌, inl, inr, Option, none, some, List, [],
  ◌∷◌, ◌++◌, Result, ok, err, all, All, if◌then◌else◌, ◌==◌, arith, Bool-cases,
}
use go_skeleton.Base.Text.{Bytes, prepend, codes, is_empty, between, trim, to_lower}
use go_skeleton.Base.Dict.{lookup}
use go_skeleton.Scripts.Endpoint.{
  Extension, text_value, other_value, ApiOperation, is_lower, is_digit, is_alnum, is_camel_case,
  upper_byte, capitalize, DeriveError, derive_handler_method, derive_from, attempt, index,
  derive_with, without,
}

-- What stands between the bytes of a class. The code splits at runs of them and skips the empty parts.
parts_at : (ℕ → Bool) → Bytes → List Bytes
parts_at sep [] = [] ∷ []
parts_at sep (c ∷ s) = let parts = parts_at sep s in if sep c then [] ∷ parts else prepend c parts

capitalized : List Bytes → Bytes
capitalized [] = []
capitalized (part ∷ parts) = capitalize part ++ capitalized parts

abbrev is_separator : ℕ → Bool
is_separator c = c == b'_' || (c == b'-' || (c == 32 || (between 9 c 10 || between 12 c 13)))

unfoldable pub pascalize : Bytes → Bytes
unfolding parts_at capitalized upper_byte
pascalize s = capitalized (parts_at is_separator s)

abbrev as_field : Bytes → Bytes
as_field [] = codes "Field"
as_field (c ∷ s) = if is_digit c then codes "Field" ++ c ∷ s else c ∷ s

unfoldable pub go_identifier : Bytes → Bytes
unfolding parts_at capitalized upper_byte
go_identifier s = as_field (capitalized (parts_at (λ c. not (is_alnum c)) s))

abbrev AllAlnum : List Bytes → Type 0
AllAlnum = All (λ part. all is_alnum part ≡ true)

prepend-AllAlnum :
    (c : ℕ) (parts : List Bytes) → is_alnum c ≡ true → AllAlnum parts → AllAlnum (prepend c parts)
prepend-AllAlnum c [] e h = (rw e refl, tt)
prepend-AllAlnum c (part ∷ parts) e (p, h) = (rw (e, p) refl, h)

parts_at-AllAlnum : (s : Bytes) → AllAlnum (parts_at (λ c. not (is_alnum c)) s)
unfolding parts_at
parts_at-AllAlnum [] = (refl, tt)
parts_at-AllAlnum (c ∷ s) = elim (Bool-cases (is_alnum c)) [
  | inl e ↦ rw e (prepend-AllAlnum c (parts_at (λ d. not (is_alnum d)) s) e (parts_at-AllAlnum s))
  | inr e ↦ rw e (refl, parts_at-AllAlnum s)
]

-- Empty, or letters and digits that do not begin with a small letter.
abbrev Begun : Bytes → Type 0
Begun [] = Unit
Begun (c ∷ s) = (is_lower c ≡ false) × (all is_alnum (c ∷ s) ≡ true)

all_append :
    (s t : Bytes) → all is_alnum s ≡ true → all is_alnum t ≡ true → all is_alnum (s ++ t) ≡ true
all_append [] t h k = k
all_append (c ∷ s) t h k = ground (arith, all_append s t)

Begun-alnum : (s : Bytes) → Begun s → all is_alnum s ≡ true
Begun-alnum [] h = refl
Begun-alnum (c ∷ s) h = h.1

Begun-append : (s t : Bytes) → Begun s → Begun t → Begun (s ++ t)
Begun-append [] t h k = k
Begun-append (c ∷ s) t (e, h) k = (e, all_append (c ∷ s) t h (Begun-alnum t k))

upper_byte_lem :
    (c : ℕ)
    → is_alnum c ≡ true
    → (d : ℕ) × (upper_byte c ≡ d ∷ []) × (is_lower d ≡ false) × (is_alnum d ≡ true)
unfolding upper_byte
upper_byte_lem c h = elim (Bool-cases (is_lower c)) [
  | inl e ↦ (c - 32, rw e refl, ground arith, ground arith)
  | inr e ↦ (c, ground arith, e, h)
]

capitalize-Begun : (part : Bytes) → all is_alnum part ≡ true → Begun (capitalize part)
capitalize-Begun [] h = tt
capitalize-Begun (c ∷ s) h =
    let (d, e, low, alnum) = upper_byte_lem c (ground (arith, h)) in
    let tail : all is_alnum s ≡ true = ground (arith, h) in rw e (low, rw (alnum, tail) refl)

capitalized-Begun : (parts : List Bytes) → AllAlnum parts → Begun (capitalized parts)
unfolding capitalized
capitalized-Begun [] h = tt
capitalized-Begun (part ∷ parts) (p, h) =
    Begun-append (capitalize part) (capitalized parts) (capitalize-Begun part p)
      (capitalized-Begun parts h)

as_field-camel : (s : Bytes) → Begun s → is_camel_case (as_field s) ≡ true
unfolding is_camel_case
as_field-camel [] h = refl
as_field-camel (c ∷ s) (e, h) = ground (arith, e, h)

-- For every name of a field, goIdentifier gives an exported identifier of Go: a capital letter, then
-- letters and digits.
pub go_identifier_lem : (s : Bytes) → is_camel_case (go_identifier s) ≡ true
unfolding go_identifier
go_identifier_lem s =
    let parts = parts_at (λ c. not (is_alnum c)) s in
    as_field-camel (capitalized parts) (capitalized-Begun parts (parts_at-AllAlnum s))

Camel : Result DeriveError Bytes → Type 0
Camel (ok s) = is_camel_case s ≡ true
Camel (err e) = Unit

attempt-Camel : (o : Option Bytes) (r : Result DeriveError Bytes) → Camel r → Camel (attempt o r)
unfolding Camel
attempt-Camel none r h = h
attempt-Camel (some remaining) r h = elim (Bool-cases (is_empty remaining)) [
  | inl e ↦ rw e tt
  | inr e ↦ elim (Bool-cases (is_camel_case (capitalize remaining))) [
    | inl camel ↦ rw (e, camel) camel
    | inr other ↦ rw (e, other) h
  ]
]

derive_from-Camel : (id : Bytes) (names : List Bytes) → Camel (derive_from id names)
unfolding derive_from Camel
derive_from-Camel id [] = tt
derive_from-Camel id (name ∷ names) =
    attempt-Camel (without id name (index (to_lower id) (to_lower name))) (derive_from id names)
      (derive_from-Camel id names)

derive_with-Camel : (id name : Bytes) (o : Option Extension) → Camel (derive_with id name o)
unfolding Camel
derive_with-Camel id name none = derive_from-Camel id ((name ++ b's' ∷ []) ∷ name ∷ [])
derive_with-Camel id name (some other_value) = tt
derive_with-Camel id name (some (text_value s)) = elim (Bool-cases (is_camel_case (trim s))) [
  | inl e ↦ rw e e
  | inr e ↦ rw e tt
]

-- The method that deriveHandlerMethod gives for an operation, by its extension or by its id, is an exported
-- identifier of Go.
pub derive_handler_method_camel :
    (op : ApiOperation) (name s : Bytes)
    → derive_handler_method op name ≡ ok s
    → is_camel_case s ≡ true
unfolding derive_handler_method Camel
derive_handler_method_camel op name s h =
    let camel =
      derive_with-Camel op.operation_id name (lookup (codes "x-handler-method") op.extensions) in
    subst Camel h camel
