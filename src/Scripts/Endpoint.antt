-- ===== src/Scripts/Endpoint.antt =====
-- scripts/new-endpoint.go: what it reads from an operation of api/openapi.yaml. The loader is not part of
-- the repository: a document comes with its operations. Names are taken to be ASCII; in any text,
-- strings.ToUpper of a byte above it is the replacement character, as in Go.
pub mod Names
pub mod Routes
pub mod Collect
pub mod Register
pub mod Markers
mod Tests
use go_skeleton.Base.{
  ℕ, zero, suc, ◌+◌, ◌-◌, Bool, true, false, ◌&&◌, ◌||◌, Option, none, some, List, [], ◌∷◌, ◌++◌,
  Result, ok, err, all, take, drop, length, if◌then◌else◌, ◌==◌, ltb,
}
use go_skeleton.Base.Text.{Bytes, codes, beq, is_empty, between, has_prefix, to_lower, trim}
use go_skeleton.Base.Dict.{Dict, lookup}
use go_skeleton.Scripts.Architecture.{any}

-- The value of an extension.
pub data Extension : Type 0 where
  text_value : Bytes → Extension
  other_value : Extension

-- A security requirement, as the names of its schemes.
abbrev pub Requirement : Type 0
Requirement = List Bytes

-- An operation of the document; `security` is `none` where it is not given.
pub record ApiOperation : Type 0 where
  pub operation_id : Bytes
  pub extensions : Dict Extension
  pub security : Option (List Requirement)

abbrev pub is_upper : ℕ → Bool
is_upper c = between b'A' c b'Z'

abbrev pub is_lower : ℕ → Bool
is_lower c = between b'a' c b'z'

abbrev pub is_digit : ℕ → Bool
is_digit c = between b'0' c b'9'

abbrev pub is_alnum : ℕ → Bool
is_alnum c = is_upper c || (is_lower c || is_digit c)

-- camelCaseRe
unfoldable pub is_camel_case : Bytes → Bool
is_camel_case [] = false
is_camel_case (c ∷ s) = is_upper c && all is_alnum s

-- strings.ToUpper of one byte.
unfoldable pub upper_byte : ℕ → Bytes
upper_byte c =
    if is_lower c then (c - 32) ∷ [] else if ltb c 128 then c ∷ [] else 0xef ∷ 0xbf ∷ 0xbd ∷ []

abbrev pub capitalize : Bytes → Bytes
capitalize [] = []
capitalize (c ∷ s) = upper_byte c ++ s

-- strings.Index
unfoldable pub index : Bytes → Bytes → Option ℕ
index [] p = if is_empty p then some 0 else none
index (c ∷ s) p =
    let rest = index s p in
    if has_prefix (c ∷ s) p then some 0 else elim rest [ none ↦ none | some i ↦ some (suc i) ]

abbrev pub text_of : Option Extension → Bytes
text_of none = []
text_of (some other_value) = []
text_of (some (text_value s)) = trim s

unfoldable pub x_resource : Dict Extension → Bytes
x_resource extensions = text_of (lookup (codes "x-resource") extensions)

-- strings.EqualFold
abbrev pub equal_fold : Bytes → Bytes → Bool
equal_fold s t = beq (to_lower s) (to_lower t)

abbrev pub found : Option ℕ → Bool
found none = false
found (some i) = true

-- strings.Contains
abbrev pub contains : Bytes → Bytes → Bool
contains s p = found (index s p)

unfoldable pub belongs_to_resource : ApiOperation → Bytes → Bytes → Bool
belongs_to_resource op path_resource name =
    let op_resource = x_resource op.extensions in
    if is_empty op_resource
    then if is_empty path_resource
      then contains (to_lower op.operation_id) (to_lower name)
      else equal_fold path_resource name
    else equal_fold op_resource name

pub data DeriveError : Type 0 where
  not_text not_camel_case not_derived : DeriveError

-- What is left of the operation's id without a name, if the name stands in it.
abbrev pub without : Bytes → Bytes → Option ℕ → Option Bytes
without id try_name none = none
without id try_name (some i) = some (take i id ++ drop (i + length try_name) id)

-- One name, and the result of the names after it: `break` where nothing is left, `continue` where the rest
-- is no name.
abbrev pub attempt : Option Bytes → Result DeriveError Bytes → Result DeriveError Bytes
attempt none rest = rest
attempt (some remaining) rest =
    if is_empty remaining
    then err not_derived
    else if is_camel_case (capitalize remaining)
    then ok (capitalize remaining)
    else rest

unfoldable pub derive_from : Bytes → List Bytes → Result DeriveError Bytes
derive_from id [] = err not_derived
derive_from id (try_name ∷ names) =
    attempt (without id try_name (index (to_lower id) (to_lower try_name))) (derive_from id names)

abbrev pub named : Bytes → Result DeriveError Bytes
named s = if is_camel_case s then ok s else err not_camel_case

abbrev pub derive_with : Bytes → Bytes → Option Extension → Result DeriveError Bytes
derive_with id name (some other_value) = err not_text
derive_with id name (some (text_value s)) = named (trim s)
derive_with id name none = derive_from id ((name ++ b's' ∷ []) ∷ name ∷ [])

unfoldable pub derive_handler_method : ApiOperation → Bytes → Result DeriveError Bytes
unfolding derive_from
derive_handler_method op name =
    derive_with op.operation_id name (lookup (codes "x-handler-method") op.extensions)

abbrev pub effective : Option (List Requirement) → List Requirement → List Requirement
effective none all_reqs = all_reqs
effective (some reqs) all_reqs = reqs

unfoldable pub requires_bearer_auth : ApiOperation → List Requirement → Bool
requires_bearer_auth op doc_security =
    any (λ req. any (λ scheme. beq scheme (codes "bearerAuth")) req)
      (effective op.security doc_security)
