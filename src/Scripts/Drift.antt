-- ===== src/Scripts/Drift.antt =====
-- scripts/new-endpoint-check.go: to which resource it puts an operation of api/openapi.yaml, and which method
-- it looks for. It has a copy of its own of what scripts/new-endpoint.go reads from an operation; what is
-- the same there is taken from `Scripts.Endpoint`.
pub mod Mirror
pub mod Longest
use go_skeleton.Base.{
  ℕ, ◌+◌, Bool, true, false, Option, none, some, List, [], ◌∷◌, ◌++◌, length, take, drop,
  if◌then◌else◌, ltb, ◌==◌,
}
use go_skeleton.Base.Text.{Bytes, codes, beq, is_empty, to_lower, trim}
use go_skeleton.Base.Dict.{lookup}
use go_skeleton.Server.Queues.{string_leb}
use go_skeleton.Scripts.Endpoint.{
  Extension, text_value, other_value, ApiOperation, is_camel_case, capitalize, index, x_resource,
  contains, without,
}

-- The only entry of builtinOpToResource.
unfoldable pub is_livez : Bytes → Bool
is_livez id = beq id (codes "getLivez")

abbrev pub matches : Bytes → Bytes → Bool
matches id name = contains (to_lower id) (to_lower name)

-- The first of the known names that the id has.
unfoldable pub find_known : Bytes → List Bytes → Option Bytes
find_known id [] = none
find_known id (name ∷ names) =
    let rest = find_known id names in if matches id name then some name else rest

abbrev pub or_unknown : Bytes → Option Bytes → Bytes
or_unknown id none = codes "Unknown_" ++ id
or_unknown id (some name) = name

abbrev pub by_id : Bytes → List Bytes → Bytes
by_id id known = if is_livez id then codes "Health" else or_unknown id (find_known id known)

unfoldable pub resolve_resource_name : ApiOperation → Bytes → List Bytes → Bytes
resolve_resource_name op path_resource known =
    if is_empty (x_resource op.extensions)
    then if is_empty path_resource then by_id op.operation_id known else path_resource
    else x_resource op.extensions

-- Longer names first, names of one length in their order.
unfoldable pub name_before : Bytes → Bytes → Bool
name_before a b = if length a == length b then string_leb a b else ltb (length b) (length a)

unfoldable pub insert_known : Bytes → List Bytes → List Bytes
insert_known a [] = a ∷ []
insert_known a (b ∷ names) =
    let rest = insert_known a names in if name_before a b then a ∷ b ∷ names else b ∷ rest

-- scanKnownResources, of the names that the code has.
unfoldable pub scan_known_resources : List Bytes → List Bytes
unfolding insert_known
scan_known_resources [] = []
scan_known_resources (a ∷ names) = insert_known a (scan_known_resources names)

-- One name, and the result of the names after it.
abbrev pub attempt_safe : Option Bytes → Bytes → Bytes
attempt_safe none rest = rest
attempt_safe (some remaining) rest =
    if is_empty remaining
    then rest
    else if is_camel_case (capitalize remaining)
    then capitalize remaining
    else rest

unfoldable pub derive_from_safe : Bytes → List Bytes → Bytes
derive_from_safe id [] = []
derive_from_safe id (try_name ∷ names) =
    attempt_safe (without id try_name (index (to_lower id) (to_lower try_name)))
      (derive_from_safe id names)

abbrev pub derive_with_safe : Bytes → Bytes → Option Extension → Bytes
derive_with_safe id resource (some (text_value s)) = trim s
derive_with_safe id resource (some other_value) =
    derive_from_safe id ((resource ++ b's' ∷ []) ∷ resource ∷ [])
derive_with_safe id resource none = derive_from_safe id ((resource ++ b's' ∷ []) ∷ resource ∷ [])

-- deriveHandlerMethodSafe; the empty text where no method is found.
unfoldable pub derive_handler_method_safe : ApiOperation → Bytes → Bytes
unfolding derive_from_safe
derive_handler_method_safe op resource =
    derive_with_safe op.operation_id resource (lookup (codes "x-handler-method") op.extensions)
