-- ===== src/Scripts/Drift/Mirror.antt =====
-- scripts/new-endpoint-check.go agrees with scripts/new-endpoint.go about an operation.
use go_skeleton.Base.{
  ◌≡◌, subst, true, false, ◌⊎◌, inl, inr, Option, none, some, List, [], ◌∷◌, ◌++◌, Result, ok, err,
  All, Bool-cases, Option-cases,
}
use go_skeleton.Base.Text.{Bytes, codes, beq_iff, beq_self, is_empty, to_lower, trim}
use go_skeleton.Base.Dict.{lookup}
use go_skeleton.Scripts.Endpoint.{
  Extension, text_value, other_value, ApiOperation, is_camel_case, capitalize, index, x_resource,
  without, attempt, derive_from, derive_with, DeriveError, not_derived, not_camel_case,
  derive_handler_method, belongs_to_resource,
}
use go_skeleton.Scripts.Drift.{
  is_livez, matches, find_known, resolve_resource_name, attempt_safe, derive_from_safe,
  derive_with_safe, derive_handler_method_safe,
}

attempt_agrees :
    (o : Option Bytes) (r : Result DeriveError Bytes) (t m : Bytes)
    → ((r ≡ ok m) → t ≡ m)
    → attempt o r ≡ ok m
    → attempt_safe o t ≡ m
attempt_agrees none r t m h e = h e
attempt_agrees (some remaining) r t m h e = elim (Bool-cases (is_empty remaining)) [
  | inl p ↦ let e' : ◌≡◌ {A = Result DeriveError Bytes} (err not_derived) (ok m) = rw p at e in cc
  | inr p ↦ elim (Bool-cases (is_camel_case (capitalize remaining))) [
    | inl q ↦
        let e' : ◌≡◌ {A = Result DeriveError Bytes} (ok (capitalize remaining)) (ok m) =
          rw (p, q) at e in
        rw (p, q) cc
    | inr q ↦ rw (p, q) (h (rw (p, q) at e))
  ]
]

derive_from_agrees :
    (id : Bytes) (names : List Bytes) (m : Bytes)
    → derive_from id names ≡ ok m
    → derive_from_safe id names ≡ m
unfolding derive_from derive_from_safe
derive_from_agrees id [] m e = cc
derive_from_agrees id (name ∷ names) m e =
    attempt_agrees (without id name (index (to_lower id) (to_lower name))) (derive_from id names)
      (derive_from_safe id names) m (derive_from_agrees id names m) e

derive_with_agrees :
    (id name : Bytes) (o : Option Extension) (m : Bytes)
    → derive_with id name o ≡ ok m
    → derive_with_safe id name o ≡ m
derive_with_agrees id name none m e = derive_from_agrees id ((name ++ b's' ∷ []) ∷ name ∷ []) m e
derive_with_agrees id name (some other_value) m e = cc
derive_with_agrees id name (some (text_value s)) m e = elim (Bool-cases (is_camel_case (trim s))) [
  | inl p ↦ let e' : ◌≡◌ {A = Result DeriveError Bytes} (ok (trim s)) (ok m) = rw p at e in cc
  | inr p ↦
      let e' : ◌≡◌ {A = Result DeriveError Bytes} (err not_camel_case) (ok m) = rw p at e in cc
]

find_known-some :
    (id n : Bytes) (known : List Bytes) → find_known id known ≡ some n → matches id n ≡ true
unfolding find_known
find_known-some id n [] e = cc
find_known-some id n (name ∷ names) e = elim (Bool-cases (matches id name)) [
  | inl p ↦
      let e' : some name ≡ some n = rw p at e in
      let same : name ≡ n = cc in subst (λ x. matches id x ≡ true) same p
  | inr p ↦ find_known-some id n names (rw p at e)
]

find_known-none :
    (id : Bytes) (known : List Bytes)
    → find_known id known ≡ none
    → All (λ n. matches id n ≡ false) known
unfolding find_known
find_known-none id [] e = tt
find_known-none id (name ∷ names) e = elim (Bool-cases (matches id name)) [
  | inl p ↦ let e' : some name ≡ none = rw p at e in cc
  | inr p ↦ (p, find_known-none id names (rw p at e))
]

-- The operation belongs to the resource for new-endpoint, or its id is getLivez, or has no known name.
abbrev pub Agrees : ApiOperation → Bytes → List Bytes → Bytes → Type 0
Agrees op path_resource known r =
    (belongs_to_resource op path_resource r ≡ true)
    ⊎ ((op.operation_id ≡ codes "getLivez") ⊎ All (λ n. matches op.operation_id n ≡ false) known)

-- Every operation belongs to the resource that new-endpoint-check puts it under, by the rule of
-- new-endpoint, unless its id is getLivez or has no known name; and where new-endpoint derives a method for
-- it there, new-endpoint-check looks for that method.
pub resolve_resource_name-Agrees :
    (op : ApiOperation) (path_resource : Bytes) (known : List Bytes)
    → Agrees op path_resource known (resolve_resource_name op path_resource known)
      × ((m : Bytes)
          → derive_handler_method op (resolve_resource_name op path_resource known) ≡ ok m
          → derive_handler_method_safe op (resolve_resource_name op path_resource known) ≡ m)
unfolding resolve_resource_name derive_handler_method derive_handler_method_safe belongs_to_resource
    is_livez
resolve_resource_name-Agrees op path_resource known = (
  elim (Bool-cases (is_empty (x_resource op.extensions))) [
    | inr x ↦ rw x (inl (beq_self (to_lower (x_resource op.extensions))))
    | inl x ↦ elim (Bool-cases (is_empty path_resource)) [
      | inr p ↦ rw (x, p) (inl (beq_self (to_lower path_resource)))
      | inl p ↦ elim (Bool-cases (is_livez op.operation_id)) [
        | inl l ↦ rw (x, p) (inr (inl ((beq_iff op.operation_id (codes "getLivez")).0 l)))
        | inr l ↦ elim (Option-cases (find_known op.operation_id known)) [
          | inl none_found ↦
              rw (x, p) (inr (inr (find_known-none op.operation_id known none_found)))
          | inr (n, found) ↦
              rw (x, p, l, found) (inl (find_known-some op.operation_id n known found))
        ]
      ]
    ]
  ],
  derive_with_agrees op.operation_id (resolve_resource_name op path_resource known)
      (lookup (codes "x-handler-method") op.extensions),
)
