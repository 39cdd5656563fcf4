-- ===== src/Scripts/Endpoint/Collect.antt =====
-- collectOperations of scripts/new-endpoint.go. `entries` are the operations of the document in the order
-- in which the maps of paths and verbs are met, with the extensions of their paths. DTOs are left out.
pub mod Stable
use go_skeleton.Base.{
  ℕ, ◌-◌, ◌≡◌, refl, sym, ap, ◌∙◌, subst, Bool, true, false, ◌||◌, not, ◌⊎◌, inl, inr, Option, none,
  some, List, [], ◌∷◌, ◌++◌, map, Result, ok, err, All, if◌then◌else◌, ltb, ◌==◌, arith, Bool-cases,
}
use mathlib.Core.List.{Permᴰ}
use go_skeleton.Base.Text.{Bytes, codes, beq, beq_iff, beq_self, is_empty}
use go_skeleton.Base.Dict.{Dict}
use go_skeleton.Server.Queues.{string_leb}
use go_skeleton.Scripts.Endpoint.{
  is_lower, Extension, ApiOperation, Requirement, belongs_to_resource, x_resource, DeriveError,
  derive_handler_method, requires_bearer_auth,
}
use go_skeleton.Scripts.Endpoint.Names.{pascalize}
use go_skeleton.Scripts.Endpoint.Routes.{
  extract_path_params, find_resource_prefix, gin_path, trim_prefix,
}

pub record Entry : Type 0 where
  pub verb : Bytes
  pub path : Bytes
  pub path_extensions : Dict Extension
  pub op : ApiOperation

-- An operation of the resource, less what checkServerInterface adds and its DTOs.
pub record Operation : Type 0 where
  pub operation_id : Bytes
  pub handler_method : Bytes
  pub http_verb : Bytes
  pub path : Bytes
  pub gin : Bytes
  pub iface_method : Bytes
  pub path_param_names : List Bytes
  pub requires_auth : Bool

pub data CollectError : Type 0 where
  no_method : DeriveError → CollectError
  many_params : ℕ → CollectError

abbrev pub upper_text : Bytes → Bytes
upper_text = map (λ c. if is_lower c then c - 32 else c)

unfoldable pub verb_rank : Bytes → ℕ
verb_rank verb =
    let verb = upper_text verb in
    if beq verb (codes "GET")
    then 0
    else if beq verb (codes "POST")
    then 1
    else if beq verb (codes "PUT")
    then 2
    else if beq verb (codes "PATCH")
    then 3
    else if beq verb (codes "DELETE")
    then 4
    else 5

abbrev pub operation_of : List Requirement → Entry → Bytes → List Bytes → Operation
operation_of security e method names = record {
  operation_id = e.op.operation_id;
  handler_method = method;
  http_verb = e.verb;
  path = e.path;
  gin = [];
  iface_method = pascalize e.op.operation_id;
  path_param_names = names;
  requires_auth = requires_bearer_auth e.op security;
}

abbrev pub built :
    List Requirement
    → Entry
    → Result DeriveError Bytes
    → Result ℕ (List Bytes)
    → Result CollectError (Option Operation)
built security e (err x) params = err (no_method x)
built security e (ok method) (err n) = err (many_params n)
built security e (ok method) (ok names) = ok (some (operation_of security e method names))

abbrev pub skips : Bytes → Entry → Bool
skips name e =
    is_empty e.op.operation_id || not (belongs_to_resource e.op (x_resource e.path_extensions) name)

-- What an entry of the document adds.
unfoldable pub build : List Requirement → Bytes → Entry → Result CollectError (Option Operation)
build security name e =
    if skips name e
    then ok none
    else built security e (derive_handler_method e.op name) (extract_path_params e.path)

abbrev pub add_built {ℓ} :
    {A : Type ℓ}
    → Result CollectError (Option A)
    → Result CollectError (List A)
    → Result CollectError (List A)
add_built (err e) r = err e
add_built (ok o) (err e) = err e
add_built (ok none) (ok ops) = ok ops
add_built (ok (some op)) (ok ops) = ok (op ∷ ops)

unfoldable pub build_all :
    List Requirement → Bytes → List Entry → Result CollectError (List Operation)
build_all security name [] = ok []
build_all security name (e ∷ es) = add_built (build security name e) (build_all security name es)

abbrev same_path : Operation → Operation → Bool
same_path a b = beq a.path b.path

-- The order of slices.SortFunc: by the path, then by the verb.
unfoldable pub op_leb : Operation → Operation → Bool
op_leb a b =
    if same_path a b
    then not (ltb (verb_rank b.http_verb) (verb_rank a.http_verb))
    else string_leb a.path b.path

unfoldable pub insert_op : Operation → List Operation → List Operation
insert_op a [] = a ∷ []
insert_op a (b ∷ ops) = let rest = insert_op a ops in if op_leb a b then a ∷ b ∷ ops else b ∷ rest

-- slices.SortFunc, for operations of which no two compare equal.
unfoldable pub sort_ops : List Operation → List Operation
unfolding insert_op
sort_ops [] = []
sort_ops (a ∷ ops) = insert_op a (sort_ops ops)

abbrev pub with_gin_path : Bytes → Operation → Operation
with_gin_path prefix op = record op { gin = gin_path op.path prefix }

abbrev pub group_or : Bytes → Bytes
group_or path = if is_empty path then codes "/" else path

abbrev pub routed : List Operation → List Operation × Bytes
routed ops =
    let prefix = find_resource_prefix (map (λ o. o.path) ops) in
    (map (with_gin_path prefix) ops, group_or (trim_prefix prefix (codes "/api/v1")))

abbrev pub finished :
    Result CollectError (List Operation) → Result CollectError (List Operation × Bytes)
finished (err e) = err e
finished (ok ops) = ok (routed (sort_ops ops))

unfoldable pub collect_operations :
    List Requirement → Bytes → List Entry → Result CollectError (List Operation × Bytes)
unfolding build_all sort_ops
collect_operations security name entries = finished (build_all security name entries)
