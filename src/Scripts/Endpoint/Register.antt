-- ===== src/Scripts/Endpoint/Register.antt =====
-- appendRouterFunc and writeRouteGroup of scripts/new-endpoint.go: the routes of the function that is
-- added to internal/router/router.go, as data in place of its text.
pub mod Built
pub mod Open
pub mod Guarded
use go_skeleton.Base.{
  ◌≡◌, refl, sym, ap, ◌∙◌, subst, Bool, true, false, not, Option, none, some, List, [], ◌∷◌, ◌++◌,
  map, Result, ok, err, All, if◌then◌else◌, Bool-cases, inl, inr,
}
use mathlib.Core.List.{Memᴰ}
use go_skeleton.Base.Text.{Bytes, codes, beq, beq_self}
use go_skeleton.Scripts.Architecture.{any}
use go_skeleton.Scripts.Endpoint.{
  ApiOperation, Requirement, requires_bearer_auth, effective, derive_handler_method, DeriveError,
}
use go_skeleton.Scripts.Endpoint.Routes.{find_resource_prefix, gin_path, extract_path_params}
use go_skeleton.Scripts.Endpoint.Collect.{
  Entry, Operation, CollectError, upper_text, skips, build, built, build_all, add_built, op_leb,
  insert_op, sort_ops, with_gin_path, routed,
}

pub record Registered : Type 0 where
  pub method : Bytes
  pub path : Bytes
  pub handler : Bytes

-- The routes of the group, and those of its group behind deps.AuthRequired, which is left out if there
-- are none of them.
pub record RouterFunc : Type 0 where
  pub group : Bytes
  pub open_routes : List Registered
  pub guarded_routes : List Registered

abbrev pub add_if : Bool → Operation → List Operation → List Operation
add_if true op ops = op ∷ ops
add_if false op ops = ops

unfoldable pub public_ops : List Operation → List Operation
public_ops [] = []
public_ops (op ∷ ops) = add_if (not op.requires_auth) op (public_ops ops)

unfoldable pub auth_ops : List Operation → List Operation
auth_ops [] = []
auth_ops (op ∷ ops) = add_if op.requires_auth op (auth_ops ops)

abbrev pub registered : Operation → Registered
registered op = record {
  method = upper_text op.http_verb;
  path = op.gin;
  handler = op.handler_method;
}

unfoldable pub write_route_group : List Operation → List Registered
write_route_group = map registered

unfoldable pub append_router_func : List Operation → Bytes → RouterFunc
unfolding public_ops auth_ops write_route_group
append_router_func ops group = record {
  group = group;
  open_routes = write_route_group (public_ops ops);
  guarded_routes = write_route_group (auth_ops ops);
}
