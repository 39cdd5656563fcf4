-- ===== src/Scripts/Endpoint/Register/Guarded.antt =====
-- A route of scripts/new-endpoint.go whose operation asks for a bearer token is registered behind the
-- middleware that checks it.
use go_skeleton.Base.{
  ◌≡◌, refl, sym, ap, ◌∙◌, Bool, true, false, List, [], ◌∷◌, map, subst, All, Result, ok, err,
  Bool-cases, inl, inr,
}
use mathlib.Core.List.{Memᴰ}
use go_skeleton.Base.Text.{Bytes, codes, codes}
use go_skeleton.Scripts.Endpoint.Register.Built.{
  AsksForBearer, requires_of_AsksForBearer, BuiltOf, built_ok,
}
use go_skeleton.Scripts.Endpoint.Register.Open.{
  From, build_all-From, All-weaken, All-map, All-sort_ops, All-public_ops,
}
use go_skeleton.Scripts.Endpoint.{Requirement, derive_handler_method}
use go_skeleton.Scripts.Endpoint.Routes.{
  find_resource_prefix, gin_path, extract_path_params, trim_prefix,
}
use go_skeleton.Scripts.Endpoint.Collect.{
  Entry, Operation, CollectError, upper_text, skips, build, build_all, routed, group_or, op_leb,
  insert_op, sort_ops, with_gin_path, finished, collect_operations,
}
use go_skeleton.Scripts.Endpoint.Collect.Stable.{with_op, with_op-mem, add_built_ok}
use go_skeleton.Scripts.Endpoint.Register.{
  Registered, add_if, auth_ops, public_ops, registered, append_router_func, write_route_group,
}

module _ {A B : Type 0} (f : A → B) where
  mem-map : {x : A} (xs : List A) → Memᴰ x xs → Memᴰ (f x) (map f xs)
  mem-map [] m = elim m [ ]
  mem-map (y ∷ xs) (Memᴰ.head e) = Memᴰ.head (ap f e)
  mem-map (y ∷ xs) (Memᴰ.tail m) = Memᴰ.tail (mem-map xs m)

mem-insert_op :
    {x : Operation} (a : Operation) (ops : List Operation)
    → Memᴰ x (a ∷ ops)
    → Memᴰ x (insert_op a ops)
unfolding insert_op
mem-insert_op a [] m = m
mem-insert_op a (b ∷ ops) (Memᴰ.head e) = elim (Bool-cases (op_leb a b)) [
  | inl p ↦ rw p (Memᴰ.head e)
  | inr p ↦ rw p (Memᴰ.tail (mem-insert_op a ops (Memᴰ.head e)))
]
mem-insert_op a (b ∷ ops) (Memᴰ.tail (Memᴰ.head e)) = elim (Bool-cases (op_leb a b)) [
  | inl p ↦ rw p (Memᴰ.tail (Memᴰ.head e))
  | inr p ↦ rw p (Memᴰ.head e)
]
mem-insert_op a (b ∷ ops) (Memᴰ.tail (Memᴰ.tail m)) = elim (Bool-cases (op_leb a b)) [
  | inl p ↦ rw p (Memᴰ.tail (Memᴰ.tail m))
  | inr p ↦ rw p (Memᴰ.tail (mem-insert_op a ops (Memᴰ.tail m)))
]

mem-sort_ops : {x : Operation} (ops : List Operation) → Memᴰ x ops → Memᴰ x (sort_ops ops)
unfolding sort_ops
mem-sort_ops [] m = m
mem-sort_ops (a ∷ ops) (Memᴰ.head e) = mem-insert_op a (sort_ops ops) (Memᴰ.head e)
mem-sort_ops (a ∷ ops) (Memᴰ.tail m) =
    mem-insert_op a (sort_ops ops) (Memᴰ.tail (mem-sort_ops ops m))

mem-add_if :
    {x : Operation} (b : Bool) (op : Operation) (ops : List Operation)
    → b ≡ true
    → Memᴰ x (op ∷ ops)
    → Memᴰ x (add_if b op ops)
mem-add_if true op ops e m = m
mem-add_if false op ops e m = cc

mem-add_if_tail :
    {x : Operation} (b : Bool) (op : Operation) (ops : List Operation)
    → Memᴰ x ops
    → Memᴰ x (add_if b op ops)
mem-add_if_tail true op ops m = Memᴰ.tail m
mem-add_if_tail false op ops m = m

mem-auth_ops :
    {x : Operation} (ops : List Operation)
    → x.requires_auth ≡ true
    → Memᴰ x ops
    → Memᴰ x (auth_ops ops)
unfolding auth_ops
mem-auth_ops [] h m = m
mem-auth_ops (op ∷ ops) h (Memᴰ.head e) =
    let own : op.requires_auth ≡ true = ap (λ (o : Operation). o.requires_auth) (sym e) ∙ h in
    mem-add_if op.requires_auth op (auth_ops ops) own (Memᴰ.head e)
mem-auth_ops (op ∷ ops) h (Memᴰ.tail m) =
    mem-add_if_tail op.requires_auth op (auth_ops ops) (mem-auth_ops ops h m)

build_all_mem :
    (security : List Requirement) (name : Bytes) (es : List Entry) (e : Entry)
    (ops : List Operation)
    → build_all security name es ≡ ok ops
    → Memᴰ e es
    → skips name e ≡ false
    → (op : Operation) × Memᴰ op ops × BuiltOf security name e op
unfolding build_all build with_op
build_all_mem security name [] e ops h m k = elim m [ ]
build_all_mem security name (f ∷ es) e ops h (Memᴰ.head same) k =
    let h' : build_all security name (e ∷ es) ≡ ok ops = rw same h in
    let (o, r, rest, s, q) =
      add_built_ok (build security name e) (build_all security name es) ops h' in
    let (op, p, of) =
      built_ok security name e (derive_handler_method e.op name) (extract_path_params e.path) o refl
        (rw k at r) in
    (op, rw (q, p) (Memᴰ.head refl), of)
build_all_mem security name (f ∷ es) e ops h (Memᴰ.tail m) k =
    let (o, r, rest, s, q) =
      add_built_ok (build security name f) (build_all security name es) ops h in
    let (op, n, of) = build_all_mem security name es e rest s m k in
    (op, rw q (with_op-mem o rest n), of)

finished_ok :
    (r : Result CollectError (List Operation)) (routes : List Operation) (group : Bytes)
    → finished r ≡ ok (routes, group)
    → (ops : List Operation) × (r ≡ ok ops) × ((routes, group) ≡ routed (sort_ops ops))
finished_ok (err e) routes group h = cc
finished_ok (ok ops) routes group h = (ops, refl, cc)

-- The prefix that the routes have in common.
abbrev pub prefix_of : List Operation → Bytes
prefix_of routes = find_resource_prefix (map (λ (o : Operation). o.path) routes)

-- The paths of the routes are those of the operations.
paths_kept :
    (prefix : Bytes) (ops : List Operation)
    → map (λ (o : Operation). o.path) (map (with_gin_path prefix) ops)
      ≡ map (λ (o : Operation). o.path) ops
paths_kept prefix [] = refl
paths_kept prefix (op ∷ ops) = ap (λ (l : List Bytes). op.path ∷ l) (paths_kept prefix ops)

-- The route of an entry, below the prefix of its group.
abbrev pub RouteOf : Bytes → Bytes → Entry → Registered → Type 0
RouteOf name prefix e r =
    (r.method ≡ upper_text e.verb)
    × (r.path ≡ gin_path e.path prefix)
    × (derive_handler_method e.op name ≡ ok r.handler)

RouteOf-registered :
    (security : List Requirement) (name prefix : Bytes) (e : Entry) (op : Operation)
    → BuiltOf security name e op
    → RouteOf name prefix e (registered (with_gin_path prefix op))
RouteOf-registered security name prefix e op of =
    (ap upper_text of.verb, ap (λ p. gin_path p prefix) of.path, of.method)

-- A route that asks for no bearer token, of an entry of the document.
abbrev pub OpenOf : List Requirement → Bytes → List Entry → Bytes → Registered → Type 0
OpenOf security name es prefix r =
    (e : Entry) × Memᴰ e es
    × (skips name e ≡ false)
    × (¬ AsksForBearer e.op security)
    × RouteOf name prefix e r

open_of :
    (security : List Requirement) (name prefix : Bytes) (es : List Entry) (op : Operation)
    → From security name es op
    → op.requires_auth ≡ false
    → OpenOf security name es prefix (registered (with_gin_path prefix op))
open_of security name prefix es op (e, m, k, of) open_op = (
  e,
  m,
  k,
  λ asks. let t = sym open_op ∙ of.auth ∙ requires_of_AsksForBearer e.op security asks in cc,
  RouteOf-registered security name prefix e op of,
)

open_routes :
    (security : List Requirement) (name : Bytes) (es : List Entry) (prefix : Bytes)
    (ops : List Operation)
    → All (From security name es) ops
    → All
        (OpenOf security name es prefix)
        (map registered (public_ops (map (with_gin_path prefix) (sort_ops ops))))
open_routes security name es prefix ops built_from =
    All-map registered (OpenOf security name es prefix) (public_ops routes) (
      All-weaken (λ x. OpenIf x × (x.requires_auth ≡ false))
        (λ x. OpenOf security name es prefix (registered x)) (λ x (p, e). p e) (public_ops routes)
        (All-public_ops OpenIf routes (
          All-map (with_gin_path prefix) OpenIf (sort_ops ops) (
            All-weaken (From security name es) (λ op. OpenIf (with_gin_path prefix op))
              (open_of security name prefix es) (sort_ops ops)
              (All-sort_ops (From security name es) ops built_from)))))
  where
    routes : List Operation
    routes = map (with_gin_path prefix) (sort_ops ops)

    OpenIf : Operation → Type 0
    OpenIf x = x.requires_auth ≡ false → OpenOf security name es prefix (registered x)

-- Where collectOperations succeeds, an operation of the resource that asks for a bearer token, by its own
-- security or, if it has none, by the document's, has a route behind deps.AuthRequired, with its verb, its
-- path below the common prefix of the routes and the method that deriveHandlerMethod gives it. And each
-- route outside of deps.AuthRequired is that of an operation of the resource that does not ask for one. The
-- group is the prefix without /api/v1.
pub guarded_of_AsksForBearer :
    (security : List Requirement) (name : Bytes) (es : List Entry) (e : Entry)
    (routes : List Operation) (group : Bytes)
    → collect_operations security name es ≡ ok (routes, group)
    → Memᴰ e es
    → skips name e ≡ false
    → AsksForBearer e.op security
    → ((r : Registered) × Memᴰ r (append_router_func routes group).guarded_routes
        × RouteOf name (prefix_of routes) e r)
      × All
          (OpenOf security name es (prefix_of routes))
          (append_router_func routes group).open_routes
      × (group ≡ group_or (trim_prefix (prefix_of routes) (codes "/api/v1")))
unfolding collect_operations append_router_func write_route_group
guarded_of_AsksForBearer security name es e routes group h m k asks =
    let (ops, b, same) = finished_ok (build_all security name es) routes group h in
    let (op, n, of) = build_all_mem security name es e ops b m k in
    let prefix = find_resource_prefix (map (λ (o : Operation). o.path) (sort_ops ops)) in
    let same_routes : routes ≡ map (with_gin_path prefix) (sort_ops ops) =
      ap (λ (q : List Operation × Bytes). q.0) same in
    let same_prefix : prefix ≡ prefix_of routes =
      ap find_resource_prefix (
        sym
          (ap (map (λ (o : Operation). o.path)) same_routes ∙ paths_kept prefix (sort_ops ops))) in
    let auth = of.auth ∙ requires_of_AsksForBearer e.op security asks in
    let routed_op = with_gin_path prefix op in
    let stands : Memᴰ routed_op routes =
      rw same_routes (mem-map (with_gin_path prefix) (sort_ops ops) (mem-sort_ops ops n)) in
    let opens : All (OpenOf security name es prefix) (map registered (public_ops routes)) =
      rw same_routes
        (open_routes security name es prefix ops (build_all-From security name es ops b)) in
    (
      (
        registered routed_op,
        mem-map registered (auth_ops routes) (mem-auth_ops routes auth stands),
        subst (λ p. RouteOf name p e (registered routed_op)) same_prefix
            (RouteOf-registered security name prefix e op of),
      ),
      subst (λ p. All (OpenOf security name es p) (map registered (public_ops routes))) same_prefix
          opens,
      ap (λ (q : List Operation × Bytes). q.1) same
          ∙ ap (λ p. group_or (trim_prefix p (codes "/api/v1"))) same_prefix,
    )
