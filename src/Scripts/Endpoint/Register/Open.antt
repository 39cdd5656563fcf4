-- ===== src/Scripts/Endpoint/Register/Open.antt =====
-- A route of scripts/new-endpoint.go outside of the guarded group is of an operation without a bearer
-- token.
use go_skeleton.Base.{
  ◌≡◌, refl, sym, Bool, true, false, not, Option, none, some, List, [], ◌∷◌, map, subst, Result, ok,
  All, Bool-cases, inl, inr,
}
use mathlib.Core.List.{Memᴰ}
use go_skeleton.Base.Text.{Bytes}
use go_skeleton.Scripts.Endpoint.{Requirement, derive_handler_method}
use go_skeleton.Scripts.Endpoint.Routes.{extract_path_params}
use go_skeleton.Scripts.Endpoint.Collect.{
  Entry, Operation, CollectError, skips, build, build_all, op_leb, insert_op, sort_ops,
}
use go_skeleton.Scripts.Endpoint.Collect.Stable.{with_op, add_built_ok}
use go_skeleton.Scripts.Endpoint.Register.{add_if, public_ops}
use go_skeleton.Scripts.Endpoint.Register.Built.{BuiltOf, built_ok}

module _ {A : Type 0} (P Q : A → Type 0) (f : (x : A) → P x → Q x) where
  pub All-weaken : (xs : List A) → All P xs → All Q xs
  All-weaken [] h = tt
  All-weaken (x ∷ xs) (p, h) = (f x p, All-weaken xs h)

module _ {A B : Type 0} (f : A → B) (P : B → Type 0) where
  pub All-map : (xs : List A) → All (λ x. P (f x)) xs → All P (map f xs)
  All-map [] h = tt
  All-map (x ∷ xs) (p, h) = (p, All-map xs h)

module _ (P : Operation → Type 0) where
  All-insert_op : (a : Operation) (ops : List Operation) → P a → All P ops → All P (insert_op a ops)
  unfolding insert_op
  All-insert_op a [] p h = (p, tt)
  All-insert_op a (b ∷ ops) p (q, h) = elim (Bool-cases (op_leb a b)) [
    | inl e ↦ rw e (p, (q, h))
    | inr e ↦ rw e (q, All-insert_op a ops p h)
  ]

  pub All-sort_ops : (ops : List Operation) → All P ops → All P (sort_ops ops)
  unfolding sort_ops
  All-sort_ops [] h = tt
  All-sort_ops (a ∷ ops) (p, h) = All-insert_op a (sort_ops ops) p (All-sort_ops ops h)

  All-add_if :
      (b : Bool) (op : Operation) (ops : List Operation)
      → op.requires_auth ≡ b
      → P op
      → All (λ o. P o × (o.requires_auth ≡ false)) ops
      → All (λ o. P o × (o.requires_auth ≡ false)) (add_if (not b) op ops)
  All-add_if true op ops e p h = h
  All-add_if false op ops e p h = ((p, e), h)

  pub All-public_ops :
      (ops : List Operation)
      → All P ops
      → All (λ o. P o × (o.requires_auth ≡ false)) (public_ops ops)
  unfolding public_ops
  All-public_ops [] h = tt
  All-public_ops (op ∷ ops) (p, h) =
      All-add_if op.requires_auth op (public_ops ops) refl p (All-public_ops ops h)

-- The operation is of an entry of the document.
abbrev pub From : List Requirement → Bytes → List Entry → Operation → Type 0
From security name es op =
    (e : Entry) × Memᴰ e es × (skips name e ≡ false) × BuiltOf security name e op

build_From :
    (security : List Requirement) (name : Bytes) (e : Entry) (op : Operation)
    → build security name e ≡ ok (some op)
    → (skips name e ≡ false) × BuiltOf security name e op
unfolding build
build_From security name e op h = elim (Bool-cases (skips name e)) [
  | inl p ↦
      let h' : ◌≡◌ {A = Result CollectError (Option Operation)} (ok none) (ok (some op)) =
        rw p at h in
      cc
  | inr p ↦
      let (op', same, of) =
        built_ok security name e (derive_handler_method e.op name) (extract_path_params e.path)
          (some op) refl (rw p at h) in
      let same' : op' ≡ op = cc in (p, subst (BuiltOf security name e) same' of)
]

with_op-From :
    (security : List Requirement) (name : Bytes) (e : Entry) (es : List Entry)
    (o : Option Operation) (rest : List Operation)
    → build security name e ≡ ok o
    → All (From security name es) rest
    → All (From security name (e ∷ es)) (with_op o rest)
unfolding with_op
with_op-From security name e es none rest r h =
    All-weaken (From security name es) (From security name (e ∷ es))
      (λ op (f, m, k, of). (f, Memᴰ.tail m, k, of)) rest h
with_op-From security name e es (some op) rest r h =
    let (k, of) = build_From security name e op r in
    (
      (e, Memᴰ.head refl, k, of),
      All-weaken (From security name es) (From security name (e ∷ es))
          (λ op (f, m, k, of). (f, Memᴰ.tail m, k, of)) rest h,
    )

-- Each operation that collectOperations has built is of an entry.
pub build_all-From :
    (security : List Requirement) (name : Bytes) (es : List Entry) (ops : List Operation)
    → build_all security name es ≡ ok ops
    → All (From security name es) ops
unfolding build_all
build_all-From security name [] ops h = let same : [] ≡ ops = cc in rw (sym same) tt
build_all-From security name (e ∷ es) ops h =
    let (o, r, rest, s, q) =
      add_built_ok (build security name e) (build_all security name es) ops h in
    rw q (with_op-From security name e es o rest r (build_all-From security name es rest s))
