-- ===== src/Scripts/Endpoint/Register/Built.antt =====
-- What scripts/new-endpoint.go takes over from an operation of the document, and when one asks for a
-- bearer token.
use go_skeleton.Base.{
  ℕ, ◌≡◌, refl, sym, ap, ◌∙◌, Bool, true, Option, some, List, [], ◌∷◌, Result, ok, err, Bool-cases,
  inl, inr,
}
use mathlib.Core.List.{Memᴰ}
use go_skeleton.Base.Text.{Bytes, codes, beq_self}
use go_skeleton.Scripts.Architecture.{any}
use go_skeleton.Scripts.Endpoint.{
  ApiOperation, Requirement, requires_bearer_auth, effective, derive_handler_method, DeriveError,
}
use go_skeleton.Scripts.Endpoint.Collect.{Entry, Operation, built, operation_of}

-- The bearer scheme stands in one of the requirements in force.
unfoldable pub AsksForBearer : ApiOperation → List Requirement → Type 0
AsksForBearer op security =
    (req : Requirement) × Memᴰ req (effective op.security security) × Memᴰ (codes "bearerAuth") req

any-mem {ℓ} :
    {A : Type ℓ} (p : A → Bool) {x : A} (xs : List A) → Memᴰ x xs → p x ≡ true → any p xs ≡ true
any-mem p [] m h = elim m [ ]
any-mem p (y ∷ xs) (Memᴰ.head e) h = rw (ap p (sym e) ∙ h) refl
any-mem p (y ∷ xs) (Memᴰ.tail m) h = elim (Bool-cases (p y)) [
  | inl e ↦ rw e refl
  | inr e ↦ rw e (any-mem p xs m h)
]

pub requires_of_AsksForBearer :
    (op : ApiOperation) (security : List Requirement)
    → AsksForBearer op security
    → requires_bearer_auth op security ≡ true
unfolding requires_bearer_auth AsksForBearer
requires_of_AsksForBearer op security (req, m, k) =
    any-mem _ (effective op.security security) m (any-mem _ req k (beq_self (codes "bearerAuth")))

-- What an operation that is built takes over from its entry.
pub record BuiltOf (security : List Requirement) (name : Bytes) (e : Entry) (op : Operation)
    : Type 0 where
  pub auth : op.requires_auth ≡ requires_bearer_auth e.op security
  pub verb : op.http_verb ≡ e.verb
  pub path : op.path ≡ e.path
  pub method : derive_handler_method e.op name ≡ ok op.handler_method

pub built_ok :
    (security : List Requirement) (name : Bytes) (e : Entry) (d : Result DeriveError Bytes)
    (p : Result ℕ (List Bytes)) (o : Option Operation)
    → derive_handler_method e.op name ≡ d
    → built security e d p ≡ ok o
    → (op : Operation) × (o ≡ some op) × BuiltOf security name e op
built_ok security name e (err x) p o h k = cc
built_ok security name e (ok method) (err n) o h k = cc
built_ok security name e (ok method) (ok names) o h k =
    let same : some (operation_of security e method names) ≡ o = cc in
    (
      operation_of security e method names,
      sym same,
      record { auth = refl; verb = refl; path = refl; method = h },
    )
