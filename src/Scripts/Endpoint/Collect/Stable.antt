-- ===== src/Scripts/Endpoint/Collect/Stable.antt =====
-- What collectOperations of scripts/new-endpoint.go gives does not depend on the order of Go's maps.
use go_skeleton.Base.{
  ◌≡◌, refl, sym, ap, ◌∙◌, subst, Bool, true, false, ◌&&◌, ◌⊎◌, Option, none, some, List, [], ◌∷◌,
  Result, ok, err, All, arith,
}
use mathlib.Core.List.{Memᴰ, Permᴰ}
use go_skeleton.Base.Text.{Bytes, beq_iff}
use go_skeleton.Server.Queues.{string_leb_total, string_leb_trans, string_leb_antisym}
use go_skeleton.Scripts.Endpoint.{Requirement}
use go_skeleton.Scripts.Endpoint.Collect.{
  Entry, Operation, CollectError, build, build_all, add_built, op_leb, insert_op, sort_ops,
  collect_operations, finished, routed,
}

op_leb_total : (a b : Operation) → (op_leb a b ≡ true) ⊎ (op_leb b a ≡ true)
unfolding op_leb
op_leb_total a b =
    ground (arith, string_leb_total a.path b.path, beq_iff a.path b.path, beq_iff b.path a.path)

op_leb_trans : (a b c : Operation) → op_leb a b ≡ true → op_leb b c ≡ true → op_leb a c ≡ true
unfolding op_leb
op_leb_trans a b c p q = ground (
  arith,
  string_leb_trans a.path b.path c.path,
  string_leb_antisym a.path b.path,
  string_leb_antisym b.path c.path,
  beq_iff a.path b.path,
  beq_iff b.path c.path,
  beq_iff a.path c.path,
)

-- The two compare equal.
abbrev pub ties : Operation → Operation → Bool
ties a b = op_leb a b && op_leb b a

-- No two operations of the list compare equal.
abbrev pub NoTies : List Operation → Type 0
NoTies [] = Unit
NoTies (a ∷ ops) = All (λ b. ties a b ≡ false) ops × NoTies ops

insert_op_comm :
    (a b : Operation) (ops : List Operation)
    → ties a b ≡ false
    → insert_op a (insert_op b ops) ≡ insert_op b (insert_op a ops)
unfolding insert_op
insert_op_comm a b [] h = ground (arith, h, op_leb_total a b)
insert_op_comm a b (c ∷ ops) h =
    ground
      (arith, h, insert_op_comm a b ops h, op_leb_total a b, op_leb_trans a b c, op_leb_trans b a c)

All-Permᴰ {ℓ} : {A : Type ℓ} (P : A → Type 0) (xs ys : List A) → Permᴰ xs ys → All P xs → All P ys
All-Permᴰ P xs ys Permᴰ.nil h = tt
All-Permᴰ P xs ys (Permᴰ.cons {l₁ = l} {l₂ = m} e p) (x, h) = (subst P e x, All-Permᴰ P l m p h)
All-Permᴰ P xs ys (Permᴰ.swap {l = l} e f) (x, (y, h)) = (subst P f y, (subst P e x, h))
All-Permᴰ P xs ys (Permᴰ.trans {l₁ = l} {l₂ = m} {l₃ = n} p q) h =
    All-Permᴰ P m n q (All-Permᴰ P l m p h)

ties_sym : (a b : Operation) → ties a b ≡ false → ties b a ≡ false
ties_sym a b h = ground (arith, h)

NoTies-Permᴰ : (xs ys : List Operation) → Permᴰ xs ys → NoTies xs → NoTies ys
NoTies-Permᴰ xs ys Permᴰ.nil h = tt
NoTies-Permᴰ xs ys (Permᴰ.cons {a = a} {l₁ = l} {l₂ = m} e p) (x, h) = (
  subst (λ c. All (λ b. ties c b ≡ false) m) e (All-Permᴰ (λ b. ties a b ≡ false) l m p x),
  NoTies-Permᴰ l m p h,
)
NoTies-Permᴰ xs ys (Permᴰ.swap {a = a} {b = b} {b' = b'} {l = l} e f) ((t, x), (y, h)) =
    subst (λ c. NoTies (c ∷ b' ∷ l)) f
      (subst (λ c. NoTies (b ∷ c ∷ l)) e ((ties_sym a b t, y), (x, h)))
NoTies-Permᴰ xs ys (Permᴰ.trans {l₁ = l} {l₂ = m} {l₃ = n} p q) h =
    NoTies-Permᴰ m n q (NoTies-Permᴰ l m p h)

sort_ops_of_Permᴰ : (xs ys : List Operation) → Permᴰ xs ys → NoTies xs → sort_ops xs ≡ sort_ops ys
unfolding sort_ops
sort_ops_of_Permᴰ xs ys Permᴰ.nil h = refl
sort_ops_of_Permᴰ xs ys (Permᴰ.cons {l₁ = l} {l₂ = m} e p) (x, h) =
    rw (e, sort_ops_of_Permᴰ l m p h) refl
sort_ops_of_Permᴰ xs ys (Permᴰ.swap {a = a} {b = b} {l = l} e f) ((t, x), h) =
    rw (sym e, sym f) (insert_op_comm a b (sort_ops l) t)
sort_ops_of_Permᴰ xs ys (Permᴰ.trans {l₁ = l} {l₂ = m} {l₃ = n} p q) h =
    sort_ops_of_Permᴰ l m p h ∙ sort_ops_of_Permᴰ m n q (NoTies-Permᴰ l m p h)

unfoldable pub with_op : Option Operation → List Operation → List Operation
with_op none ops = ops
with_op (some op) ops = op ∷ ops

pub add_built_ok :
    (r : Result CollectError (Option Operation)) (s : Result CollectError (List Operation))
    (ops : List Operation)
    → add_built r s ≡ ok ops
    → (o : Option Operation) × (r ≡ ok o)
      × (rest : List Operation) × (s ≡ ok rest)
      × (ops ≡ with_op o rest)
unfolding with_op
add_built_ok (err e) s ops h = cc
add_built_ok (ok o) (err e) ops h = cc
add_built_ok (ok none) (ok rest) ops h = (none, refl, rest, refl, cc)
add_built_ok (ok (some op)) (ok rest) ops h = (some op, refl, rest, refl, cc)

add_built_with :
    (o : Option Operation) (ops : List Operation) → add_built (ok o) (ok ops) ≡ ok (with_op o ops)
unfolding with_op
add_built_with none ops = refl
add_built_with (some op) ops = refl

pub with_op-mem :
    {x : Operation} (o : Option Operation) (ops : List Operation)
    → Memᴰ x ops
    → Memᴰ x (with_op o ops)
unfolding with_op
with_op-mem none ops m = m
with_op-mem (some op) ops m = Memᴰ.tail m

Permᴰ-refl : (l : List Operation) → Permᴰ l l
Permᴰ-refl [] = Permᴰ.nil
Permᴰ-refl (a ∷ l) = Permᴰ.cons refl (Permᴰ-refl l)

with_op-Permᴰ :
    (o : Option Operation) (l m : List Operation) → Permᴰ l m → Permᴰ (with_op o l) (with_op o m)
unfolding with_op
with_op-Permᴰ none l m p = p
with_op-Permᴰ (some op) l m p = Permᴰ.cons refl p

with_op_swap :
    (o q : Option Operation) (l : List Operation)
    → Permᴰ (with_op o (with_op q l)) (with_op q (with_op o l))
unfolding with_op
with_op_swap none q l = Permᴰ-refl (with_op q l)
with_op_swap (some a) none l = Permᴰ-refl (a ∷ l)
with_op_swap (some a) (some b) l = Permᴰ.swap refl refl

module _ (security : List Requirement) (name : Bytes) where
  abbrev Built : List Entry → List Operation → Type 0
  Built es ops = build_all security name es ≡ ok ops

  -- The operations of the entries in another order are the same in another order.
  build_all-Permᴰ :
      (es fs : List Entry) (ops : List Operation)
      → Permᴰ es fs
      → Built es ops
      → (ops' : List Operation) × Built fs ops' × Permᴰ ops ops'
  unfolding build_all
  build_all-Permᴰ es fs ops Permᴰ.nil h = (ops, h, Permᴰ-refl ops)
  build_all-Permᴰ es fs ops (Permᴰ.cons {a = a} {l₁ = l} {l₂ = m} e p) h =
      let (o, r, rest, s, same) =
        add_built_ok (build security name a) (build_all security name l) ops h in
      let (rest', s', q) = build_all-Permᴰ l m rest p s in
      (
        with_op o rest',
        rw (sym e, r, s') (add_built_with o rest'),
        rw same (with_op-Permᴰ o rest rest' q),
      )
  build_all-Permᴰ es fs ops (Permᴰ.swap {a = a} {b = b} {l = l} e f) h =
      let (o, r, rest, s, same) =
        add_built_ok (build security name a) (build_all security name (b ∷ l)) ops h in
      let (o', r', rest', s', same') =
        add_built_ok (build security name b) (build_all security name l) rest s in
      (
        with_op o' (with_op o rest'),
        rw (sym e, sym f, r, r', s', add_built_with o rest') (add_built_with o' (with_op o rest')),
        rw (same, same') (with_op_swap o o' rest'),
      )
  build_all-Permᴰ es fs ops (Permᴰ.trans {l₁ = k} {l₂ = l} {l₃ = m} p q) h =
      let (ops1, h1, p1) = build_all-Permᴰ k l ops p h in
      let (ops2, h2, p2) = build_all-Permᴰ l m ops1 q h1 in (ops2, h2, Permᴰ.trans p1 p2)

  -- Where the operations of a resource can be built and no two of them have the same path and rank of the
  -- verb, collectOperations gives the same operations in the same order, and the same group, for each order
  -- in which the document's maps are met.
  pub collect_operations_stable :
      (es fs : List Entry) (ops : List Operation)
      → Permᴰ es fs
      → build_all security name es ≡ ok ops
      → NoTies ops
      → (collect_operations security name es ≡ ok (routed (sort_ops ops)))
        × (collect_operations security name fs ≡ ok (routed (sort_ops ops)))
  unfolding collect_operations
  collect_operations_stable es fs ops p h t =
      let (ops', h', q) = build_all-Permᴰ es fs ops p h in
      (ap finished h, ap finished h' ∙ rw (sym (sort_ops_of_Permᴰ ops ops' q t)) refl)
