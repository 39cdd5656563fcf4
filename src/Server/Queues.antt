-- ===== src/Server/Queues.antt =====
-- queueNames of internal/server.go: the names of the queues in an order that does not depend on the map's.
use go_skeleton.Base.{
  ℕ, ◌≡◌, ◌⊎◌, inl, inr, refl, ap, ◌∙◌, subst, map, Bool, true, false, List, [], ◌∷◌, if◌then◌else◌,
  ltb, ◌==◌, arith, Bool-cases,
}
use mathlib.Core.List.{Permᴰ}
use go_skeleton.Base.Int.{ℤ}
use go_skeleton.Base.Text.{Bytes}
use go_skeleton.Base.Dict.{Dict}

-- The order of Go's strings.
unfoldable pub string_leb : Bytes → Bytes → Bool
string_leb [] t = true
string_leb (c ∷ s) [] = false
string_leb (c ∷ s) (d ∷ t) =
    let rest = string_leb s t in if ltb c d then true else if c == d then rest else false

unfoldable pub insert_name : Bytes → List Bytes → List Bytes
insert_name x [] = x ∷ []
insert_name x (y ∷ ys) =
    let rest = insert_name x ys in if string_leb x y then x ∷ y ∷ ys else y ∷ rest

abbrev pub names_of : Dict ℤ → List Bytes
names_of [] = []
names_of ((name, weight) ∷ queues) = name ∷ names_of queues

-- slices.Sorted
unfoldable pub sorted : List Bytes → List Bytes
unfolding insert_name
sorted [] = []
sorted (x ∷ xs) = insert_name x (sorted xs)

unfoldable pub queue_names : Dict ℤ → List Bytes
unfolding sorted
queue_names queues = sorted (names_of queues)

pub string_leb_total : (s t : Bytes) → (string_leb s t ≡ true) ⊎ (string_leb t s ≡ true)
unfolding string_leb
string_leb_total [] t = inl refl
string_leb_total (c ∷ s) [] = inr refl
string_leb_total (c ∷ s) (d ∷ t) = ground (arith, string_leb_total s t)

cons_cong : (c d : ℕ) (s t : Bytes) → c ≡ d → s ≡ t → c ∷ s ≡ d ∷ t
cons_cong c d s t p q = cc

pub string_leb_antisym : (s t : Bytes) → string_leb s t ≡ true → string_leb t s ≡ true → s ≡ t
unfolding string_leb
string_leb_antisym [] [] p q = refl
string_leb_antisym [] (d ∷ t) p q = cc
string_leb_antisym (c ∷ s) [] p q = cc
string_leb_antisym (c ∷ s) (d ∷ t) p q =
    cons_cong c d s t (ground arith) (string_leb_antisym s t (ground arith) (ground arith))

pub string_leb_trans :
    (s t u : Bytes) → string_leb s t ≡ true → string_leb t u ≡ true → string_leb s u ≡ true
unfolding string_leb
string_leb_trans [] t u p q = refl
string_leb_trans (c ∷ s) [] u p q = cc
string_leb_trans (c ∷ s) (d ∷ t) [] p q = cc
string_leb_trans (c ∷ s) (d ∷ t) (e ∷ u) p q = ground (arith, string_leb_trans s t u)

insert_name_comm :
    (a b : Bytes) (xs : List Bytes)
    → insert_name a (insert_name b xs) ≡ insert_name b (insert_name a xs)
unfolding insert_name
insert_name_comm a b [] = elim (Bool-cases (string_leb a b)) [
  | inl p ↦ elim (Bool-cases (string_leb b a)) [
    | inl q ↦ rw (string_leb_antisym a b p q) refl
    | inr q ↦ rw (p, q) refl
  ]
  | inr p ↦ elim (string_leb_total a b) [ inl q ↦ cc | inr q ↦ rw (p, q) refl ]
]
insert_name_comm a b (y ∷ ys) = ground (
  arith,
  insert_name_comm a b ys,
  string_leb_total a b,
  string_leb_antisym a b,
  string_leb_trans a b y,
  string_leb_trans b a y,
)

sorted_of_Permᴰ : (xs ys : List Bytes) → Permᴰ xs ys → sorted xs ≡ sorted ys
unfolding sorted
sorted_of_Permᴰ xs ys Permᴰ.nil = refl
sorted_of_Permᴰ xs ys (Permᴰ.cons {l₁ = l} {l₂ = m} e p) = rw (e, sorted_of_Permᴰ l m p) refl
sorted_of_Permᴰ xs ys (Permᴰ.swap {a' = a'} {b' = b'} {l = l} e f) =
    rw (e, f) (insert_name_comm b' a' (sorted l))
sorted_of_Permᴰ xs ys (Permᴰ.trans {l₁ = l} {l₂ = m} {l₃ = n} p q) =
    sorted_of_Permᴰ l m p ∙ sorted_of_Permᴰ m n q

names_of-Permᴰ : (m m' : Dict ℤ) → Permᴰ m m' → Permᴰ (names_of m) (names_of m')
names_of-Permᴰ m m' Permᴰ.nil = Permᴰ.nil
names_of-Permᴰ m m' (Permᴰ.cons {l₁ = k} {l₂ = l} e p) =
    Permᴰ.cons (ap (λ (q : Bytes × ℤ). q.0) e) (names_of-Permᴰ k l p)
names_of-Permᴰ m m' (Permᴰ.swap e f) =
    Permᴰ.swap (ap (λ (q : Bytes × ℤ). q.0) e) (ap (λ (q : Bytes × ℤ). q.0) f)
names_of-Permᴰ m m' (Permᴰ.trans {l₁ = k} {l₂ = l} {l₃ = n} p q) =
    Permᴰ.trans (names_of-Permᴰ k l p) (names_of-Permᴰ l n q)

-- Each name comes before the next one, or is the same.
pub data IsOrdered : List Bytes → Type 0 where
  none_left : IsOrdered []
  one_left : (x : Bytes) → IsOrdered (x ∷ [])
  in_order :
      (x y : Bytes) (ys : List Bytes)
      → string_leb x y ≡ true
      → IsOrdered (y ∷ ys)
      → IsOrdered (x ∷ y ∷ ys)

insert_after :
    (a x y : Bytes) (ys : List Bytes)
    → string_leb x y ≡ true
    → string_leb a x ≡ false
    → IsOrdered (insert_name a (y ∷ ys))
    → IsOrdered (x ∷ insert_name a (y ∷ ys))
unfolding insert_name
insert_after a x y ys p q h = elim (Bool-cases (string_leb a y)) [
  | inl r ↦ rw r (in_order x a (y ∷ ys) (ground (arith, string_leb_total a x)) (rw r at h))
  | inr r ↦ rw r (in_order x y (insert_name a ys) p (rw r at h))
]

insert_name-IsOrdered : (a : Bytes) (xs : List Bytes) → IsOrdered xs → IsOrdered (insert_name a xs)
unfolding insert_name
insert_name-IsOrdered a xs none_left = one_left a
insert_name-IsOrdered a xs (one_left x) = elim (Bool-cases (string_leb a x)) [
  | inl p ↦ rw p (in_order a x [] p (one_left x))
  | inr p ↦ rw p (in_order x a [] (ground (arith, string_leb_total a x)) (one_left a))
]
insert_name-IsOrdered a xs (in_order x y ys p h) = elim (Bool-cases (string_leb a x)) [
  | inl q ↦ rw q (in_order a x (y ∷ ys) q (in_order x y ys p h))
  | inr q ↦ let tail = insert_after a x y ys p q (insert_name-IsOrdered a (y ∷ ys) h) in rw q tail
]

sorted-IsOrdered : (xs : List Bytes) → IsOrdered (sorted xs)
unfolding sorted
sorted-IsOrdered [] = none_left
sorted-IsOrdered (x ∷ xs) = insert_name-IsOrdered x (sorted xs) (sorted-IsOrdered xs)

insert_name-Permᴰ : (a : Bytes) (xs : List Bytes) → Permᴰ (insert_name a xs) (a ∷ xs)
unfolding insert_name
insert_name-Permᴰ a [] = Permᴰ.cons refl Permᴰ.nil
insert_name-Permᴰ a (y ∷ ys) = elim (Bool-cases (string_leb a y)) [
  | inl p ↦ rw p (same (a ∷ y ∷ ys))
  | inr p ↦ rw p (Permᴰ.trans (Permᴰ.cons refl (insert_name-Permᴰ a ys)) (Permᴰ.swap refl refl))
]
  where
    same : (xs : List Bytes) → Permᴰ xs xs
    same [] = Permᴰ.nil
    same (x ∷ xs) = Permᴰ.cons refl (same xs)

sorted-Permᴰ : (xs : List Bytes) → Permᴰ (sorted xs) xs
unfolding sorted
sorted-Permᴰ [] = Permᴰ.nil
sorted-Permᴰ (x ∷ xs) =
    Permᴰ.trans (insert_name-Permᴰ x (sorted xs)) (Permᴰ.cons refl (sorted-Permᴰ xs))

-- queueNames gives the names of the map, each as often as the map has it, in rising order; and the same
-- list for each order in which the entries of the map are met, so that a restart does not change it.
pub queue_names_stable :
    (queues queues' : Dict ℤ)
    → Permᴰ queues queues'
    → Permᴰ (queue_names queues) (map (λ (q : Bytes × ℤ). q.0) queues)
      × IsOrdered (queue_names queues)
      × (queue_names queues ≡ queue_names queues')
unfolding queue_names
queue_names_stable queues queues' p = (
  subst (Permᴰ (sorted (names_of queues))) (names_of_lem queues) (sorted-Permᴰ (names_of queues)),
  sorted-IsOrdered (names_of queues),
  sorted_of_Permᴰ (names_of queues) (names_of queues') (names_of-Permᴰ queues queues' p),
)
  where
    names_of_lem : (qs : Dict ℤ) → names_of qs ≡ map (λ (q : Bytes × ℤ). q.0) qs
    names_of_lem [] = refl
    names_of_lem ((name, weight) ∷ qs) = ap (λ (l : List Bytes). name ∷ l) (names_of_lem qs)
