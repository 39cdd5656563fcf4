-- ===== src/Scripts/Endpoint/Routes.antt =====
-- The paths of scripts/new-endpoint.go: the prefix that the paths of a resource share, the paths below it
-- as gin writes them, and the parameters of a path.
use go_skeleton.Base.{
  ℕ, ◌≡◌, refl, sym, ap, ◌∙◌, Bool, true, false, not, ◌&&◌, ◌||◌, Option, none, some, List, [], ◌∷◌,
  ◌++◌, reverse, append_assoc, append-nil, Result, ok, err, All, length, drop, if◌then◌else◌, ◌==◌,
  ==_iff, arith, Bool-cases, inl, inr,
}
use mathlib.Core.List.{reverse-reverse, reverse-append}
use go_skeleton.Base.Text.{Bytes, has_prefix, cut, cut_cons}
use go_skeleton.Scripts.Endpoint.{is_upper, is_lower, is_alnum}

unfoldable pub common_prefix : Bytes → Bytes → Bytes
common_prefix [] t = []
common_prefix (c ∷ s) [] = []
common_prefix (c ∷ s) (d ∷ t) = let rest = common_prefix s t in if c == d then c ∷ rest else []

unfoldable pub common_prefix_of : Bytes → List Bytes → Bytes
common_prefix_of prefix [] = prefix
common_prefix_of prefix (path ∷ paths) = common_prefix_of (common_prefix prefix path) paths

-- Without the part behind the last slash, if it begins with a brace; of the reversed text.
abbrev drop_parameter : Bytes → Option (Bytes × Bytes) → Bytes
drop_parameter prefix none = prefix
drop_parameter prefix (some (tail, before)) =
    if has_prefix (reverse tail) (b'{' ∷ []) then reverse before else prefix

unfoldable pub drop_slashes : Bytes → Bytes
drop_slashes [] = []
drop_slashes (c ∷ s) = let rest = drop_slashes s in if c == b'/' then rest else c ∷ s

-- strings.TrimRight(s, "/")
abbrev trim_slashes : Bytes → Bytes
trim_slashes s = reverse (drop_slashes (reverse s))

abbrev resource_prefix : Bytes → Bytes
resource_prefix prefix = trim_slashes (drop_parameter prefix (cut b'/' (reverse prefix)))

-- findResourcePrefix, of the paths of the operations.
unfoldable pub find_resource_prefix : List Bytes → Bytes
find_resource_prefix [] = []
find_resource_prefix (path ∷ paths) = resource_prefix (common_prefix_of path paths)

-- strings.TrimPrefix
abbrev pub trim_prefix : Bytes → Bytes → Bytes
trim_prefix s p = if has_prefix s p then drop (length p) s else s

abbrev has_byte : ℕ → Bytes → Bool
has_byte b [] = false
has_byte b (c ∷ s) = c == b || has_byte b s

-- Whether a parameter that has just been opened has a name and is closed.
abbrev closes : Bytes → Bool
closes [] = false
closes (c ∷ s) = not (c == b'}') && has_byte b'}' s

-- Each {name} as :name; the flag says that the text is inside of one.
unfoldable pub colons : Bool → Bytes → Bytes
colons inside [] = []
colons true (c ∷ s) = if c == b'}' then colons false s else c ∷ colons true s
colons false (c ∷ s) = if c == b'{' && closes s then b':' ∷ colons true s else c ∷ colons false s

unfoldable pub gin_path : Bytes → Bytes → Bytes
unfolding colons
gin_path path prefix = colons false (trim_prefix path prefix)

abbrev is_name_byte : ℕ → Bool
is_name_byte c = is_alnum c || c == b'_'

-- The rest of a parameter's name, if a brace ends it.
unfoldable pub name_rest : Bytes → Option Bytes
name_rest [] = none
name_rest (c ∷ s) =
    let rest = name_rest s in
    if c == b'}'
    then some []
    else if is_name_byte c
    then elim rest [ none ↦ none | some n ↦ some (c ∷ n) ]
    else none

-- pathParamRe behind an opening brace.
unfoldable pub param_name : Bytes → Option Bytes
param_name [] = none
param_name (c ∷ s) =
    if is_upper c || (is_lower c || c == b'_')
    then elim (name_rest s) [ none ↦ none | some n ↦ some (c ∷ n) ]
    else none

abbrev with_param : Option Bytes → List Bytes → List Bytes
with_param none names = names
with_param (some n) names = n ∷ names

-- The parameters of a path in their order. No match begins within another one, since a name has no brace.
unfoldable pub path_params : Bytes → List Bytes
unfolding param_name name_rest
path_params [] = []
path_params (c ∷ s) =
    let rest = path_params s in if c == b'{' then with_param (param_name s) rest else rest

-- At most one is supported; the error has their number.
unfoldable pub at_most_one : List Bytes → Result ℕ (List Bytes)
at_most_one [] = ok []
at_most_one (n ∷ []) = ok (n ∷ [])
at_most_one (n ∷ m ∷ names) = err (length (n ∷ m ∷ names))

unfoldable pub extract_path_params : Bytes → Result ℕ (List Bytes)
unfolding path_params at_most_one
extract_path_params path = at_most_one (path_params path)

-- The text begins with the prefix.
abbrev pub Begins : Bytes → Bytes → Type 0
Begins prefix s = (rest : Bytes) × (s ≡ prefix ++ rest)

Begins-trans : (p q s : Bytes) → Begins p q → Begins q s → Begins p s
Begins-trans p q s (a, e) (b, f) = (a ++ b, f ∙ ap (λ x. x ++ b) e ∙ append_assoc p a b)

common_prefix-Begins : (s t : Bytes) → Begins (common_prefix s t) s × Begins (common_prefix s t) t
unfolding common_prefix
common_prefix-Begins [] t = (([], refl), (t, refl))
common_prefix-Begins (c ∷ s) [] = ((c ∷ s, refl), ([], refl))
common_prefix-Begins (c ∷ s) (d ∷ t) = elim (Bool-cases (c == d)) [
  | inl e ↦
      let ((a, f), (b, g)) = common_prefix-Begins s t in
      let same = (==_iff c d).0 e in
      rw e ((a, ap (λ x. c ∷ x) f), (b, rw (sym same) (ap (λ x. c ∷ x) g)))
  | inr e ↦ rw e ((c ∷ s, refl), (d ∷ t, refl))
]

common_prefix_of-Begins :
    (prefix : Bytes) (paths : List Bytes)
    → Begins (common_prefix_of prefix paths) prefix
      × All (Begins (common_prefix_of prefix paths)) paths
unfolding common_prefix_of
common_prefix_of-Begins prefix [] = (([], sym (append-nil prefix)), tt)
common_prefix_of-Begins prefix (path ∷ paths) =
    let (a, b) = common_prefix-Begins prefix path in
    let (h, rest) = common_prefix_of-Begins (common_prefix prefix path) paths in
    (Begins-trans _ _ _ h a, (Begins-trans _ _ _ h b, rest))

-- The part before the end of a text, by its reverse.
Begins-reverse : (s a b : Bytes) → reverse s ≡ a ++ b → Begins (reverse b) s
Begins-reverse s a b e = (reverse a, sym (reverse-reverse s) ∙ ap reverse e ∙ reverse-append a b)

cut_cons_lem :
    (c : ℕ) (o : Option (Bytes × Bytes)) (a b : Bytes)
    → cut_cons c o ≡ some (a, b)
    → (a' : Bytes) × (a ≡ c ∷ a') × (o ≡ some (a', b))
cut_cons_lem c none a b h = cc
cut_cons_lem c (some (a', b')) a b h =
    let p : c ∷ a' ≡ a = cc in let q : b' ≡ b = cc in (a', sym p, rw q refl)

cut_lem : (sep : ℕ) (s a b : Bytes) → cut sep s ≡ some (a, b) → s ≡ (a ++ sep ∷ []) ++ b
unfolding cut
cut_lem sep [] a b h = cc
cut_lem sep (c ∷ s) a b h = elim (Bool-cases (c == sep)) [
  | inl e ↦
      let h' : some ([], s) ≡ some (a, b) = rw e at h in
      let p : [] ≡ a = cc in let q : s ≡ b = cc in rw (sym p, sym q, (==_iff c sep).0 e) refl
  | inr e ↦
      let h' : cut_cons c (cut sep s) ≡ some (a, b) = rw e at h in
      let (a', p, q) = cut_cons_lem c (cut sep s) a b h' in
      rw p (ap (λ x. c ∷ x) (cut_lem sep s a' b q))
]

drop_slashes_lem : (s : Bytes) → (a : Bytes) × (s ≡ a ++ drop_slashes s)
unfolding drop_slashes
drop_slashes_lem [] = ([], refl)
drop_slashes_lem (c ∷ s) = elim (Bool-cases (c == b'/')) [
  | inl e ↦ let (a, f) = drop_slashes_lem s in rw e (c ∷ a, ap (λ x. c ∷ x) f)
  | inr e ↦ rw e ([], refl)
]

trim_slashes-Begins : (s : Bytes) → Begins (trim_slashes s) s
trim_slashes-Begins s =
    let (a, e) = drop_slashes_lem (reverse s) in Begins-reverse s a (drop_slashes (reverse s)) e

drop_parameter-Begins :
    (prefix : Bytes) (o : Option (Bytes × Bytes))
    → cut b'/' (reverse prefix) ≡ o
    → Begins (drop_parameter prefix o) prefix
drop_parameter-Begins prefix none e = ([], sym (append-nil prefix))
drop_parameter-Begins prefix (some (tail, before)) e =
    elim (Bool-cases (has_prefix (reverse tail) (b'{' ∷ []))) [
      | inl t ↦ rw t (
          Begins-reverse prefix (tail ++ b'/' ∷ []) before
            (cut_lem b'/' (reverse prefix) tail before e))
      | inr t ↦ rw t ([], sym (append-nil prefix))
    ]

resource_prefix-Begins : (prefix : Bytes) → Begins (resource_prefix prefix) prefix
resource_prefix-Begins prefix =
    let o = cut b'/' (reverse prefix) in
    Begins-trans _ (drop_parameter prefix o) prefix (trim_slashes-Begins (drop_parameter prefix o))
      (drop_parameter-Begins prefix o refl)

-- What gin_path makes of a path is the rest of it behind the prefix, with the parameters rewritten.
unfoldable pub Below : Bytes → Bytes → Type 0
Below prefix path =
    (rest : Bytes) × (path ≡ prefix ++ rest) × (gin_path path prefix ≡ colons false rest)

has_prefix-append : (p r : Bytes) → has_prefix (p ++ r) p ≡ true
unfolding has_prefix
has_prefix-append [] [] = refl
has_prefix-append [] (c ∷ r) = refl
has_prefix-append (c ∷ p) r = ground (arith, has_prefix-append p r)

drop-append : (p r : Bytes) → drop (length p) (p ++ r) ≡ r
drop-append [] r = refl
drop-append (c ∷ p) r = drop-append p r

Begins-Below : (prefix path : Bytes) → Begins prefix path → Below prefix path
unfolding Below gin_path
Begins-Below prefix path (rest, e) = (
  rest,
  e,
  rw e (rw (has_prefix-append prefix rest) (ap (colons false) (drop-append prefix rest))),
)

All-Below :
    (p q : Bytes) (paths : List Bytes) → Begins p q → All (Begins q) paths → All (Below p) paths
All-Below p q [] h k = tt
All-Below p q (path ∷ paths) h (b, k) =
    (Begins-Below p path (Begins-trans p q path h b), All-Below p q paths h k)

-- The path of every operation of a resource begins with the prefix of the group, and its route in the group
-- is what follows the prefix, with the parameters as gin writes them.
pub find_resource_prefix_lem : (paths : List Bytes) → All (Below (find_resource_prefix paths)) paths
unfolding find_resource_prefix
find_resource_prefix_lem [] = tt
find_resource_prefix_lem (path ∷ paths) =
    let q = common_prefix_of path paths in
    let (h, rest) = common_prefix_of-Begins path paths in
    All-Below (resource_prefix q) q (path ∷ paths) (resource_prefix-Begins q) (h, rest)
