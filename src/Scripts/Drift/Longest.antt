-- ===== src/Scripts/Drift/Longest.antt =====
-- scripts/new-endpoint-check.go puts an operation under the longest of the known names that its id has.
use go_skeleton.Base.{
  ◌≤◌, ◌≡◌, subst, true, false, ◌⊎◌, inl, inr, some, List, [], ◌∷◌, length, All, arith, Bool-cases,
}
use go_skeleton.Base.Text.{Bytes}
use go_skeleton.Scripts.Drift.{matches, find_known, name_before, insert_known, scan_known_resources}

abbrev Shorter : Bytes → List Bytes → Type 0
Shorter a = All (λ k. length k ≤ length a)

-- No name is longer than one before it.
abbrev Falling : List Bytes → Type 0
Falling [] = Unit
Falling (a ∷ names) = Shorter a names × Falling names

before_le : (a b : Bytes) → name_before a b ≡ true → length b ≤ length a
unfolding name_before
before_le a b h = ground (arith, h)

after_le : (a b : Bytes) → name_before a b ≡ false → length a ≤ length b
unfolding name_before
after_le a b h = ground (arith, h)

Shorter-le :
    (a b : Bytes) (names : List Bytes) → length b ≤ length a → Shorter b names → Shorter a names
Shorter-le a b [] h k = tt
Shorter-le a b (c ∷ names) h (p, k) = (omega (arith, h, p), Shorter-le a b names h k)

module _ (P : Bytes → Type 0) where
  All-insert : (a : Bytes) (names : List Bytes) → P a → All P names → All P (insert_known a names)
  unfolding insert_known
  All-insert a [] p h = (p, tt)
  All-insert a (b ∷ names) p (q, h) = elim (Bool-cases (name_before a b)) [
    | inl e ↦ rw e (p, (q, h))
    | inr e ↦ rw e (q, All-insert a names p h)
  ]

  All-inserted : (a : Bytes) (names : List Bytes) → All P (insert_known a names) → P a × All P names
  unfolding insert_known
  All-inserted a [] (p, h) = (p, tt)
  All-inserted a (b ∷ names) h = elim (Bool-cases (name_before a b)) [
    | inl e ↦ rw e at h
    | inr e ↦ let (q, h') = rw e at h in let (p, rest) = All-inserted a names h' in (p, (q, rest))
  ]

  All-scanned : (names : List Bytes) → All P (scan_known_resources names) → All P names
  unfolding scan_known_resources
  All-scanned [] h = tt
  All-scanned (a ∷ names) h =
      let (p, rest) = All-inserted a (scan_known_resources names) h in (p, All-scanned names rest)

Falling-insert : (a : Bytes) (names : List Bytes) → Falling names → Falling (insert_known a names)
unfolding insert_known
Falling-insert a [] h = (tt, tt)
Falling-insert a (b ∷ names) (s, h) = elim (Bool-cases (name_before a b)) [
  | inl e ↦ let le = before_le a b e in rw e ((le, Shorter-le a b names le s), (s, h))
  | inr e ↦
      rw e
        (All-insert (λ k. length k ≤ length b) a names (after_le a b e) s, Falling-insert a names h)
]

Falling-scan : (names : List Bytes) → Falling (scan_known_resources names)
unfolding scan_known_resources
Falling-scan [] = tt
Falling-scan (a ∷ names) = Falling-insert a (scan_known_resources names) (Falling-scan names)

-- A name that the id does not have, or that is no longer than `n`.
abbrev pub AtMost : Bytes → Bytes → Bytes → Type 0
AtMost id n k = (matches id k ≡ false) ⊎ (length k ≤ length n)

All-AtMost : (id n : Bytes) (names : List Bytes) → Shorter n names → All (AtMost id n) names
All-AtMost id n [] h = tt
All-AtMost id n (k ∷ names) (p, h) = (inr p, All-AtMost id n names h)

found-AtMost :
    (id n : Bytes) (names : List Bytes)
    → Falling names
    → find_known id names ≡ some n
    → All (AtMost id n) names
unfolding find_known
found-AtMost id n [] h e = cc
found-AtMost id n (a ∷ names) (s, h) e = elim (Bool-cases (matches id a)) [
  | inl p ↦
      let e' : some a ≡ some n = rw p at e in
      let same : a ≡ n = cc in
      subst (λ x. AtMost id x a × All (AtMost id x) names) same
        (inr (omega arith), All-AtMost id a names s)
  | inr p ↦ (inl p, found-AtMost id n names h (rw p at e))
]

-- The name that is found for an id is the longest of those that it has, in whatever order the code's names
-- are met.
pub find_known_longest :
    (id n : Bytes) (names : List Bytes)
    → find_known id (scan_known_resources names) ≡ some n
    → All (AtMost id n) names
find_known_longest id n names e =
    All-scanned (AtMost id n) names
      (found-AtMost id n (scan_known_resources names) (Falling-scan names) e)
