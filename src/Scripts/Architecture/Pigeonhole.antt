-- ===== src/Scripts/Architecture/Pigeonhole.antt =====
-- A list of different keys of a table is at most as long as the table.
use go_skeleton.Base.{
  suc, ◌≤◌, ◌≡◌, refl, false, some, List, [], ◌∷◌, length, All, arith, inl, inr, if◌then◌else◌,
  Bool-cases,
}
use go_skeleton.Base.Text.{Bytes, beq, beq_iff}
use go_skeleton.Base.Dict.{Dict, lookup}
use go_skeleton.Scripts.Architecture.{mem}

-- No name stands twice.
abbrev pub Different : List Bytes → Type 0
Different [] = Unit
Different (n ∷ ns) = (mem n ns ≡ false) × Different ns

abbrev remove : Bytes → List Bytes → List Bytes
remove k [] = []
remove k (n ∷ ns) = let rest = remove k ns in if beq n k then rest else n ∷ rest

mem-remove : (x k : Bytes) (ns : List Bytes) → mem x ns ≡ false → mem x (remove k ns) ≡ false
mem-remove x k [] h = refl
mem-remove x k (n ∷ ns) h = ground (arith, mem-remove x k ns)

remove-Different : (k : Bytes) (ns : List Bytes) → Different ns → Different (remove k ns)
remove-Different k [] h = tt
remove-Different k (n ∷ ns) (fresh, h) = elim (Bool-cases (beq n k)) [
  | inl e ↦ rw e (remove-Different k ns h)
  | inr e ↦ rw e (mem-remove n k ns fresh, remove-Different k ns h)
]

length-remove_other :
    (k : Bytes) (ns : List Bytes) → mem k ns ≡ false → length (remove k ns) ≡ length ns
length-remove_other k [] h = refl
length-remove_other k (n ∷ ns) h = ground (arith, length-remove_other k ns)

length-remove :
    (k : Bytes) (ns : List Bytes) → Different ns → length ns ≤ suc (length (remove k ns))
length-remove k [] h = omega arith
length-remove k (n ∷ ns) (fresh, h) =
    ground (arith, length-remove k ns h, length-remove_other k ns, beq_iff n k)

module _ {V : Type 0} where
  abbrev pub Known : Dict V → List Bytes → Type 0
  Known m = All (λ n. (v : V) × (lookup n m ≡ some v))

  Known-remove :
      (k : Bytes) (v : V) (m : Dict V) (ns : List Bytes)
      → Known ((k, v) ∷ m) ns
      → Known m (remove k ns)
  unfolding lookup
  Known-remove k v m [] h = tt
  Known-remove k v m (n ∷ ns) ((w, e), h) = elim (Bool-cases (beq n k)) [
    | inl same ↦ rw same (Known-remove k v m ns h)
    | inr other ↦
        rw other ((w, ground (arith, e, beq_iff n k, beq_iff k n)), Known-remove k v m ns h)
  ]

  pub length-Known :
      (m : Dict V) (ns : List Bytes) → Different ns → Known m ns → length ns ≤ length m
  unfolding lookup
  length-Known [] [] d h = omega arith
  length-Known [] (n ∷ ns) d ((w, e), h) = cc
  length-Known ((k, v) ∷ m) ns d h = omega (
    arith,
    length-remove k ns d,
    length-Known m (remove k ns) (remove-Different k ns d) (Known-remove k v m ns h),
  )
