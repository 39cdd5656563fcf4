-- ===== src/Base/Dict.antt =====
-- Go maps with string keys, as association lists. The code never depends on the order of a map.
use mathlib.Core.Path.{◌≡◌, refl}
use mathlib.Core.Logic.{inl, inr}
use mathlib.Core.Bool.{Bool, false}
use mathlib.Core.Option.{Option, none, some}
use mathlib.Core.List.{List, [], ◌∷◌}
use native.Mathlib.Omega.{arith}
use go_skeleton.Base.Tests.{if◌then◌else◌, Bool-cases}
use go_skeleton.Base.Text.{Bytes, beq, beq_iff, beq_self}

abbrev pub Dict {ℓ} : Type ℓ → Type ℓ
Dict V = List (Bytes × V)

-- What `keep` leaves of an entry.
abbrev pub kept {ℓ} : {V : Type ℓ} → (V → Bool) → Option V → Option V
kept p none = none
kept p (some v) = if p v then some v else none

swap : (i k : Bytes) → beq i k ≡ false → beq k i ≡ false
swap i k h = ground (arith, beq_iff i k, beq_iff k i)

module _ {ℓ} {V : Type ℓ} where
  unfoldable pub lookup : Bytes → Dict V → Option V
  lookup k [] = none
  lookup k ((j, v) ∷ m) = if beq j k then some v else lookup k m

  -- `m[k] = v`
  unfoldable pub insert : Bytes → V → Dict V → Dict V
  insert k v [] = (k, v) ∷ []
  insert k v ((j, w) ∷ m) = if beq j k then (k, v) ∷ m else (j, w) ∷ insert k v m

  -- `for k, v := range m { if !p(v) { delete(m, k) } }`
  unfoldable pub keep : (V → Bool) → Dict V → Dict V
  keep p [] = []
  keep p ((j, v) ∷ m) = let rest = keep p m in if p v then (j, v) ∷ rest else rest

  -- No key stands twice.
  abbrev pub IsMap : Dict V → Type ℓ
  IsMap [] = Unit
  IsMap ((k, v) ∷ m) = (lookup k m ≡ none) × IsMap m

  pub lookup-insert :
      (k j : Bytes) (v : V) (m : Dict V)
      → lookup j (insert k v m) ≡ (if beq k j then some v else lookup j m)
  unfolding lookup insert
  lookup-insert k j v [] = refl
  lookup-insert k j v ((i, w) ∷ m) =
      ground (arith, beq_iff k j, beq_iff i k, beq_iff i j, lookup-insert k j v m)

  pub insert-IsMap : (k : Bytes) (v : V) (m : Dict V) → IsMap m → IsMap (insert k v m)
  unfolding lookup insert
  insert-IsMap k v [] h = (refl, tt)
  insert-IsMap k v ((i, w) ∷ m) (fresh, h) = elim (Bool-cases (beq i k)) [
    | inl same ↦ rw same (rw (← (beq_iff i k).0 same) fresh, h)
    | inr other ↦ rw other (rw (lookup-insert k i v m, swap i k other) fresh, insert-IsMap k v m h)
  ]

  keep-none :
      (p : V → Bool) (k : Bytes) (m : Dict V) → lookup k m ≡ none → lookup k (keep p m) ≡ none
  unfolding lookup keep
  keep-none p k [] h = refl
  keep-none p k ((j, v) ∷ m) h = ground (arith, keep-none p k m)

  pub lookup-keep :
      (p : V → Bool) (k : Bytes) (m : Dict V) → IsMap m → lookup k (keep p m) ≡ kept p (lookup k m)
  unfolding lookup keep
  lookup-keep p k [] h = refl
  lookup-keep p k ((j, v) ∷ m) (fresh, h) =
      ground (arith, lookup-keep p k m h, keep-none p j m fresh, beq_iff j k)

  pub keep-IsMap : (p : V → Bool) (m : Dict V) → IsMap m → IsMap (keep p m)
  unfolding keep
  keep-IsMap p [] h = tt
  keep-IsMap p ((j, v) ∷ m) (fresh, h) = elim (Bool-cases (p v)) [
    | inl e ↦ rw e (keep-none p j m fresh, keep-IsMap p m h)
    | inr e ↦ rw e (keep-IsMap p m h)
  ]

  pub lookup-insert_self : (k : Bytes) (v : V) (m : Dict V) → lookup k (insert k v m) ≡ some v
  lookup-insert_self k v m = simp (lookup-insert, beq_self)

  pub stored_of_lookup-insert :
      (k : Bytes) (v w : V) (m : Dict V) → lookup k (insert k v m) ≡ some w → v ≡ w
  stored_of_lookup-insert k v w m h = cc (lookup-insert_self k v m)
