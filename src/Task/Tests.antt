-- ===== src/Task/Tests.antt =====
-- Task IDs of short keys.
use go_skeleton.Base.{ℕ, zero, suc, ◌≤◌, ◌≡◌, refl, [], ◌∷◌, length, All, arith}
use go_skeleton.Base.Text.{Bytes, codes, join}
use go_skeleton.Task.{max_task_id_length, build_task_id}
use go_skeleton.Task.Ids.{build_task_id_injective, IsDigest, IsByte}

-- A digest of the right size.
abbrev zeros : ℕ → Bytes
zeros zero = []
zeros (suc n) = 0 ∷ zeros n

zeros-IsByte : (n : ℕ) → All IsByte (zeros n)
zeros-IsByte zero = tt
zeros-IsByte (suc n) = (omega arith, zeros-IsByte n)

digest : IsDigest (λ s. zeros 32)
digest s = (refl, zeros-IsByte 32)

shipped :
    build_task_id (λ s. zeros 32) (codes "order") (codes "shipped" ∷ codes "9" ∷ [])
    ≡ codes "order:shipped:9"
unfolding build_task_id join
shipped = refl

one_id :
    build_task_id (λ s. zeros 32) (codes "order:9") []
    ≡ build_task_id (λ s. zeros 32) (codes "order") (codes "9" ∷ [])
unfolding build_task_id join
one_id = refl

both_short :
    (length (join (codes ":") (codes "order:9" ∷ [])) ≤ max_task_id_length)
    × (length (join (codes ":") (codes "order" ∷ codes "9" ∷ [])) ≤ max_task_id_length)
unfolding join
both_short = (omega arith, omega arith)

build_task_id_injective_example :
    join (codes ":") (codes "order:9" ∷ []) ≡ join (codes ":") (codes "order" ∷ codes "9" ∷ [])
unfolding join
build_task_id_injective_example =
    build_task_id_injective (λ s. zeros 32) (codes "order:9") (codes "order") [] (codes "9" ∷ [])
      digest (λ _. refl) (λ _. both_short.1, λ _. both_short.0) one_id
