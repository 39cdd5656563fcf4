-- ===== src/Scripts/Architecture/Clean.antt =====
-- When a walk of scripts/architecture-verify.go finds nothing.
use go_skeleton.Base.{
  ◌≡◌, ◌↔◌, refl, ap, Option, none, some, List, [], ◌∷◌, ◌++◌, Result, ok, err, All,
}
use go_skeleton.Base.Text.{Bytes}
use go_skeleton.Scripts.GoFiles.{GoFile, Node, both, walk_go_files}
use go_skeleton.Scripts.GoFiles.Walk.{AllUnder, AllFiles, Walked, walk_iff}
use go_skeleton.Scripts.Architecture.{
  Violation, Checked, scan_items, scan_files, walk_items, gather, with_hit,
}

-- Nothing is found, and there is no error.
abbrev pub Clean : Checked → Type 0
Clean r = r ≡ ok []

pub append-nil_iff : (xs ys : List Violation) → (xs ++ ys ≡ []) ↔ (xs ≡ []) × (ys ≡ [])
append-nil_iff [] ys = (λ h. (refl, h), λ h. h.1)
append-nil_iff (x ∷ xs) ys = (λ h. cc, λ h. cc)

pub unwrap : {xs ys : List Violation} → ◌≡◌ {A = Checked} (ok xs) (ok ys) → xs ≡ ys
unwrap h = cc

both-Clean : (r s : Checked) → Clean (both r s) ↔ Clean r × Clean s
both-Clean (err e) s = (λ h. cc, λ h. cc)
both-Clean (ok xs) (err e) = (λ h. cc, λ h. cc)
both-Clean (ok xs) (ok ys) = (
  λ h. let (p, q) = (append-nil_iff xs ys).0 (unwrap h) in (ap ok p, ap ok q),
  λ (p, q). ap ok ((append-nil_iff xs ys).1 (unwrap p, unwrap q)),
)

pub with_hit_iff :
    (o : Option Violation) (rest : List Violation)
    → (with_hit o rest ≡ []) ↔ (o ≡ none) × (rest ≡ [])
with_hit_iff none rest = (λ h. (refl, h), λ h. h.1)
with_hit_iff (some v) rest = (λ h. cc, λ h. cc)

pub gather_iff {ℓ} :
    {A : Type ℓ} (check : A → Checked) (P : A → Type 0)
    → ((x : A) → Clean (check x) ↔ P x)
    → (xs : List A) → Clean (gather check xs) ↔ All P xs
unfolding gather
gather_iff check P h [] = (λ e. tt, λ e. refl)
gather_iff check P h (x ∷ xs) =
    let b = both-Clean (check x) (gather check xs) in
    let rest = gather_iff check P h xs in
    (λ e. ((h x).0 (b.0 e).0, rest.0 (b.0 e).1), λ (p, q). b.1 ((h x).1 p, rest.1 q))

-- A scan finds nothing exactly if its items satisfy what the rule asks of one.
module _ {X : Type 0} (items : GoFile → List X) (hit : Bytes → X → Option Violation)
    (P : Bytes → X → Type 0)
    (hit_iff : (path : Bytes) (x : X) → (hit path x ≡ none) ↔ P path x) where
  scan_items_iff :
      (path : Bytes) (xs : List X) → (scan_items items hit path xs ≡ []) ↔ All (P path) xs
  unfolding scan_items
  scan_items_iff path [] = (λ e. tt, λ e. refl)
  scan_items_iff path (x ∷ xs) =
      let i = with_hit_iff (hit path x) (scan_items items hit path xs) in
      let h = hit_iff path x in
      let rest = scan_items_iff path xs in
      (λ e. (h.0 (i.0 e).0, rest.0 (i.0 e).1), λ (p, q). i.1 (h.1 p, rest.1 q))

  scan_files_iff :
      (fs : List (Bytes × GoFile))
      → (scan_files items hit fs ≡ []) ↔ AllFiles (λ path f. All (P path) (items f)) fs
  unfolding scan_files
  scan_files_iff [] = (λ e. tt, λ e. refl)
  scan_files_iff ((path, f) ∷ fs) =
      let b = append-nil_iff (scan_items items hit path (items f)) (scan_files items hit fs) in
      let here = scan_items_iff path (items f) in
      let rest = scan_files_iff fs in
      (λ h. (here.0 (b.0 h).0, rest.0 (b.0 h).1), λ (p, q). b.1 (here.1 p, rest.1 q))

  abbrev scanned : Result Bytes (List (Bytes × GoFile)) → Checked
  scanned r = elim r [ ok fs ↦ ok (scan_files items hit fs) | err e ↦ err e ]

  scanned_iff :
      (r : Result Bytes (List (Bytes × GoFile)))
      → Clean (scanned r) ↔ Walked (λ path f. All (P path) (items f)) r
  scanned_iff (err e) = (λ h. cc, λ h. cc)
  scanned_iff (ok fs) = let i = scan_files_iff fs in (λ h. i.0 (unwrap h), λ h. ap ok (i.1 h))

  pub walk_items_iff :
      (root : Node) (path : Bytes)
      → Clean (walk_items items hit root path)
        ↔ AllUnder (λ path f. All (P path) (items f)) root path
  unfolding walk_items
  walk_items_iff root path =
      let i = scanned_iff (walk_go_files root path) in
      let w = walk_iff (λ path f. All (P path) (items f)) root path in
      (λ h. w.0 (i.0 h), λ h. i.1 (w.1 h))
