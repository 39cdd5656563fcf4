-- ===== src/Scripts/Upgrade/Choice.antt =====
-- Which updates scripts/mod-upgrade.go applies.
use go_skeleton.Base.{
  Bool-cases, ◌||◌, if◌then◌else◌, ◌≢◌, ◌≡◌, refl, sym, ap, ◌∙◌, subst, Bool, true, false, inl, inr,
  Option, none, some, List, [], ◌∷◌,
}
use go_skeleton.Base.Text.{codes, beq, beq_iff, beq_self, is_empty, Bytes}
use go_skeleton.Scripts.Upgrade.{
  Upgrade, ListedModule, patch_minor, list_updates, add_update, version_major,
  is_major_or_unstable_bump,
}

-- The versions are of one major version, which is known and not v0.
abbrev pub WithinMajor : Upgrade → Type 0
WithinMajor u =
    (version_major u.cur ≡ version_major u.next)
    × (is_empty (version_major u.cur) ≡ false)
    × (version_major u.cur ≢ codes "v0")

no_bump :
    (a b c d : Bool)
    → (if a || b then true else if c then d else true) ≡ false
    → (a ≡ false) × (c ≡ true) × (d ≡ false)
no_bump true b c d h = cc
no_bump false true c d h = cc
no_bump false false true d h = (refl, refl, h)
no_bump false false false d h = cc

bump-WithinMajor : (u : Upgrade) → is_major_or_unstable_bump u.cur u.next ≡ false → WithinMajor u
unfolding is_major_or_unstable_bump
bump-WithinMajor u h =
    let major = version_major u.cur in
    let (known, same, stable) = no_bump (is_empty major) _ _ (beq major (codes "v0")) h in
    (
      (beq_iff major (version_major u.next)).0 same,
      known,
      λ e. let v0 = (beq_iff major (codes "v0")).1 e in cc,
    )

WithinMajor-bump : (u : Upgrade) → WithinMajor u → is_major_or_unstable_bump u.cur u.next ≡ false
unfolding is_major_or_unstable_bump
WithinMajor-bump u (same, known, stable) =
    elim (Bool-cases (beq (version_major u.cur) (codes "v0"))) [
      | inl e ↦ absurd (stable ((beq_iff (version_major u.cur) (codes "v0")).0 e))
      | inr e ↦
          let equal : beq (version_major u.cur) (version_major u.next) ≡ true =
            (beq_iff (version_major u.cur) (version_major u.next)).1 same in
          rw (sym same, known, e, beq_self (version_major u.cur)) refl
    ]

-- The update of a module, if there is one.
abbrev pub to_version : ListedModule → Bytes → Upgrade
to_version m next = record { path = m.path; cur = m.version; next = next }

-- The updates of the direct modules within a major version, in the order of the list, and no others.
pub data Chosen : List ListedModule → List Upgrade → Type 0 where
  none_listed : Chosen [] []
  takes :
      (m : ListedModule) (next : Bytes) (ms : List ListedModule) (us : List Upgrade)
      → m.update ≡ some next
      → m.indirect ≡ false
      → WithinMajor (to_version m next)
      → Chosen ms us
      → Chosen (m ∷ ms) (to_version m next ∷ us)
  skips :
      (m : ListedModule) (ms : List ListedModule) (us : List Upgrade)
      → ((next : Bytes)
          → m.update ≡ some next
          → m.indirect ≡ false
          → ¬ WithinMajor (to_version m next))
      → Chosen ms us
      → Chosen (m ∷ ms) us

chosen_with :
    (m : ListedModule) (o : Option Bytes) (ms : List ListedModule) (us : List Upgrade)
    → m.update ≡ o
    → Chosen ms (patch_minor us)
    → Chosen (m ∷ ms) (patch_minor (add_update m o us))
unfolding patch_minor
chosen_with m none ms us e h = skips m ms (patch_minor us) (λ next f d w. let t = sym e ∙ f in cc) h
chosen_with m (some next) ms us e h = elim (Bool-cases m.indirect) [
  | inl i ↦
      let same : patch_minor (add_update m (some next) us) ≡ patch_minor us = rw i refl in
      subst (Chosen (m ∷ ms)) (sym same)
        (skips m ms (patch_minor us) (λ n f d w. let t = sym i ∙ d in cc) h)
  | inr i ↦ elim (Bool-cases (is_major_or_unstable_bump m.version next)) [
    | inl b ↦
        let same : patch_minor (add_update m (some next) us) ≡ patch_minor us = rw (i, b) refl in
        subst (Chosen (m ∷ ms)) (sym same) (
          skips m ms (patch_minor us)
            (λ n f d w.
              let version : n ≡ next = of_some (sym f ∙ e) in
              let t =
                sym (WithinMajor-bump (to_version m n) w)
                ∙ ap (is_major_or_unstable_bump m.version) version
                ∙ b in
              cc)
            h)
    | inr b ↦
        let same : patch_minor (add_update m (some next) us) ≡ to_version m next ∷ patch_minor us =
          rw (i, b) refl in
        subst (Chosen (m ∷ ms)) (sym same)
          (takes m next ms (patch_minor us) e i (bump-WithinMajor (to_version m next) b) h)
  ]
]
  where
    of_some : {a b : Bytes} → some a ≡ some b → a ≡ b
    of_some p = cc

pub patch_minor-Chosen : (ms : List ListedModule) → Chosen ms (patch_minor (list_updates ms))
unfolding list_updates patch_minor
patch_minor-Chosen [] = none_listed
patch_minor-Chosen (m ∷ ms) =
    chosen_with m m.update ms (list_updates ms) refl (patch_minor-Chosen ms)
