-- ===== src/Scripts/Architecture/Payload.antt =====
-- checkPayloadType of scripts/architecture-verify.go: its loop ends, and what it accepts.
use go_skeleton.Base.{
  ℕ, zero, suc, ◌+◌, ◌≡◌, ◌↔◌, refl, Bool, true, false, Option, none, some, List, [], ◌∷◌, length,
  All, ap, ◌∙◌, subst, arith, ◌<◌, ◌⊎◌, inl, inr, Bool-cases,
}
use go_skeleton.Base.Text.{Bytes, beq, beq_iff}
use go_skeleton.Base.Dict.{Dict, lookup}
use go_skeleton.Scripts.GoFiles.{
  Field, TypeExpr, struct_type, type_name, foreign_type, other_type, TypeSpec,
}
use go_skeleton.Scripts.Architecture.{
  PayloadVerdict, compliant, need_header, cyclic, unknown_struct, is_header_first_field, mem,
  follow, check_type, check_payload_type,
}
use go_skeleton.Scripts.Architecture.Pigeonhole.{Different, Known, length-Known}

-- The names that a type is declared by lead, in so many steps, to a struct whose first field embeds
-- Header, or to a type that is no object.
pub data Embeds (m : Dict TypeExpr) : ℕ → TypeExpr → Type 0 where
  header_first :
      (fields : List Field)
      → is_header_first_field fields ≡ true
      → Embeds m zero (struct_type fields)
  exempt : Embeds m zero other_type
  through :
      {k : ℕ} {t : TypeExpr} (name : Bytes)
      → lookup name m ≡ some t
      → Embeds m k t
      → Embeds m (suc k) (type_name name)

abbrev pub EmbedsHeader : Dict TypeExpr → TypeExpr → Type 0
EmbedsHeader m t = (k : ℕ) × Embeds m k t

-- The loop ends.
module _ (m : Dict TypeExpr) where
  follow_ends :
      (name : Bytes) (known : Bool) (check : TypeExpr → Option PayloadVerdict) (o : Option TypeExpr)
      → (known ≡ true) ⊎ ((t : TypeExpr) → o ≡ some t → (v : PayloadVerdict) × (check t ≡ some v))
      → (v : PayloadVerdict) × (follow name known check o ≡ some v)
  follow_ends name known check none h = (unknown_struct name, refl)
  follow_ends name true check (some t) h = (cyclic, refl)
  follow_ends name false check (some t) (inl e) = cc
  follow_ends name false check (some t) (inr h) = h t refl

  check_type_ends :
      (fuel : ℕ) (seen : List Bytes) (t : TypeExpr)
      → Different seen
      → Known m seen
      → suc (length m) < fuel + length seen
      → (v : PayloadVerdict) × (check_type fuel m seen t ≡ some v)
  unfolding check_type
  check_type_ends zero seen t d k b = absurd (omega (arith, length-Known m seen d k, b))
  check_type_ends (suc fuel) seen (struct_type fields) d k b = (_, refl)
  check_type_ends (suc fuel) seen foreign_type d k b = (_, refl)
  check_type_ends (suc fuel) seen other_type d k b = (_, refl)
  check_type_ends (suc fuel) seen (type_name name) d k b =
      follow_ends name (mem name seen) (check_type fuel m (name ∷ seen)) (lookup name m)
        (elim (Bool-cases (mem name seen)) [
          | inl s ↦ inl s
          | inr s ↦
              inr
                (λ t e. check_type_ends fuel (name ∷ seen) t (s, d) ((t, e), k) (omega (arith, b)))
        ])

-- The names of `seen` lead to their end in more than `k` steps.
abbrev Longer : Dict TypeExpr → ℕ → List Bytes → Type 0
Longer m k = All (λ n. (l : ℕ) × (k < l) × Embeds m l (type_name n))

Longer-less :
    (m : Dict TypeExpr) (k : ℕ) (seen : List Bytes) → Longer m (suc k) seen → Longer m k seen
Longer-less m k [] h = tt
Longer-less m k (n ∷ seen) ((l, b, d), h) = ((l, omega (arith, b), d), Longer-less m k seen h)

module _ {m : Dict TypeExpr} where
  Embeds-unique : {k l : ℕ} (t : TypeExpr) → Embeds m k t → Embeds m l t → k ≡ l
  Embeds-unique t (header_first fields e) (header_first _ f) = refl
  Embeds-unique t exempt exempt = refl
  Embeds-unique t (through {t = t1} name e x) (through {k = l} {t = t2} _ f y) =
      let same : t2 ≡ t1 = cc in ap suc (Embeds-unique t1 x (subst (Embeds m l) same y))

  Longer-mem :
      (k : ℕ) (name : Bytes) (seen : List Bytes)
      → Longer m k seen
      → mem name seen ≡ true
      → (l : ℕ) × (k < l) × Embeds m l (type_name name)
  Longer-mem k name [] h e = cc
  Longer-mem k name (n ∷ seen) ((l, b, d), h) e = elim (Bool-cases (beq n name)) [
    | inl same ↦ (l, b, subst (λ x. Embeds m l (type_name x)) ((beq_iff n name).0 same) d)
    | inr other ↦ Longer-mem k name seen h (rw other at e)
  ]

  check_type_embedded :
      (fuel : ℕ) {k : ℕ} (seen : List Bytes) {t : TypeExpr} (v : PayloadVerdict)
      → Embeds m k t
      → Longer m k seen
      → check_type fuel m seen t ≡ some v
      → v ≡ compliant
  unfolding check_type
  check_type_embedded zero seen v d h e = cc
  check_type_embedded (suc fuel) seen v (header_first fields f) h e =
      let w : some (compliant) ≡ some v = rw f at e in cc
  check_type_embedded (suc fuel) seen v exempt h e = cc
  check_type_embedded (suc fuel) {k = suc k} seen v (through {t = t} name f d) h e =
      elim (Bool-cases (mem name seen)) [
        | inl s ↦
            let (l, b, d') = Longer-mem (suc k) name seen h s in
            absurd (omega (arith, b, Embeds-unique (type_name name) (through name f d) d'))
        | inr s ↦
            check_type_embedded fuel (name ∷ seen) v d
              ((suc k, omega arith, through name f d), Longer-less m k seen h) (rw (f, s) at e)
      ]

follow_compliant :
    (name : Bytes) (known : Bool) (check : TypeExpr → Option PayloadVerdict) (o : Option TypeExpr)
    → follow name known check o ≡ some compliant
    → (t : TypeExpr) × (o ≡ some t) × (check t ≡ some compliant)
follow_compliant name known check none h = cc
follow_compliant name true check (some t) h = cc
follow_compliant name false check (some t) h = (t, refl, h)

compliant_embeds :
    (m : Dict TypeExpr) (fuel : ℕ) (seen : List Bytes) (t : TypeExpr)
    → check_type fuel m seen t ≡ some compliant
    → EmbedsHeader m t
unfolding check_type
compliant_embeds m zero seen t h = cc
compliant_embeds m (suc fuel) seen (struct_type fields) h =
    elim (Bool-cases (is_header_first_field fields)) [
      | inl e ↦ (zero, header_first fields e)
      | inr e ↦ let w : some need_header ≡ some compliant = rw e at h in cc
    ]
compliant_embeds m (suc fuel) seen foreign_type h = cc
compliant_embeds m (suc fuel) seen other_type h = (zero, exempt)
compliant_embeds m (suc fuel) seen (type_name name) h =
    let (t, e, h') =
      follow_compliant name (mem name seen) (check_type fuel m (name ∷ seen)) (lookup name m) h in
    let (k, d) = compliant_embeds m fuel (name ∷ seen) t h' in (suc k, through name e d)

-- For a declaration in the table of its package, checkPayloadType ends, and finds it compliant exactly if
-- its names lead, without a cycle, to a struct whose first field embeds Header, or to a type that is no object.
pub check_payload_type_lem :
    (ts : TypeSpec) (m : Dict TypeExpr)
    → lookup ts.name m ≡ some ts.type
    → (v : PayloadVerdict) × (check_payload_type ts m ≡ some v)
      × ((v ≡ compliant) ↔ EmbedsHeader m ts.type)
unfolding check_payload_type
check_payload_type_lem ts m e =
    let seen = ts.name ∷ [] in
    let (v, ends) =
      check_type_ends m (suc (length m)) seen ts.type (refl, tt) ((ts.type, e), tt) (omega arith) in
    (
      v,
      ends,
      (
        λ same. compliant_embeds m (suc (length m)) seen ts.type (ends ∙ ap some same),
        λ (k, d).
            check_type_embedded (suc (length m)) seen v d
              ((suc k, omega arith, through ts.name e d), tt) ends,
      ),
    )
