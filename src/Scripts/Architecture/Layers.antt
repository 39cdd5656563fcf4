-- ===== src/Scripts/Architecture/Layers.antt =====
-- What the sources look like in which scripts/architecture-verify.go finds nothing.
use go_skeleton.Base.{
  ℕ, ◌≡◌, ◌≢◌, ◌↔◌, ◌⊎◌, inl, inr, refl, ap, Bool, true, false, ◌&&◌, none, some, List, [], ◌∷◌,
  ◌++◌, Result, ok, err, All, Bool-cases, reverse, leb, length, length-append, arith, subst, sym,
  ◌∙◌, if◌then◌else◌,
}
use mathlib.Core.List.{reverse-cons, reverse-append, reverse-reverse}
use go_skeleton.Base.Text.{Bytes, codes, beq, beq_iff, has_prefix}
use go_skeleton.Base.Dict.{lookup}
use go_skeleton.Scripts.GoFiles.{
  Expr, identifier, selector, string_literal, other_expr, GoFile, ImportLiteral, interpreted, raw,
  ImportSpec, TypeSpec, Node, has_suffix,
}
use go_skeleton.Scripts.GoFiles.Walk.{AllUnder}
use go_skeleton.Scripts.Architecture.{
  Violation, import_path, PayloadVerdict, compliant, need_header, cyclic, foreign, unknown_struct,
  import_in_dirs, import_prefixes_except, import_prefix_in_dirs, context_background_in_dirs, any,
  is_background, same_import, import_outside, import_below, background_call, payload_violation,
  payload_hit, payload_violations, types_of, collect_types, payload_found,
}
use go_skeleton.Scripts.Architecture.Clean.{Clean, unwrap, with_hit_iff, gather_iff, walk_items_iff}
use go_skeleton.Scripts.Architecture.Payload.{EmbedsHeader, check_payload_type_lem}

-- Where a condition finds a violation.
found_iff : (b : Bool) (v : Violation) → ((if b then some v else none) ≡ none) ↔ (b ≡ false)
found_iff true v = (λ h. cc, λ h. cc)
found_iff false v = (λ h. refl, λ h. refl)

outside_iff :
    (b c : Bool) (v : Violation)
    → ((if b then if c then none else some v else none) ≡ none) ↔ (b ≡ false) ⊎ (c ≡ true)
outside_iff true true v = (λ h. inr refl, λ h. refl)
outside_iff true false v = (λ h. cc, λ h. elim h [ inl e ↦ cc | inr e ↦ cc ])
outside_iff false c v = (λ h. inl refl, λ h. refl)

unequal_iff : (x y : Bytes) → (beq x y ≡ false) ↔ (x ≢ y)
unequal_iff x y = elim (Bool-cases (beq x y)) [
  | inl e ↦ (λ h. cc, λ h. absurd (h ((beq_iff x y).0 e)))
  | inr e ↦ (λ h. λ same. let t = (beq_iff x y).1 same in cc, λ h. e)
]

quoted_path :
    (p : Bytes) (line : ℕ) → import_path (record { literal = interpreted p; line = line }) ≡ p
unfolding import_path has_prefix
quoted_path p line =
    let back : reverse (b'"' ∷ (p ++ b'"' ∷ [])) ≡ b'"' ∷ (reverse p ++ b'"' ∷ []) =
      reverse-cons (b'"') (p ++ b'"' ∷ [])
      ∙ ap (λ (l : Bytes). l ++ b'"' ∷ []) (reverse-append p (b'"' ∷ [])) in
    let inner : reverse (reverse p ++ b'"' ∷ []) ≡ b'"' ∷ p =
      reverse-append (reverse p) (b'"' ∷ []) ∙ ap (λ (l : Bytes). b'"' ∷ l) (reverse-reverse p) in
    let long : leb 2 (length (b'"' ∷ (p ++ b'"' ∷ []))) ≡ true =
      ground (arith, length-append p (b'"' ∷ [])) in
    rw (long, back, inner) refl

raw_path :
    (p : Bytes) (line : ℕ)
    → import_path (record { literal = raw p; line = line }) ≡ b'`' ∷ (p ++ b'`' ∷ [])
unfolding import_path has_prefix
raw_path p line = ground arith

-- What is asked of the path of an import, if it is written in double quotes.
abbrev pub WhereQuoted : (Bytes → Type 0) → ImportSpec → Type 0
WhereQuoted P spec = (path : Bytes) → spec.literal ≡ interpreted path → P path

-- import_path finds the path of an import in double quotes, and leaves one in back quotes as it is.
WhereQuoted-iff :
    (P : Bytes → Type 0) (spec : ImportSpec)
    → ((rest : Bytes) → P (b'`' ∷ rest))
    → P (import_path spec) ↔ WhereQuoted P spec
WhereQuoted-iff P spec other = of_literal spec.literal refl
  where
    of_interpreted : (p q : Bytes) → interpreted p ≡ interpreted q → p ≡ q
    of_interpreted p q e = cc

    own :
        (l : ImportLiteral)
        → spec.literal ≡ l
        → import_path spec ≡ import_path (record { literal = l; line = spec.line })
    own l e = ap (λ (k : ImportLiteral). import_path (record { literal = k; line = spec.line })) e

    of_literal : (l : ImportLiteral) → spec.literal ≡ l → P (import_path spec) ↔ WhereQuoted P spec
    of_literal (interpreted p) e =
        let found : import_path spec ≡ p = own (interpreted p) e ∙ quoted_path p spec.line in
        (
          λ h. λ path same. subst P (found ∙ of_interpreted p path (sym e ∙ same)) h,
          λ h. subst P (sym found) (h p e),
        )
    of_literal (raw p) e =
        let found : import_path spec ≡ b'`' ∷ (p ++ b'`' ∷ []) =
          own (raw p) e ∙ raw_path p spec.line in
        (
          λ h. λ path same. let absurd_literal : raw p ≡ interpreted path = sym e ∙ same in cc,
          λ h. subst P (sym found) (other (p ++ b'`' ∷ [])),
        )

-- Every import of a source under these directories satisfies `P`.
abbrev pub Imports : Node → List Bytes → (Bytes → ImportSpec → Type 0) → Type 0
Imports root dirs P = All (AllUnder (λ path f. All (P path) f.imports) root) dirs

pub import_in_dirs_iff :
    (forbidden : Bytes) (dirs : List Bytes) (root : Node)
    → ((rest : Bytes) → beq (b'`' ∷ rest) forbidden ≡ false)
    → Clean (import_in_dirs forbidden dirs root)
      ↔ Imports root dirs (λ path. WhereQuoted (λ p. p ≢ forbidden))
unfolding import_in_dirs
import_in_dirs_iff forbidden dirs root other =
    gather_iff _ _
      (walk_items_iff (λ f. f.imports) (same_import forbidden)
        (λ path. WhereQuoted (λ p. p ≢ forbidden))
        (λ path spec.
          let i = found_iff (beq (import_path spec) forbidden) _ in
          let j = unequal_iff (import_path spec) forbidden in
          let k =
            WhereQuoted-iff (λ p. p ≢ forbidden) spec
              (λ rest. (unequal_iff (b'`' ∷ rest) forbidden).0 (other rest)) in
          (λ h. k.0 (j.0 (i.0 h)), λ h. i.1 (j.1 (k.1 h))))
        root)
      dirs

pub import_prefix_in_dirs_iff :
    (rule : ℕ) (forbidden : Bytes) (dirs : List Bytes) (root : Node)
    → ((rest : Bytes) → has_prefix (b'`' ∷ rest) forbidden ≡ false)
    → Clean (import_prefix_in_dirs rule forbidden dirs root)
      ↔ Imports root dirs (λ path. WhereQuoted (λ p. has_prefix p forbidden ≡ false))
unfolding import_prefix_in_dirs
import_prefix_in_dirs_iff rule forbidden dirs root other =
    gather_iff _ _
      (walk_items_iff (λ f. f.imports) (import_below rule forbidden)
        (λ path. WhereQuoted (λ p. has_prefix p forbidden ≡ false))
        (λ path spec.
          let i = found_iff (has_prefix (import_path spec) forbidden) _ in
          let k = WhereQuoted-iff (λ p. has_prefix p forbidden ≡ false) spec other in
          (λ h. k.0 (i.0 h), λ h. i.1 (k.1 h)))
        root)
      dirs

abbrev pub below_any : Bytes → List Bytes → Bool
below_any path = any (λ a. has_prefix path (a ++ b'/' ∷ []))

abbrev pub begins_any : Bytes → List Bytes → Bool
begins_any path = any (λ p. has_prefix path p)

-- A path that only a source of the layers in `allow` may import.
abbrev pub KeptTo : List Bytes → List Bytes → Bytes → Bytes → Type 0
KeptTo prefixes allow file imported =
    (begins_any imported prefixes ≡ false) ⊎ (below_any file allow ≡ true)

pub import_prefixes_except_iff :
    (prefixes allow : List Bytes) (root : Node)
    → ((rest : Bytes) → begins_any (b'`' ∷ rest) prefixes ≡ false)
    → Clean (import_prefixes_except prefixes allow root)
      ↔ Imports root (codes "." ∷ []) (λ path. WhereQuoted (KeptTo prefixes allow path))
unfolding import_prefixes_except
import_prefixes_except_iff prefixes allow root other =
    let i =
      walk_items_iff (λ f. f.imports) (import_outside prefixes allow)
        (λ path. WhereQuoted (KeptTo prefixes allow path))
        (λ path spec.
          let i = outside_iff (begins_any (import_path spec) prefixes) (below_any path allow) _ in
          let k = WhereQuoted-iff (KeptTo prefixes allow path) spec (λ rest. inl (other rest)) in
          (λ h. k.0 (i.0 h), λ h. i.1 (k.1 h)))
        root (codes ".") in
    (λ h. (i.0 h, tt), λ h. i.1 h.0)

abbrev pub background : Expr
background = selector (identifier (codes "context")) (codes "Background")

selector_iff :
    (x a name b : Bytes)
    → ((beq x a && beq name b) ≡ false) ↔ (selector (identifier x) name ≢ selector (identifier a) b)
selector_iff x a name b = elim (Bool-cases (beq x a)) [
  | inr e ↦ rw e (λ h. λ same. let t = (beq_iff x a).1 cc in cc, λ h. refl)
  | inl e ↦ elim (Bool-cases (beq name b)) [
    | inr f ↦ rw (e, f) (λ h. λ same. let t = (beq_iff name b).1 cc in cc, λ h. refl)
    | inl f ↦
        let p = (beq_iff x a).0 e in
        let q = (beq_iff name b).0 f in rw (e, f) (λ h. cc, λ h. absurd (h cc))
  ]
]

is_background_iff : (e : Expr) → (is_background e ≡ false) ↔ (e ≢ background)
is_background_iff (identifier x) = (λ h. λ e. cc, λ h. refl)
is_background_iff (string_literal v n) = (λ h. λ e. cc, λ h. refl)
is_background_iff other_expr = (λ h. λ e. cc, λ h. refl)
is_background_iff (selector (selector e x) name) = (λ h. λ e. cc, λ h. refl)
is_background_iff (selector (string_literal v n) name) = (λ h. λ e. cc, λ h. refl)
is_background_iff (selector other_expr name) = (λ h. λ e. cc, λ h. refl)
is_background_iff (selector (identifier x) name) =
    selector_iff x (codes "context") name (codes "Background")

pub context_background_in_dirs_iff :
    (dirs : List Bytes) (root : Node)
    → Clean (context_background_in_dirs dirs root)
      ↔ All (AllUnder (λ path f. All (λ call. call.function ≢ background) f.calls) root) dirs
unfolding context_background_in_dirs
context_background_in_dirs_iff dirs root =
    gather_iff _ _
      (walk_items_iff (λ f. f.calls) background_call (λ path call. call.function ≢ background)
        (λ path call.
          let i = found_iff (is_background call.function) _ in
          let j = is_background_iff call.function in (λ h. j.0 (i.0 h), λ h. i.1 (j.1 h)))
        root)
      dirs

-- The rule on payloads, for declarations whose types the table of their directory has.
unfoldable pub PayloadOk : List (Bytes × GoFile) → Bytes × TypeSpec → Type 0
PayloadOk fs (path, ts) =
    (has_suffix ts.name (codes "Payload") ≡ false) ⊎ EmbedsHeader (types_of fs) ts.type

abbrev pub Listed : List (Bytes × GoFile) → Bytes × TypeSpec → Type 0
Listed fs (path, ts) = lookup ts.name (types_of fs) ≡ some ts.type

payload_violation_iff :
    (path : Bytes) (ts : TypeSpec) (v : PayloadVerdict)
    → (payload_violation path ts (some v) ≡ none) ↔ (v ≡ compliant)
payload_violation_iff path ts compliant = (λ h. refl, λ h. refl)
payload_violation_iff path ts need_header = (λ h. cc, λ h. cc)
payload_violation_iff path ts cyclic = (λ h. cc, λ h. cc)
payload_violation_iff path ts foreign = (λ h. cc, λ h. cc)
payload_violation_iff path ts (unknown_struct name) = (λ h. cc, λ h. cc)

payload_hit_iff :
    (fs : List (Bytes × GoFile)) (sp : Bytes × TypeSpec)
    → Listed fs sp
    → (payload_hit (types_of fs) sp ≡ none) ↔ PayloadOk fs sp
unfolding PayloadOk
payload_hit_iff fs (path, ts) h = elim (Bool-cases (has_suffix ts.name (codes "Payload"))) [
  | inr e ↦ rw e (λ k. inl refl, λ k. refl)
  | inl e ↦
      let (v, ends, accepts) = check_payload_type_lem ts (types_of fs) h in
      let i = payload_violation_iff path ts v in
      rw (e, ends)
        (λ k. inr (accepts.0 (i.0 k)), λ k. elim k [ inl f ↦ cc | inr d ↦ i.1 (accepts.1 d) ])
]

pub payload_violations_iff :
    (fs : List (Bytes × GoFile)) (specs : List (Bytes × TypeSpec))
    → All (Listed fs) specs
    → (payload_violations (types_of fs) specs ≡ []) ↔ All (PayloadOk fs) specs
payload_violations_iff fs [] h = (λ e. tt, λ e. refl)
payload_violations_iff fs (sp ∷ specs) (l, h) =
    let hit = payload_hit (types_of fs) sp in
    let i = with_hit_iff hit (payload_violations (types_of fs) specs) in
    let j = payload_hit_iff fs sp l in
    let rest = payload_violations_iff fs specs h in
    (λ e. (j.0 (i.0 e).0, rest.0 (i.0 e).1), λ (p, q). i.1 (j.1 p, rest.1 q))

abbrev pub PayloadsOk : Result Bytes (List (Bytes × GoFile)) → Type 0
PayloadsOk (err e) = true ≡ false
PayloadsOk (ok fs) = All (PayloadOk fs) (collect_types fs)

-- No name of a type is declared a second time with another type.
abbrev pub TypesListed : Result Bytes (List (Bytes × GoFile)) → Type 0
TypesListed (err e) = Unit
TypesListed (ok fs) = All (Listed fs) (collect_types fs)

pub payload_found_iff :
    (r : Result Bytes (List (Bytes × GoFile)))
    → TypesListed r
    → Clean (payload_found r) ↔ PayloadsOk r
payload_found_iff (err e) h = (λ k. cc, λ k. cc)
payload_found_iff (ok fs) h =
    let i = payload_violations_iff fs (collect_types fs) h in
    (λ e. i.0 (unwrap e), λ k. ap ok (i.1 k))
