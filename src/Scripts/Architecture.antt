-- ===== src/Scripts/Architecture.antt =====
-- scripts/architecture-verify.go: the rules on imports, contexts and payloads, over the parsed sources.
-- The violations stand in the order in which they are found; the script sorts them before it prints them.
-- A rule's number stands for its description.
mod Pigeonhole
pub mod Payload
mod Clean
pub mod Layers
pub mod Verified
use go_skeleton.Base.{
  ℕ, zero, suc, Bool, true, false, ◌&&◌, Option, none, some, List, [], ◌∷◌, ◌++◌, map, Result, ok,
  err, length, reverse, drop, leb, if◌then◌else◌,
}
use go_skeleton.Base.Text.{Bytes, codes, beq, has_prefix}
use go_skeleton.Base.Dict.{Dict, lookup, insert}
use go_skeleton.Scripts.GoFiles.{
  Expr, identifier, selector, Field, TypeExpr, struct_type, type_name, foreign_type, other_type,
  literal_text, ImportSpec, CallExpr, TypeSpec, GoFile, Node, has_suffix, both, walk_go_files,
}

-- What checkPayloadType finds.
pub data PayloadVerdict : Type 0 where
  compliant need_header cyclic foreign : PayloadVerdict
  unknown_struct : Bytes → PayloadVerdict

pub data Note : Type 0 where
  import_note : Bytes → Note
  background_note : Note
  payload_note : Bytes → PayloadVerdict → Note

pub record Violation : Type 0 where
  pub rule : ℕ
  pub file : Bytes
  pub line : ℕ
  pub note : Note

abbrev pub Checked : Type 0
Checked = Result Bytes (List Violation)

abbrev quoted : Bytes → Bool
quoted v = leb 2 (length v) && has_prefix v (b'"' ∷ []) && has_suffix v (b'"' ∷ [])

-- Without its last byte.
abbrev init : Bytes → Bytes
init v = reverse (drop 1 (reverse v))

unfoldable pub import_path : ImportSpec → Bytes
import_path spec =
    let value = literal_text spec.literal in if quoted value then drop 1 (init value) else value

abbrev pub with_hit : Option Violation → List Violation → List Violation
with_hit none rest = rest
with_hit (some v) rest = v ∷ rest

-- walkImports, walkCalls and walkTypeSpecs: what `hit` makes of the items of one file, of many, and of the
-- sources below a directory.
module _ {X : Type 0} (items : GoFile → List X) (hit : Bytes → X → Option Violation) where
  unfoldable pub scan_items : Bytes → List X → List Violation
  scan_items path [] = []
  scan_items path (x ∷ xs) = with_hit (hit path x) (scan_items path xs)

  unfoldable pub scan_files : List (Bytes × GoFile) → List Violation
  scan_files [] = []
  scan_files ((path, f) ∷ fs) = scan_items path (items f) ++ scan_files fs

  unfoldable pub walk_items : Node → Bytes → Checked
  walk_items root path = elim (walk_go_files root path) [
    | ok fs ↦ ok (scan_files fs)
    | err e ↦ err e
  ]

-- One check after the other, up to the first error.
unfoldable pub gather {ℓ} : {A : Type ℓ} → (A → Checked) → List A → Checked
gather check [] = ok []
gather check (x ∷ xs) = both (check x) (gather check xs)

abbrev import_violation : ℕ → Bytes → ImportSpec → Violation
import_violation rule path spec = record {
  rule = rule;
  file = path;
  line = spec.line;
  note = import_note (import_path spec);
}

abbrev pub same_import : Bytes → Bytes → ImportSpec → Option Violation
same_import forbidden path spec =
    if beq (import_path spec) forbidden then some (import_violation 1 path spec) else none

unfoldable pub import_in_dirs : Bytes → List Bytes → Node → Checked
import_in_dirs forbidden dirs root =
    gather (walk_items (λ f. f.imports) (same_import forbidden) root) dirs

abbrev pub any {ℓ} : {A : Type ℓ} → (A → Bool) → List A → Bool
any p [] = false
any p (x ∷ xs) = if p x then true else any p xs

abbrev pub import_outside : List Bytes → List Bytes → Bytes → ImportSpec → Option Violation
import_outside prefixes allow path spec =
    if any (λ p. has_prefix (import_path spec) p) prefixes
    then if any (λ a. has_prefix path (a ++ b'/' ∷ [])) allow
      then none
      else some (import_violation 2 path spec)
    else none

unfoldable pub import_prefixes_except : List Bytes → List Bytes → Node → Checked
import_prefixes_except prefixes allow root =
    walk_items (λ f. f.imports) (import_outside prefixes allow) root (codes ".")

abbrev pub import_below : ℕ → Bytes → Bytes → ImportSpec → Option Violation
import_below rule forbidden path spec =
    if has_prefix (import_path spec) forbidden then some (import_violation rule path spec) else none

unfoldable pub import_prefix_in_dirs : ℕ → Bytes → List Bytes → Node → Checked
import_prefix_in_dirs rule forbidden dirs root =
    gather (walk_items (λ f. f.imports) (import_below rule forbidden) root) dirs

abbrev pub is_background : Expr → Bool
is_background (selector (identifier x) name) =
    beq x (codes "context") && beq name (codes "Background")
is_background e = false

abbrev pub background_call : Bytes → CallExpr → Option Violation
background_call path call =
    if is_background call.function
    then some (record { rule = 4; file = path; line = call.line; note = background_note })
    else none

unfoldable pub context_background_in_dirs : List Bytes → Node → Checked
context_background_in_dirs dirs root = gather (walk_items (λ f. f.calls) background_call root) dirs

abbrev is_header : Expr → Bool
is_header (identifier name) = beq name (codes "Header")
is_header (selector (identifier x) name) = beq x (codes "task") && beq name (codes "Header")
is_header e = false

abbrev is_embedded_header : List Bytes → Expr → Bool
is_embedded_header [] type = is_header type
is_embedded_header (name ∷ names) type = false

unfoldable pub is_header_first_field : List Field → Bool
is_header_first_field [] = false
is_header_first_field (f ∷ fields) = is_embedded_header f.names f.type

abbrev pub mem : Bytes → List Bytes → Bool
mem name names = any (λ n. beq n name) names

-- What a turn of checkPayloadType makes of a name, of its type if it has one, and of the turns after it.
abbrev pub follow :
    Bytes → Bool → (TypeExpr → Option PayloadVerdict) → Option TypeExpr → Option PayloadVerdict
follow name known check none = some (unknown_struct name)
follow name true check (some next) = some cyclic
follow name false check (some next) = check next

-- The loop of checkPayloadType; `seen` are the names it has gone through. `none` is out of fuel.
unfoldable pub check_type : ℕ → Dict TypeExpr → List Bytes → TypeExpr → Option PayloadVerdict
check_type zero by_name seen t = none
check_type (suc fuel) by_name seen (struct_type fields) =
    some (if is_header_first_field fields then compliant else need_header)
check_type (suc fuel) by_name seen foreign_type = some foreign
check_type (suc fuel) by_name seen other_type = some compliant
check_type (suc fuel) by_name seen (type_name name) =
    follow name (mem name seen) (check_type fuel by_name (name ∷ seen)) (lookup name by_name)

-- Fuel: each turn adds a name of the table to `seen`.
unfoldable pub check_payload_type : TypeSpec → Dict TypeExpr → Option PayloadVerdict
unfolding check_type
check_payload_type ts by_name = check_type (suc (length by_name)) by_name (ts.name ∷ []) ts.type

-- A later declaration of a name takes the place of an earlier one.
unfoldable pub add_types : Dict TypeExpr → List TypeSpec → Dict TypeExpr
add_types by_name [] = by_name
add_types by_name (ts ∷ specs) = add_types (insert ts.name ts.type by_name) specs

abbrev pub located : Bytes → List TypeSpec → List (Bytes × TypeSpec)
located path [] = []
located path (ts ∷ specs) = (path, ts) ∷ located path specs

unfoldable pub collect_types : List (Bytes × GoFile) → List (Bytes × TypeSpec)
collect_types [] = []
collect_types ((path, f) ∷ fs) = located path f.types ++ collect_types fs

abbrev payload_violation : Bytes → TypeSpec → Option PayloadVerdict → Option Violation
payload_violation path ts none = none
payload_violation path ts (some compliant) = none
payload_violation path ts (some v) =
    some (record { rule = 6; file = path; line = ts.line; note = payload_note ts.name v })

abbrev pub payload_hit : Dict TypeExpr → Bytes × TypeSpec → Option Violation
payload_hit by_name (path, ts) =
    if has_suffix ts.name (codes "Payload")
    then payload_violation path ts (check_payload_type ts by_name)
    else none

abbrev pub types_of : List (Bytes × GoFile) → Dict TypeExpr
types_of fs = add_types [] (map (λ (path, ts). ts) (collect_types fs))

abbrev pub payload_violations : Dict TypeExpr → List (Bytes × TypeSpec) → List Violation
payload_violations by_name [] = []
payload_violations by_name (sp ∷ specs) =
    with_hit (payload_hit by_name sp) (payload_violations by_name specs)

abbrev pub payload_found : Result Bytes (List (Bytes × GoFile)) → Checked
payload_found (err e) = err e
payload_found (ok fs) = ok (payload_violations (types_of fs) (collect_types fs))

unfoldable pub payload_header_in_dirs : List Bytes → Node → Checked
payload_header_in_dirs dirs root = gather (λ d. payload_found (walk_go_files root d)) dirs

abbrev pub Rule : Type 0
Rule = Node → Checked

abbrev pub lower_layers : List Bytes
lower_layers =
    codes "internal/service"
    ∷ codes "internal/repository"
    ∷ codes "internal/model"
    ∷ codes "internal/task"
    ∷ codes "internal/worker"
    ∷ codes "internal/taskqueue"
    ∷ []

abbrev pub database_imports : List Bytes
database_imports =
    codes "github.com/jackc/pgx/" ∷ codes "go-skeleton/internal/repository/sqlcdb" ∷ []

abbrev pub database_layers : List Bytes
database_layers =
    codes "internal/repository" ∷ codes "internal/bootstrap" ∷ codes "pkg/database" ∷ []

abbrev pub request_layers : List Bytes
request_layers = codes "internal/service" ∷ codes "internal/handler" ∷ []

unfoldable pub rules : List Rule
rules =
    import_in_dirs (codes "github.com/gin-gonic/gin") lower_layers
    ∷ import_prefixes_except database_imports database_layers
    ∷ import_prefix_in_dirs 3 (codes "go-skeleton/internal/") (codes "pkg" ∷ [])
    ∷ context_background_in_dirs request_layers
    ∷ import_prefix_in_dirs 5 (codes "gorm.io/") (codes "." ∷ [])
    ∷ payload_header_in_dirs (codes "internal/task" ∷ [])
    ∷ []

-- `main`: every rule in turn, up to the first that fails.
unfoldable pub verify : Node → Checked
verify root = gather (λ rule. rule root) rules
