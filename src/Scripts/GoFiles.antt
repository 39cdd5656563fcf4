-- ===== src/Scripts/GoFiles.antt =====
-- The sources that the scripts of scripts/ read, as go/parser gives them, and the walks over them. The
-- parser is not part of the repository: a file comes with its imports, calls and type declarations, in the
-- order in which ast.Inspect visits them, or with the parser's error. The entries of a directory stand in
-- the order in which filepath.WalkDir visits them.
pub mod Walk
use go_skeleton.Base.{
  ℕ, Bool, true, false, ◌&&◌, ◌||◌, not, Option, none, some, List, [], ◌∷◌, ◌++◌, Result, ok, err,
  reverse, if◌then◌else◌,
}
use go_skeleton.Base.Text.{Bytes, codes, beq, is_empty, has_prefix, split}

-- The forms of ast.Expr that the scripts tell apart.
pub data Expr : Type 0 where
  identifier : Bytes → Expr
  selector : Expr → Bytes → Expr
  string_literal : Bytes → ℕ → Expr
  other_expr : Expr

-- The names of a field, none of an embedded one, and its type.
pub record Field : Type 0 where
  pub names : List Bytes
  pub type : Expr

-- The forms of the type in a declaration of a type.
pub data TypeExpr : Type 0 where
  struct_type : List Field → TypeExpr
  type_name : Bytes → TypeExpr
  foreign_type : TypeExpr
  other_type : TypeExpr

-- The literal of an import, by what is written between its quotes: in double quotes, or in back quotes.
pub data ImportLiteral : Type 0 where
  interpreted raw : Bytes → ImportLiteral

-- The text of a literal, with its quotes.
abbrev pub literal_text : ImportLiteral → Bytes
literal_text (interpreted p) = b'"' ∷ (p ++ b'"' ∷ [])
literal_text (raw p) = b'`' ∷ (p ++ b'`' ∷ [])

pub record ImportSpec : Type 0 where
  pub literal : ImportLiteral
  pub line : ℕ

pub record CallExpr : Type 0 where
  pub function : Expr
  pub args : List Expr
  pub line : ℕ

pub record TypeSpec : Type 0 where
  pub name : Bytes
  pub type : TypeExpr
  pub line : ℕ

pub record GoFile : Type 0 where
  pub imports : List ImportSpec
  pub calls : List CallExpr
  pub types : List TypeSpec

mutual
  -- A file with what the parser makes of it, or a directory.
  pub data Node : Type 0 where
    file : Bytes → Result Bytes GoFile → Node
    dir : Bytes → Nodes → Node

  pub data Nodes : Type 0 where
    no_nodes : Nodes
    node : Node → Nodes → Nodes

abbrev pub name_of : Node → Bytes
name_of (file name parsed) = name
name_of (dir name nodes) = name

-- strings.HasSuffix
abbrev pub has_suffix : Bytes → Bytes → Bool
has_suffix s suffix = has_prefix (reverse s) (reverse suffix)

-- filepath.Join of a directory that was walked to and an entry.
abbrev pub child : Bytes → Bytes → Bytes
child path name = if beq path (codes ".") then name else path ++ b'/' ∷ name

-- The directories that hold no sources of the repository.
unfoldable pub is_skipped : Bytes → Bool
is_skipped name =
    beq name (codes "vendor")
    || beq name (codes ".git")
    || beq name (codes "dist")
    || beq name (codes "bin")
    || beq name (codes "node_modules")
    || beq name (codes ".claude")

unfoldable pub is_source : Bytes → Bool
is_source path = has_suffix path (codes ".go") && not (has_suffix path (codes "_test.go"))

-- The first two that are found, or the first error.
abbrev pub both {ℓ} :
    {A : Type ℓ} → Result Bytes (List A) → Result Bytes (List A) → Result Bytes (List A)
both (err e) r = err e
both (ok xs) (err e) = err e
both (ok xs) (ok ys) = ok (xs ++ ys)

-- walkGoFiles, on a file or a directory that exists: what `visit` is called with, or the parser's error.
unfoldable mutual
  pub walk_node : Bytes → Node → Result Bytes (List (Bytes × GoFile))
  walk_node path (file name parsed) =
      if is_source path then elim parsed [ ok f ↦ ok ((path, f) ∷ []) | err e ↦ err e ] else ok []
  walk_node path (dir name nodes) =
      let below = walk_nodes path nodes in if is_skipped name then ok [] else below

  pub walk_nodes : Bytes → Nodes → Result Bytes (List (Bytes × GoFile))
  walk_nodes path no_nodes = ok []
  walk_nodes path (node n ns) = both (walk_node (child path (name_of n)) n) (walk_nodes path ns)

unfoldable pub find_entry : Bytes → Nodes → Option Node
find_entry name no_nodes = none
find_entry name (node n ns) =
    let rest = find_entry name ns in if beq name (name_of n) then some n else rest

-- os.Stat of a path below a node.
unfoldable pub find_node : List Bytes → Node → Option Node
find_node [] n = some n
find_node (part ∷ parts) (file name parsed) = none
find_node (part ∷ parts) (dir name nodes) = elim (find_entry part nodes) [
  | none ↦ none
  | some n ↦ find_node parts n
]

abbrev pub parts_of : Bytes → List Bytes
parts_of path = if beq path (codes ".") then [] else split b'/' path

abbrev pub walk_found : Bytes → Option Node → Result Bytes (List (Bytes × GoFile))
walk_found path none = ok []
walk_found path (some n) = walk_node path n

-- walkGoFiles: no error where the directory does not exist.
unfoldable pub walk_go_files : Node → Bytes → Result Bytes (List (Bytes × GoFile))
walk_go_files root path = walk_found path (find_node (parts_of path) root)
