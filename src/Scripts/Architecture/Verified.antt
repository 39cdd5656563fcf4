-- ===== src/Scripts/Architecture/Verified.antt =====
-- What scripts/architecture-verify.go says about the sources that it passes.
use go_skeleton.Base.{refl, ◌≡◌, ◌≢◌, ◌↔◌, false, [], ◌∷◌, ok, All}
use go_skeleton.Base.Text.{beq, codes, has_prefix}
use go_skeleton.Scripts.GoFiles.{Node, walk_go_files}
use go_skeleton.Scripts.GoFiles.Walk.{AllUnder}
use go_skeleton.Scripts.Architecture.{
  lower_layers, database_imports, database_layers, request_layers, rules, verify,
  payload_header_in_dirs, payload_found,
}
use go_skeleton.Scripts.Architecture.Clean.{Clean, gather_iff}
use go_skeleton.Scripts.Architecture.Layers.{
  Imports, WhereQuoted, KeptTo, background, PayloadsOk, TypesListed, import_in_dirs_iff,
  import_prefix_in_dirs_iff, import_prefixes_except_iff, context_background_in_dirs_iff,
  payload_found_iff,
}

-- The architecture of the repository, as far as its imports are written in double quotes: every source
-- can be parsed, and
--   no layer below the handlers imports gin,
--   pgx and the generated queries are imported by the layers of the database only,
--   pkg imports nothing of internal,
--   services and handlers do not call context.Background,
--   nothing imports gorm,
--   a payload's type leads to a struct whose first field embeds Header, or is no object.
pub record Layered (root : Node) : Type 0 where
  pub no_gin :
      Imports root lower_layers (λ path. WhereQuoted (λ p. p ≢ codes "github.com/gin-gonic/gin"))
  pub database_kept :
      Imports root
        (codes "." ∷ [])
        (λ path. WhereQuoted (KeptTo database_imports database_layers path))
  pub no_internal :
      Imports root
        (codes "pkg" ∷ [])
        (λ path. WhereQuoted (λ p. has_prefix p (codes "go-skeleton/internal/") ≡ false))
  pub no_background :
      All
        (AllUnder (λ path f. All (λ call. call.function ≢ background) f.calls) root)
        request_layers
  pub no_gorm :
      Imports root
        (codes "." ∷ [])
        (λ path. WhereQuoted (λ p. has_prefix p (codes "gorm.io/") ≡ false))
  pub payloads : PayloadsOk (walk_go_files root (codes "internal/task"))

-- Each rule of the list finds nothing exactly if all of them together do.
verify-rules : (root : Node) → Clean (verify root) ↔ All (λ rule. Clean (rule root)) rules
unfolding verify
verify-rules root =
    gather_iff (λ rule. rule root) (λ rule. Clean (rule root)) (λ rule. (λ h. h, λ h. h)) rules

-- For sources in which no name of a type is declared again with another type below internal/task,
-- architecture-verify reports neither a violation nor an error exactly if the architecture is kept by the
-- imports that are written in double quotes, and by the calls and the payloads. It does not see an import
-- that is written in back quotes.
pub verify_clean_iff :
    (root : Node)
    → TypesListed (walk_go_files root (codes "internal/task"))
    → (verify root ≡ ok []) ↔ Layered root
unfolding rules payload_header_in_dirs has_prefix beq
verify_clean_iff root listed =
    let v = verify-rules root in
    let gin =
      import_in_dirs_iff (codes "github.com/gin-gonic/gin") lower_layers root (λ rest. refl) in
    let database =
      import_prefixes_except_iff database_imports database_layers root (λ rest. refl) in
    let internal =
      import_prefix_in_dirs_iff 3 (codes "go-skeleton/internal/") (codes "pkg" ∷ []) root
        (λ rest. refl) in
    let requests = context_background_in_dirs_iff request_layers root in
    let gorm =
      import_prefix_in_dirs_iff 5 (codes "gorm.io/") (codes "." ∷ []) root (λ rest. refl) in
    let payload =
      gather_iff _ (λ d. Clean (payload_found (walk_go_files root d))) (λ d. (λ h. h, λ h. h))
        (codes "internal/task" ∷ []) in
    let found = payload_found_iff (walk_go_files root (codes "internal/task")) listed in
    (
      λ h.
          let (a, (b, (c, (d, (e, (f, _)))))) = v.0 h in
          record {
            no_gin = gin.0 a;
            database_kept = database.0 b;
            no_internal = internal.0 c;
            no_background = requests.0 d;
            no_gorm = gorm.0 e;
            payloads = found.0 (payload.0 f).0;
          },
      λ k. v.1 (
        gin.1 k.no_gin,
        (
          database.1 k.database_kept,
          (
            internal.1 k.no_internal,
            (
              requests.1 k.no_background,
              (gorm.1 k.no_gorm, (payload.1 (found.1 k.payloads, tt), tt)),
            ),
          ),
        ),
      ),
    )
