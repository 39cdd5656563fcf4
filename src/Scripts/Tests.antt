-- ===== src/Scripts/Tests.antt =====
-- The scripts on small repositories.
use go_skeleton.Base.{◌≡◌, ◌↔◌, refl, none, some, List, [], ◌∷◌, ok}
use go_skeleton.Base.Text.{Bytes, codes, to_lower, beq, split, has_prefix}
use go_skeleton.Base.Dict.{Dict, insert, lookup}
use go_skeleton.Scripts.GoFiles.{
  ImportLiteral, interpreted, raw, identifier, Field, TypeExpr, struct_type, type_name, TypeSpec,
  GoFile, Node, file, dir, no_nodes, node, walk_go_files, walk_node, walk_nodes, find_node,
  find_entry, is_skipped, is_source,
}
use go_skeleton.Scripts.Architecture.{
  compliant, cyclic, import_note, import_path, verify, check_payload_type, PayloadVerdict, rules,
  gather, import_in_dirs, import_prefixes_except, import_prefix_in_dirs, context_background_in_dirs,
  payload_header_in_dirs, walk_items, scan_files, scan_items, check_type, add_types, collect_types,
  is_header_first_field,
}
use go_skeleton.Scripts.Architecture.Verified.{Layered, verify_clean_iff}
use go_skeleton.Scripts.Architecture.Payload.{EmbedsHeader, check_payload_type_lem}
use go_skeleton.Scripts.Endpoint.{
  ApiOperation, x_resource, index, derive_handler_method, derive_from, is_camel_case, upper_byte,
}
use go_skeleton.Scripts.Drift.{
  is_livez, find_known, resolve_resource_name, derive_handler_method_safe,
}
use go_skeleton.Scripts.Drift.Mirror.{Agrees, resolve_resource_name-Agrees}

abbrev header_field : Field
header_field = record { names = []; type = identifier (codes "Header") }

abbrev payload_spec : TypeSpec
payload_spec = record {
  name = codes "ExamplePayload";
  type = struct_type (header_field ∷ []);
  line = 9;
}

abbrev aliased_spec : TypeSpec
aliased_spec = record {
  name = codes "AliasPayload";
  type = type_name (codes "ExamplePayload");
  line = 12;
}

abbrev task_file : GoFile
task_file = record { imports = []; calls = []; types = payload_spec ∷ aliased_spec ∷ [] }

abbrev importing : ImportLiteral → GoFile
importing l = record { imports = record { literal = l; line = 3 } ∷ []; calls = []; types = [] }

-- A repository with a service that imports something, and a task.
abbrev repository : GoFile → Node
repository service = dir (codes ".") (
    node
      (dir (codes "internal") (
        node (dir (codes "service") (node (file (codes "example.go") (ok service)) no_nodes)) (
          node (dir (codes "task") (node (file (codes "task.go") (ok task_file)) no_nodes))
            no_nodes)))
      no_nodes)

abbrev layered : Node
layered = repository (importing (interpreted (codes "context")))

layered_passes : verify layered ≡ ok []
unfolding verify rules gather import_in_dirs import_prefixes_except import_prefix_in_dirs
    context_background_in_dirs payload_header_in_dirs walk_items scan_files scan_items import_path
    check_payload_type check_type add_types collect_types is_header_first_field walk_go_files
    walk_node walk_nodes find_node find_entry is_skipped is_source beq split has_prefix insert
    lookup
layered_passes = refl

-- A service that imports gin. With a raw string literal the same import is not seen.
gin_found :
    verify (repository (importing (interpreted (codes "github.com/gin-gonic/gin"))))
    ≡ ok (
        record {
          rule = 1;
          file = codes "internal/service/example.go";
          line = 3;
          note = import_note (codes "github.com/gin-gonic/gin");
        }
        ∷ [])
unfolding verify rules gather import_in_dirs import_prefixes_except import_prefix_in_dirs
    context_background_in_dirs payload_header_in_dirs walk_items scan_files scan_items import_path
    check_payload_type check_type add_types collect_types is_header_first_field walk_go_files
    walk_node walk_nodes find_node find_entry is_skipped is_source beq split has_prefix insert
    lookup
gin_found = refl

raw_import_passes : verify (repository (importing (raw (codes "github.com/gin-gonic/gin")))) ≡ ok []
unfolding verify rules gather import_in_dirs import_prefixes_except import_prefix_in_dirs
    context_background_in_dirs payload_header_in_dirs walk_items scan_files scan_items import_path
    check_payload_type check_type add_types collect_types is_header_first_field walk_go_files
    walk_node walk_nodes find_node find_entry is_skipped is_source beq split has_prefix insert
    lookup
raw_import_passes = refl

verify_clean_iff_example : (verify layered ≡ ok []) ↔ Layered layered
unfolding verify rules gather import_in_dirs import_prefixes_except import_prefix_in_dirs
    context_background_in_dirs payload_header_in_dirs walk_items scan_files scan_items import_path
    check_payload_type check_type add_types collect_types is_header_first_field walk_go_files
    walk_node walk_nodes find_node find_entry is_skipped is_source beq split has_prefix insert
    lookup
verify_clean_iff_example = verify_clean_iff layered (refl, (refl, tt))

abbrev task_types : Dict TypeExpr
task_types =
    (codes "ExamplePayload", payload_spec.type) ∷ (codes "AliasPayload", aliased_spec.type) ∷ []

check_payload_type_lem_example :
    (v : PayloadVerdict) × (check_payload_type aliased_spec task_types ≡ some v)
    × ((v ≡ compliant) ↔ EmbedsHeader task_types aliased_spec.type)
unfolding lookup beq
check_payload_type_lem_example = check_payload_type_lem aliased_spec task_types refl

-- Two names that are declared by each other.
cycle_found :
    check_payload_type
      (record aliased_spec { type = type_name (codes "Other") })
      ((codes "AliasPayload", type_name (codes "Other"))
        ∷ (codes "Other", type_name (codes "AliasPayload"))
        ∷ [])
    ≡ some cyclic
unfolding check_payload_type check_type lookup beq
cycle_found = refl

abbrev pay_order : ApiOperation
pay_order = record { operation_id = codes "payOrder"; extensions = []; security = none }

abbrev known_names : List Bytes
known_names = codes "OrderPayment" ∷ codes "Health" ∷ codes "Order" ∷ []

pay_resolved : resolve_resource_name pay_order [] known_names ≡ codes "Order"
unfolding resolve_resource_name is_livez find_known x_resource lookup beq index to_lower has_prefix
pay_resolved = refl

pay_derived :
    derive_handler_method pay_order (resolve_resource_name pay_order [] known_names)
    ≡ ok (codes "Pay")
unfolding resolve_resource_name is_livez find_known x_resource lookup beq index to_lower has_prefix
    derive_handler_method derive_from is_camel_case upper_byte
pay_derived = refl

resolve_resource_name-Agrees_example :
    Agrees pay_order [] known_names (resolve_resource_name pay_order [] known_names)
    × ((m : Bytes)
        → derive_handler_method pay_order (resolve_resource_name pay_order [] known_names) ≡ ok m
        → derive_handler_method_safe pay_order (resolve_resource_name pay_order [] known_names) ≡ m)
resolve_resource_name-Agrees_example = resolve_resource_name-Agrees pay_order [] known_names
