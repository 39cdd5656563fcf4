-- ===== src/Scripts/Endpoint/Tests.antt =====
-- scripts/new-endpoint.go on small documents.
use go_skeleton.Base.{All, ◌≡◌, refl, true, false, none, some, List, [], ◌∷◌, ok}
use mathlib.Core.List.{Memᴰ, Permᴰ}
use go_skeleton.Base.Text.{Bytes, codes, beq, to_lower, has_prefix, cut, trim, split}
use go_skeleton.Base.Dict.{lookup}
use go_skeleton.Server.Queues.{string_leb}
use go_skeleton.Scripts.Endpoint.{
  ApiOperation, is_camel_case, upper_byte, index, derive_handler_method, derive_from,
  belongs_to_resource, x_resource, requires_bearer_auth,
}
use go_skeleton.Scripts.Endpoint.Names.{pascalize}
use go_skeleton.Scripts.Endpoint.Routes.{
  find_resource_prefix, common_prefix, common_prefix_of, drop_slashes, gin_path,
  extract_path_params, trim_prefix,
}
use go_skeleton.Scripts.Endpoint.Collect.{
  Entry, Operation, verb_rank, build, build_all, op_leb, sort_ops, insert_op, group_or, routed,
  collect_operations,
}
use go_skeleton.Scripts.Endpoint.Collect.Stable.{collect_operations_stable}
use go_skeleton.Scripts.Endpoint.Register.{Registered, append_router_func}
use go_skeleton.Scripts.Endpoint.Register.Built.{AsksForBearer}
use go_skeleton.Scripts.Endpoint.Register.Guarded.{
  prefix_of, RouteOf, OpenOf, guarded_of_AsksForBearer,
}
use go_skeleton.Scripts.Endpoint.Markers.{Files, has_marker, is_marker, server_file, patch_server}
use go_skeleton.Scripts.Endpoint.Markers.Kept.{HasLines, patch_server_ok}

abbrev operation : Bytes → ApiOperation
operation id = record { operation_id = id; extensions = []; security = none }

create_named :
    derive_handler_method (operation (codes "createOrder")) (codes "Order") ≡ ok (codes "Create")
unfolding derive_handler_method derive_from index to_lower beq lookup has_prefix is_camel_case
    upper_byte
create_named = refl

-- The name and an s is found inside of another word.
summaries_named :
    derive_handler_method (operation (codes "listOrderSummaries")) (codes "Order")
    ≡ ok (codes "Listummaries")
unfolding derive_handler_method derive_from index to_lower beq lookup has_prefix is_camel_case
    upper_byte
summaries_named = refl

abbrev order_paths : List Bytes
order_paths =
    codes "/api/v1/orders" ∷ codes "/api/v1/orders/{id}" ∷ codes "/api/v1/orders/tasks" ∷ []

orders_shared : find_resource_prefix order_paths ≡ codes "/api/v1/orders"
unfolding find_resource_prefix common_prefix common_prefix_of drop_slashes cut has_prefix
orders_shared = refl

-- The shared prefix is not cut back to a whole segment, and a parameter before its end stays in it.
segment_split :
    find_resource_prefix (codes "/api/v1/orders" ∷ codes "/api/v1/order_items" ∷ [])
    ≡ codes "/api/v1/order"
unfolding find_resource_prefix common_prefix common_prefix_of drop_slashes cut has_prefix
segment_split = refl

parameter_kept :
    find_resource_prefix (codes "/api/v1/orders/{id}/pay" ∷ codes "/api/v1/orders/{id}/ship" ∷ [])
    ≡ codes "/api/v1/orders/{id}"
unfolding find_resource_prefix common_prefix common_prefix_of drop_slashes cut has_prefix
parameter_kept = refl

abbrev list_entry : Entry
list_entry = record {
  verb = codes "GET";
  path = codes "/api/v1/orders";
  path_extensions = [];
  op = operation (codes "listOrders");
}

abbrev create_entry : Entry
create_entry = record {
  verb = codes "POST";
  path = codes "/api/v1/orders";
  path_extensions = [];
  op = record (operation (codes "createOrder")) {
    security = some ((codes "bearerAuth" ∷ []) ∷ []);
  };
}

abbrev list_op : Operation
list_op = record {
  operation_id = codes "listOrders";
  handler_method = codes "List";
  http_verb = codes "GET";
  path = codes "/api/v1/orders";
  gin = [];
  iface_method = codes "ListOrders";
  path_param_names = [];
  requires_auth = false;
}

abbrev create_op : Operation
create_op = record {
  operation_id = codes "createOrder";
  handler_method = codes "Create";
  http_verb = codes "POST";
  path = codes "/api/v1/orders";
  gin = [];
  iface_method = codes "CreateOrder";
  path_param_names = [];
  requires_auth = true;
}

orders_built :
    build_all [] (codes "Order") (create_entry ∷ list_entry ∷ []) ≡ ok (create_op ∷ list_op ∷ [])
unfolding build_all build belongs_to_resource x_resource derive_handler_method derive_from index
    to_lower beq lookup has_prefix is_camel_case upper_byte pascalize extract_path_params
    requires_bearer_auth trim
orders_built = refl

collect_operations_stable_example :
    (collect_operations [] (codes "Order") (create_entry ∷ list_entry ∷ [])
      ≡ ok (routed (sort_ops (create_op ∷ list_op ∷ []))))
    × (collect_operations [] (codes "Order") (list_entry ∷ create_entry ∷ [])
        ≡ ok (routed (sort_ops (create_op ∷ list_op ∷ []))))
unfolding op_leb verb_rank beq string_leb
collect_operations_stable_example =
    collect_operations_stable [] (codes "Order") (create_entry ∷ list_entry ∷ [])
      (list_entry ∷ create_entry ∷ []) (create_op ∷ list_op ∷ []) (Permᴰ.swap refl refl)
      orders_built ((refl, tt), (tt, tt))

abbrev create_routes : List Operation
create_routes = record list_op { gin = [] } ∷ record create_op { gin = [] } ∷ []

orders_collected :
    collect_operations [] (codes "Order") (create_entry ∷ list_entry ∷ [])
    ≡ ok (create_routes, codes "/orders")
unfolding collect_operations build_all build belongs_to_resource x_resource derive_handler_method
    derive_from index to_lower beq lookup has_prefix is_camel_case upper_byte pascalize
    extract_path_params requires_bearer_auth trim sort_ops insert_op op_leb verb_rank string_leb
    find_resource_prefix common_prefix common_prefix_of drop_slashes cut gin_path
orders_collected = refl

guarded_of_AsksForBearer_example :
    ((r : Registered) × Memᴰ r (append_router_func create_routes (codes "/orders")).guarded_routes
      × RouteOf (codes "Order") (prefix_of create_routes) create_entry r)
    × All
        (OpenOf [] (codes "Order") (create_entry ∷ list_entry ∷ []) (prefix_of create_routes))
        (append_router_func create_routes (codes "/orders")).open_routes
    × (codes "/orders" ≡ group_or (trim_prefix (prefix_of create_routes) (codes "/api/v1")))
unfolding AsksForBearer belongs_to_resource x_resource index to_lower lookup has_prefix beq
guarded_of_AsksForBearer_example =
    guarded_of_AsksForBearer [] (codes "Order") (create_entry ∷ list_entry ∷ []) create_entry
      create_routes (codes "/orders") orders_collected (Memᴰ.head refl) refl
      (codes "bearerAuth" ∷ [], Memᴰ.head refl, Memᴰ.head refl)

abbrev server_content : Bytes
server_content =
    codes
      "struct {\n\t// NEH handlers-fields\n}\n\t// NEH handlers-deps\n// NEH handlers-construct\n// NEH handlers-return\n"

abbrev server_files : Files
server_files = (server_file, server_content) ∷ []

patch_server_ok_example :
    (files' : Files) × (patch_server (codes "Order") (codes "order") server_files ≡ ok files')
    × HasLines files' server_file (split b'\n' server_content)
unfolding lookup beq has_marker is_marker split
patch_server_ok_example =
    patch_server_ok (codes "Order") (codes "order") server_content server_files refl refl refl
      (refl, (refl, (refl, (refl, tt))))
