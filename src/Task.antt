-- ===== src/Task.antt =====
-- internal/task: the header of every payload, task IDs, and the example task. SHA-256 and JSON are not
-- part of the repository: `sum256` gives the digest's bytes; the JSON of a payload is in Payload.
pub mod Ids
pub mod Payload
pub mod Sample
mod Tests
use go_skeleton.Base.{
  ℕ, suc, ◌+◌, ◌-◌, ◌*◌, ◌/◌, ◌%◌, String, Bool, true, false, ◌&&◌, not, Option, none, some, List,
  [], ◌∷◌, ◌++◌, Result, ok, err, if◌then◌else◌, leb, ltb, length, take, drop,
}
use go_skeleton.Base.Int.{ℤ, pos, leb_ℤ, second}
use go_skeleton.Base.Text.{Bytes, codes, join, trim}

abbrev pub payload_schema_version : ℕ
payload_schema_version = 1

abbrev pub default_max_retry : ℕ
default_max_retry = 5

abbrev pub default_timeout : ℕ
default_timeout = 30 * second

abbrev pub max_task_id_length : ℕ
max_task_id_length = 1024

-- task.Header
pub record Header : Type 0 where
  pub version : ℤ
  pub trace_id : Bytes

unfoldable pub new_header : Bytes → Header
new_header trace_id = record { version = pos payload_schema_version; trace_id = trim trace_id }

-- task.SupportedVersions: a closed interval.
pub record SupportedVersions : Type 0 where
  pub min : ℤ
  pub max : ℤ

unfoldable pub contains : SupportedVersions → ℤ → Bool
contains s v = leb_ℤ s.min v && leb_ℤ v s.max

abbrev pub current_supported : SupportedVersions
current_supported = record { min = pos payload_schema_version; max = pos payload_schema_version }

-- task.ErrUnsupportedPayloadVersion
pub record UnsupportedPayloadVersion : Type 0 where
  pub got : ℤ
  pub supported : SupportedVersions

unfoldable pub check_header : Header → SupportedVersions → Option UnsupportedPayloadVersion
unfolding contains
check_header h supported =
    if not (contains supported h.version)
    then some (record { got = h.version; supported = supported })
    else none

-- fmt's "%x" of bytes: two lower-case digits for each.
abbrev hex_digit : ℕ → ℕ
hex_digit d = if ltb d 10 then b'0' + d else b'a' + (d - 10)

abbrev pub hex : Bytes → Bytes
hex [] = []
hex (c ∷ s) = hex_digit (c / 16) ∷ hex_digit (c % 16) ∷ hex s

module _ (sum256 : Bytes → Bytes) where
  abbrev pub suffix : Bytes → Bytes
  suffix id = codes ":sha256:" ++ hex (sum256 id)

  unfoldable pub truncate_task_id : Bytes → Bytes
  truncate_task_id id =
      if leb max_task_id_length (length (suffix id))
      then drop (length (suffix id) - max_task_id_length) (suffix id)
      else take (max_task_id_length - length (suffix id)) id ++ suffix id

  unfoldable pub build_task_id : Bytes → List Bytes → Bytes
  unfolding truncate_task_id
  build_task_id namespace keys =
      let id = join (codes ":") (namespace ∷ keys) in
      if ltb max_task_id_length (length id) then truncate_task_id id else id

-- task.ExamplePayload, with the fields of its Header.
pub record ExamplePayload : Type 0 where
  pub header : Header
  pub name : Bytes
  pub task_key : Bytes

-- NewExampleTask's payload; `uuid` is the text of the UUID it makes.
unfoldable pub new_example_payload : Bytes → Bytes → List Bytes → ExamplePayload
unfolding new_header
new_example_payload uuid name [] = record { header = new_header []; name = name; task_key = uuid }
new_example_payload uuid name (trace_id ∷ _) = record {
  header = new_header trace_id;
  name = name;
  task_key = uuid;
}
