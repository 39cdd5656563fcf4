-- ===== src/Task/Payload.antt =====
-- The JSON of a task's payload: ExamplePayload of internal/task/example.go with its tags, and
-- TraceIDFromPayload of internal/task/trace.go. encoding/json is not part of the repository: `Json` has what is
-- documented of it.
use go_skeleton.Base.{
  ◌≡◌, refl, ap, ◌∙◌, Option, none, some, [], ◌∷◌, ◌++◌, All, arith, if◌then◌else◌,
}
use go_skeleton.Base.Int.{ℤ}
use go_skeleton.Base.Text.{Bytes, codes, is_empty, beq}
use go_skeleton.Base.Text.Trim.{IsVisible}
use go_skeleton.Base.Dict.{Dict, lookup}
use go_skeleton.Task.{ExamplePayload}

-- The values that a payload's fields have.
pub data JsonValue : Type 0 where
  number : ℤ → JsonValue
  text : Bytes → JsonValue

abbrev pub valid_value : (Bytes → Bytes) → JsonValue → JsonValue
valid_value f (number n) = number n
valid_value f (text t) = text (f t)

abbrev pub valid_fields : (Bytes → Bytes) → Dict JsonValue → Dict JsonValue
valid_fields f [] = []
valid_fields f ((key, value) ∷ fields) = (key, valid_value f value) ∷ valid_fields f fields

-- Objects by their fields. A text that is not UTF-8 is encoded with U+FFFD in place of what is invalid,
-- which is `to_valid_utf8`; `decode_object` gives none for what is no object.
pub record Json : Type 0 where
  pub to_valid_utf8 : Bytes → Bytes
  pub encode_object : Dict JsonValue → Bytes
  pub decode_object : Bytes → Option (Dict JsonValue)
  pub decode-encode :
      (fields : Dict JsonValue)
      → All (λ (key, value). All IsVisible key) fields
      → decode_object (encode_object fields) ≡ some (valid_fields to_valid_utf8 fields)

-- A field with omitempty.
abbrev pub omit_empty : Bytes → Bytes → Dict JsonValue
omit_empty key value = if is_empty value then [] else (key, text value) ∷ []

-- The fields of ExamplePayload by their tags; those of the embedded Header come first.
unfoldable pub payload_fields : ExamplePayload → Dict JsonValue
payload_fields p =
    (codes "v", number p.header.version)
    ∷ (omit_empty (codes "trace_id") p.header.trace_id
        ++ (codes "name", text p.name) ∷ omit_empty (codes "task_key") p.task_key)

-- The field trace_id of the envelope, empty where it is missing; a value that is no text is an error of
-- Unmarshal.
abbrev pub trace_id_of : Option JsonValue → Bytes
trace_id_of none = []
trace_id_of (some (number n)) = []
trace_id_of (some (text t)) = t

abbrev pub trace_id_in : Option (Dict JsonValue) → Bytes
trace_id_in none = []
trace_id_in (some fields) = trace_id_of (lookup (codes "trace_id") fields)

module _ (j : Json) where
  open j use {to_valid_utf8, encode_object, decode_object, decode-encode}

  unfoldable pub marshal_payload : ExamplePayload → Bytes
  unfolding payload_fields
  marshal_payload p = encode_object (payload_fields p)

  -- TraceIDFromPayload, of payloads with keys in the case of their tags.
  unfoldable pub trace_id_from_payload : Bytes → Bytes
  trace_id_from_payload payload = trace_id_in (decode_object payload)

  keys-IsVisible : (p : ExamplePayload) → All (λ (key, value). All IsVisible key) (payload_fields p)
  unfolding payload_fields
  keys-IsVisible p = of_texts p.header.trace_id p.task_key
    where
      of_texts :
          (trace key : Bytes)
          → All
              (λ (k, value). All IsVisible k)
              ((codes "v", number p.header.version)
                ∷ (omit_empty (codes "trace_id") trace
                    ++ (codes "name", text p.name) ∷ omit_empty (codes "task_key") key))
      of_texts [] [] = omega arith
      of_texts [] (c ∷ key) = omega arith
      of_texts (c ∷ trace) [] = omega arith
      of_texts (c ∷ trace) (d ∷ key) = omega arith

  found :
      (p : ExamplePayload)
      → to_valid_utf8 p.header.trace_id ≡ p.header.trace_id
      → trace_id_in (some (valid_fields to_valid_utf8 (payload_fields p))) ≡ p.header.trace_id
  unfolding payload_fields lookup beq
  found p valid = of_texts p.header.trace_id p.task_key valid
    where
      of_texts :
          (trace key : Bytes)
          → to_valid_utf8 trace ≡ trace
          → trace_id_in (
              some (
                valid_fields to_valid_utf8 (
                  (codes "v", number p.header.version)
                  ∷ (omit_empty (codes "trace_id") trace
                      ++ (codes "name", text p.name) ∷ omit_empty (codes "task_key") key))))
            ≡ trace
      of_texts [] [] e = refl
      of_texts [] (c ∷ key) e = refl
      of_texts (c ∷ trace) key e = e

  -- The trace id of a payload that is valid UTF-8, or empty, is found again in its JSON.
  pub trace_id_from_payload-marshal_payload :
      (p : ExamplePayload)
      → to_valid_utf8 p.header.trace_id ≡ p.header.trace_id
      → trace_id_from_payload (marshal_payload p) ≡ p.header.trace_id
  unfolding trace_id_from_payload marshal_payload
  trace_id_from_payload-marshal_payload p valid =
      ap trace_id_in (decode-encode (payload_fields p) (keys-IsVisible p)) ∙ found p valid
