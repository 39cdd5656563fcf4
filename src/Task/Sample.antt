-- ===== src/Task/Sample.antt =====
-- An encoding of objects of which every text is taken for valid: the number of the fields, and each field by
-- its key and its value, with the lengths of the texts before them.
use go_skeleton.Base.{
  ℕ, zero, suc, ◌≡◌, refl, ap, ◌∙◌, Option, none, some, [], ◌∷◌, ◌++◌, length, take, drop, sym,
}
use go_skeleton.Base.Int.{pos, negsuc}
use go_skeleton.Base.Text.{Bytes}
use go_skeleton.Base.Dict.{Dict}
use go_skeleton.Task.Payload.{JsonValue, number, text, valid_fields, Json}

encode_value : JsonValue → Bytes
encode_value (number (pos n)) = 0 ∷ n ∷ []
encode_value (number (negsuc n)) = 1 ∷ n ∷ []
encode_value (text t) = 2 ∷ length t ∷ t

encode_fields : Dict JsonValue → Bytes
encode_fields [] = []
encode_fields ((key, value) ∷ fields) =
    length key ∷ (key ++ (encode_value value ++ encode_fields fields))

decode_value : Bytes → Option (JsonValue × Bytes)
decode_value [] = none
decode_value (tag ∷ []) = none
decode_value (zero ∷ n ∷ rest) = some (number (pos n), rest)
decode_value (suc zero ∷ n ∷ rest) = some (number (negsuc n), rest)
decode_value (suc (suc k) ∷ n ∷ rest) = some (text (take n rest), drop n rest)

and_field : Bytes → JsonValue → Option (Dict JsonValue) → Option (Dict JsonValue)
and_field key value none = none
and_field key value (some fields) = some ((key, value) ∷ fields)

and_fields :
    (Bytes → Option (Dict JsonValue)) → Bytes → Option (JsonValue × Bytes) → Option (Dict JsonValue)
and_fields others key none = none
and_fields others key (some (value, rest)) = and_field key value (others rest)

decode_fields : ℕ → Bytes → Option (Dict JsonValue)
decode_fields zero bytes = some []
decode_fields (suc n) [] = none
decode_fields (suc n) (k ∷ bytes) =
    and_fields (decode_fields n) (take k bytes) (decode_value (drop k bytes))

pub encoded : Dict JsonValue → Bytes
encoded fields = length fields ∷ encode_fields fields

pub decoded : Bytes → Option (Dict JsonValue)
decoded [] = none
decoded (n ∷ bytes) = decode_fields n bytes

take_own : (t rest : Bytes) → take (length t) (t ++ rest) ≡ t
take_own [] rest = refl
take_own (c ∷ t) rest = ap (λ (l : Bytes). c ∷ l) (take_own t rest)

drop_own : (t rest : Bytes) → drop (length t) (t ++ rest) ≡ rest
drop_own [] rest = refl
drop_own (c ∷ t) rest = drop_own t rest

decode_value-encode_value :
    (value : JsonValue) (rest : Bytes)
    → decode_value (encode_value value ++ rest) ≡ some (value, rest)
unfolding decode_value encode_value
decode_value-encode_value (number (pos n)) rest = refl
decode_value-encode_value (number (negsuc n)) rest = refl
decode_value-encode_value (text t) rest = rw (take_own t rest, drop_own t rest) refl

decode_fields-encode_fields :
    (fields : Dict JsonValue) → decode_fields (length fields) (encode_fields fields) ≡ some fields
unfolding decode_fields encode_fields and_fields and_field
decode_fields-encode_fields [] = refl
decode_fields-encode_fields ((key, value) ∷ fields) =
    let rest = encode_fields fields in
    rw
      (
        take_own key (encode_value value ++ rest),
        drop_own key (encode_value value ++ rest),
        decode_value-encode_value value rest,
        decode_fields-encode_fields fields,
      )
      refl

valid_fields_own : (fields : Dict JsonValue) → valid_fields (λ t. t) fields ≡ fields
valid_fields_own [] = refl
valid_fields_own ((key, number n) ∷ fields) =
    ap (λ (l : Dict JsonValue). (key, number n) ∷ l) (valid_fields_own fields)
valid_fields_own ((key, text t) ∷ fields) =
    ap (λ (l : Dict JsonValue). (key, text t) ∷ l) (valid_fields_own fields)

pub decoded-encoded :
    (fields : Dict JsonValue) → decoded (encoded fields) ≡ some (valid_fields (λ t. t) fields)
unfolding decoded encoded
decoded-encoded fields =
    decode_fields-encode_fields fields
    ∙ ap (λ (l : Dict JsonValue). some l) (sym (valid_fields_own fields))

abbrev pub json : Json
json = record {
  to_valid_utf8 = λ t. t;
  encode_object = encoded;
  decode_object = decoded;
  decode-encode = λ fields visible. decoded-encoded fields;
}
