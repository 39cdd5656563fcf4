-- ===== src/Config/Env.antt =====
-- The readers of variables of config/config.go. An environment gives a variable's value, or none
-- where it is not set. The library's time.ParseDuration computes with floating point numbers and is
-- an argument.
pub mod Lists
pub mod Queues
use go_skeleton.Base.{
  ℕ, String, Bool, true, false, not, ◌||◌, Option, none, some, List, [], ◌∷◌, Result, ok, err,
  if◌then◌else◌,
}
use go_skeleton.Base.Int.{ℤ, pos, leb_ℤ}
use go_skeleton.Base.Text.{Bytes, codes, beq, is_empty, trim, to_lower, split, cut}
use go_skeleton.Base.Text.Number.{parse_int, parse_bool}
use go_skeleton.Base.Dict.{Dict, insert}
use go_skeleton.Config.{Environment, development, production}

-- os.LookupEnv
abbrev pub Variables : Type 0
Variables = String → Option Bytes

-- os.Getenv
abbrev pub value_or_empty : Option Bytes → Bytes
value_or_empty none = []
value_or_empty (some value) = value

abbrev pub getenv : Variables → String → Bytes
getenv env key = value_or_empty (env key)

-- What is wrong with a variable, with its name.
pub data Fault : Type 0 where
  not_number not_bool not_duration not_environment no_pair weight_not_positive no_entries : Fault

pub record EnvError : Type 0 where
  pub key : String
  pub fault : Fault

-- A value, with an error or without one.
abbrev pub Read : Type 0 → Type 0
Read A = A × Option EnvError

unfoldable pub get_env_or_default : Variables → String → Bytes → Bytes
get_env_or_default env key fallback =
    let value = trim (getenv env key) in if not (is_empty value) then value else fallback

abbrev trimmed_or : Option Bytes → Bytes → Bytes
trimmed_or none fallback = fallback
trimmed_or (some value) fallback = trim value

unfoldable pub optional_env : Variables → String → Bytes → Bytes
optional_env env key fallback = trimmed_or (env key) fallback

-- The parts that are not blank, trimmed.
unfoldable pub keep_parts : List Bytes → List Bytes
keep_parts [] = []
keep_parts (part ∷ parts) =
    let rest = keep_parts parts in if not (is_empty (trim part)) then trim part ∷ rest else rest

unfoldable pub parse_csv : Bytes → List Bytes
unfolding keep_parts
parse_csv value = keep_parts (split b',' value)

abbrev pub parsed_or : {A : Type 0} → EnvError → A → Option A → Read A
parsed_or e fallback none = (fallback, some e)
parsed_or e fallback (some parsed) = (parsed, none)

-- What intEnv, int64Env, boolEnv and durationEnv, which differ in what parses the value, have in common.
unfoldable pub parsed_env :
    {A : Type 0} → Fault → (Bytes → Option A) → Variables → String → A → Read A
parsed_env fault parse env key fallback =
    let raw = trim (getenv env key) in
    if is_empty raw
    then (fallback, none)
    else parsed_or (record { key = key; fault = fault }) fallback (parse raw)

unfoldable pub int_env : Variables → String → ℤ → Read ℤ
unfolding parsed_env
int_env env key fallback = parsed_env not_number parse_int env key fallback

unfoldable pub bool_env : Variables → String → Bool → Read Bool
unfolding parsed_env
bool_env env key fallback = parsed_env not_bool parse_bool env key fallback

unfoldable pub duration_env : (Bytes → Option ℤ) → Variables → String → ℤ → Read ℤ
unfolding parsed_env
duration_env parse_duration env key fallback =
    parsed_env not_duration parse_duration env key fallback

abbrev pub environment_of : Bytes → Option Environment
environment_of name =
    if beq name (codes "development")
    then some development
    else if beq name (codes "production")
    then some production
    else none

unfoldable pub environment_env : Variables → String → Environment → Read Environment
environment_env env key fallback =
    let raw = trim (getenv env key) in
    if is_empty raw
    then (fallback, none)
    else parsed_or (record { key = key; fault = not_environment }) fallback
        (environment_of (to_lower raw))

-- One pair "name:weight" of a list of queues, or what is wrong with it.
abbrev pub weighted : Bytes → Option ℤ → Result Fault (Bytes × ℤ)
weighted name none = err not_number
weighted name (some weight) =
    if leb_ℤ weight (pos 0) then err weight_not_positive else ok (name, weight)

abbrev pub named_weight : Bytes → Bytes → Result Fault (Bytes × ℤ)
named_weight name weight =
    if is_empty name || is_empty weight then err no_pair else weighted name (parse_int weight)

abbrev pub cut_pair : Option (Bytes × Bytes) → Result Fault (Bytes × ℤ)
cut_pair none = err no_pair
cut_pair (some (name, weight)) = named_weight (trim name) (trim weight)

unfoldable pub queue_pair : Bytes → Result Fault (Bytes × ℤ)
queue_pair part = cut_pair (cut b':' part)

-- The loop over the parts, with the map so far.
abbrev pub add_pair :
    (Dict ℤ → Result Fault (Dict ℤ)) → Result Fault (Bytes × ℤ) → Dict ℤ → Result Fault (Dict ℤ)
add_pair next (err e) out = err e
add_pair next (ok (name, weight)) out = next (insert name weight out)

unfoldable pub queue_pairs : List Bytes → Dict ℤ → Result Fault (Dict ℤ)
unfolding queue_pair
queue_pairs [] out = ok out
queue_pairs (part ∷ parts) out =
    let skipped = queue_pairs parts out in
    let added = add_pair (queue_pairs parts) (queue_pair (trim part)) out in
    if is_empty (trim part) then skipped else added

abbrev pub queues_or : String → Dict ℤ → Result Fault (Dict ℤ) → Read (Dict ℤ)
queues_or key fallback (err e) = (fallback, some (record { key = key; fault = e }))
queues_or key fallback (ok []) = (fallback, some (record { key = key; fault = no_entries }))
queues_or key fallback (ok (entry ∷ out)) = (entry ∷ out, none)

unfoldable pub queue_weights_env : Variables → String → Dict ℤ → Read (Dict ℤ)
unfolding queue_pairs
queue_weights_env env key fallback =
    let raw = trim (getenv env key) in
    if is_empty raw
    then (fallback, none)
    else queues_or key fallback (queue_pairs (split b',' raw) [])
