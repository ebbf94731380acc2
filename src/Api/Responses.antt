-- ===== src/Api/Responses.antt =====
-- `AllowResponsesSpec` of api/v1alpha1/natsuser_types.go, a boolean or an object.
-- encoding/json is taken through `JsonCodec`; an error of `json.Unmarshal` is `none`.
use nats_operator_experiment.Common.{
  Str, Bool, true, Option, none, some, ◌≡◌, arith, ◌⊎◌, inl, inr, Option-cases,
}
use nats_operator_experiment.Common.Int.{ℤ}

pub record AllowResponsesSpec : Type 0 where
  pub bool_value : Option Bool
  pub max_msgs : Option ℤ
  pub ttl : Option Str

-- the local type `alias` of the two JSON methods
pub record AllowResponsesObject : Type 0 where
  pub max_msgs : Option ℤ
  pub ttl : Option Str

-- encoding/json at the two types that the methods hand to it
pub record JsonCodec : Type 1 where
  pub Json : Type 0
  pub unmarshal_bool : Json → Option Bool
  pub unmarshal_object : Json → Option AllowResponsesObject
  pub marshal_bool : Bool → Json
  pub marshal_object : AllowResponsesObject → Json

-- What encoding/json documents of them: what is written is read back, and an object is no bool.
pub record IsLawful (c : JsonCodec) : Type 0 where
  pub unmarshal-marshal_bool : (b : Bool) → c.unmarshal_bool (c.marshal_bool b) ≡ some b
  pub unmarshal_bool-object :
      (o : AllowResponsesObject) → c.unmarshal_bool (c.marshal_object o) ≡ none
  pub unmarshal-marshal_object :
      (o : AllowResponsesObject) → c.unmarshal_object (c.marshal_object o) ≡ some o

unfoldable pub new_allow_responses_bool : Bool → AllowResponsesSpec
new_allow_responses_bool enabled = record { bool_value = some enabled; max_msgs = none; ttl = none }

unfoldable pub should_emit : AllowResponsesSpec → Bool
should_emit a = elim a.bool_value [ some b ↦ b | none ↦ true ]

-- `a` is overwritten on success and left alone on an error, so the result is the new value
unfoldable pub unmarshal_json : (c : JsonCodec) → c.Json → Option AllowResponsesSpec
unmarshal_json c json = elim (c.unmarshal_bool json) [
  | some b ↦ some (record { bool_value = some b; max_msgs = none; ttl = none })
  | none ↦ elim (c.unmarshal_object json) [
    | none ↦ none
    | some obj ↦ some (record { bool_value = none; max_msgs = obj.max_msgs; ttl = obj.ttl })
  ]
]

unfoldable pub marshal_json : (c : JsonCodec) → AllowResponsesSpec → c.Json
marshal_json c a = elim a.bool_value [
  | some b ↦ c.marshal_bool b
  | none ↦ c.marshal_object (record { max_msgs = a.max_msgs; ttl = a.ttl })
]

-- the values that `unmarshal_json` and `new_allow_responses_bool` build: a boolean or an object
abbrev pub IsBoolOrObject : AllowResponsesSpec → Type 0
IsBoolOrObject a = (a.bool_value ≡ none) ⊎ ((a.max_msgs ≡ none) × (a.ttl ≡ none))

-- With a codec that reads back what it writes, a spec that is a boolean or an object, and not both,
-- survives being written to JSON and read again.
pub unmarshal-marshal :
    (c : JsonCodec) (lawful : IsLawful c) (a : AllowResponsesSpec)
    → IsBoolOrObject a
    → unmarshal_json c (marshal_json c a) ≡ some a
unfolding unmarshal_json marshal_json
unmarshal-marshal c lawful a h = elim (Option-cases a.bool_value) [
  | inl e ↦
      let o : AllowResponsesObject = record { max_msgs = a.max_msgs; ttl = a.ttl } in
      ground (arith, lawful.unmarshal_bool-object o, lawful.unmarshal-marshal_object o)
  | inr (b, e) ↦ ground (arith, lawful.unmarshal-marshal_bool b)
]

-- Whatever JSON is read, a spec that the reader returns is a boolean or an object, never both.
pub unmarshal-IsBoolOrObject :
    (c : JsonCodec) (json : c.Json) (a : AllowResponsesSpec)
    → unmarshal_json c json ≡ some a
    → IsBoolOrObject a
unfolding unmarshal_json
unmarshal-IsBoolOrObject c json a e = ground arith
