-- ===== src/Coerce.antt =====
-- crates/post-cortex-daemon/src/daemon/coerce.rs: the coercion of parameters of the wrong type.
-- serde_json's `Value` is third-party, so an interface: its variants, and how it prints.
pub mod Again
pub mod Frame
use Prim.Native.String.{◌++◌ as str_append}
use post_cortex.Base.{
  Bool, true, false, ◌||◌, Option, none, some, List, [], ◌∷◌, String, if◌then◌else◌, ◌≡◌, ◌⊎◌, inl,
  inr,
}
use post_cortex.Base.Keys.{string_eq, ◌==◌}
use post_cortex.JsonPath.Texts.{ends_with}

-- The variants of a value. The keys of an object differ from each other.
pub data Shape (V N : Type 0) : Type 0 where
  null : Shape V N
  boolean : Bool → Shape V N
  number : N → Shape V N
  text : String → Shape V N
  array : List V → Shape V N
  object : List (String × V) → Shape V N

pub record Values : Type 1 where
  pub Value : Type 0
  pub Number : Type 0
  pub shape : Value → Shape Value Number
  pub value : Shape Value Number → Value
  pub shape-value : (s : Shape Value Number) → shape (value s) ≡ s
  pub number_text : Number → String
  -- `serde_json::to_string`, or the text of its error.
  pub to_string : Value → String ⊎ String

pub record CoercionError (V : Type 0) : Type 0 where
  pub message : String
  pub parameter_path : Option String
  pub expected_type : Option String
  pub received_value : Option V
  pub hint : Option String

abbrev pub coercion_error : {V : Type 0} → String → String → Option V → CoercionError V
coercion_error message source received_value = record {
  message = str_append message (str_append ": " source);
  parameter_path = none;
  expected_type = none;
  received_value = received_value;
  hint = none;
}

pub data Coerced (V A : Type 0) : Type 0 where
  ok : A → Coerced V A
  err : CoercionError V → Coerced V A

-- The operator `?`.
abbrev pub and_then : {V A B : Type 0} → Coerced V A → (A → Coerced V B) → Coerced V B
and_then (ok a) f = f a
and_then (err e) f = err e

-- A loop over the fields of an object that writes each in place, and one over a list.
unfoldable pub map_fields :
    {V : Type 0} → (String → V → Coerced V V) → List (String × V) → Coerced V (List (String × V))
map_fields f [] = ok []
map_fields f ((key, val) ∷ rest) =
    and_then (f key val) (λ v. and_then (map_fields f rest) (λ more. ok ((key, v) ∷ more)))

unfoldable pub map_items : {V : Type 0} → (V → Coerced V V) → List V → Coerced V (List V)
map_items f [] = ok []
map_items f (val ∷ rest) =
    and_then (f val) (λ v. and_then (map_items f rest) (λ more. ok (v ∷ more)))

module _ (J : Values) where
  unfoldable pub coerce_scalar_to_string : J.Value → J.Value
  coerce_scalar_to_string val = elim (J.shape val) [
    | number n ↦ J.value (text (J.number_text n))
    | boolean b ↦ J.value (text (if b then "true" else "false"))
    | null ↦ val
    | text s ↦ val
    | array items ↦ val
    | object fields ↦ val
  ]

  abbrev pub printed : J.Value → Coerced J.Value J.Value
  printed val = elim (J.to_string val) [
    | inl e ↦ err (coercion_error "Failed to serialize nested value to JSON string" e (some val))
    | inr json ↦ ok (J.value (text json))
  ]

  unfoldable pub coerce_to_string : J.Value → Coerced J.Value J.Value
  coerce_to_string val = elim (J.shape val) [
    | number n ↦ ok (coerce_scalar_to_string val)
    | boolean b ↦ ok (coerce_scalar_to_string val)
    | object fields ↦ printed val
    | array items ↦ printed val
    | text s ↦ ok val
    | null ↦ ok val
  ]

  -- `if let Value::Object(map) = val`, with a loop over the fields.
  unfoldable pub on_object :
      (String → J.Value → Coerced J.Value J.Value) → J.Value → Coerced J.Value J.Value
  on_object f val = elim (J.shape val) [
    | object fields ↦ and_then (map_fields f fields) (λ out. ok (J.value (object out)))
    | null ↦ ok val
    | boolean b ↦ ok val
    | number n ↦ ok val
    | text s ↦ ok val
    | array items ↦ ok val
  ]

  unfoldable pub coerce_string_map : J.Value → Coerced J.Value J.Value
  coerce_string_map val = on_object (λ key v. coerce_to_string v) val

  -- The field `content` of an item of `updates`, if there is one.
  unfoldable pub coerce_content : String → J.Value → Coerced J.Value J.Value
  coerce_content key val = if key == "content" then coerce_string_map val else ok val

  unfoldable pub coerce_updates : J.Value → Coerced J.Value J.Value
  coerce_updates val = elim (J.shape val) [
    | array items ↦
        and_then (map_items (λ item. on_object coerce_content item) items)
          (λ out. ok (J.value (array out)))
    | null ↦ ok val
    | boolean b ↦ ok val
    | number n ↦ ok val
    | text s ↦ ok val
    | object fields ↦ ok val
  ]

  unfoldable pub coerce_field : String → J.Value → Coerced J.Value J.Value
  coerce_field key val =
      if (key == "content") || (key == "parameters")
      then coerce_string_map val
      else if key == "updates"
      then coerce_updates val
      else if ends_with "_id" key
      then ok (coerce_scalar_to_string val)
      else ok val

  unfoldable pub apply_coercions : J.Value → Coerced J.Value J.Value
  apply_coercions value = on_object coerce_field value

  -- `deserialize` gives the value of the target type, or the text of an error.
  unfoldable pub coerce_and_validate :
      {T : Type 0} → (J.Value → T ⊎ String) → J.Value → Coerced J.Value T
  coerce_and_validate deserialize value = elim (deserialize value) [
    | inl result ↦ ok result
    | inr e ↦ and_then (apply_coercions value) (λ coerced. elim (deserialize coerced) [
      | inl result ↦ ok result
      | inr again ↦ err (coercion_error "Failed to deserialize parameter(s)" again none)
    ])
  ]
