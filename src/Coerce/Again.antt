-- ===== src/Coerce/Again.antt =====
-- Coercing what was coerced changes nothing.
use post_cortex.Base.{
  some, List, [], ◌∷◌, String, if◌then◌else◌, ◌≡◌, refl, ◌⊎◌, ◌||◌, inl, inr, ap, ◌∙◌, Bool-cases,
}
use post_cortex.Base.Keys.{string_eq, ◌==◌}
use post_cortex.JsonPath.Texts.{ends_with}
use post_cortex.Coerce.{
  Shape, null, boolean, number, text, array, object, Values, Coerced, ok, err, and_then, map_fields,
  map_items, coerce_scalar_to_string, coerce_to_string, coerce_string_map, coerce_content,
  coercion_error, on_object, coerce_updates, coerce_field, apply_coercions, printed,
}

-- A result that the same function gives back.
abbrev IsFixed : {V A : Type 0} → (A → Coerced V A) → Coerced V A → Type 0
IsFixed f (ok a) = f a ≡ ok a
IsFixed f (err e) = Unit {0}

IsFixed-ok : {V A : Type 0} (f : A → Coerced V A) (a : A) → f a ≡ ok a → IsFixed f (f a)
IsFixed-ok f a h = rw h h

cons_fields_again :
    {V : Type 0} (f : String → V → Coerced V V) (key : String) (p : Coerced V V)
    (q : Coerced V (List (String × V)))
    → IsFixed (f key) p
    → IsFixed (map_fields f) q
    → IsFixed (map_fields f) (and_then p (λ v. and_then q (λ more. ok ((key, v) ∷ more))))
unfolding map_fields
cons_fields_again f key (ok v) (ok more) h k = rw (h, k) refl
cons_fields_again f key (ok v) (err e) h k = tt
cons_fields_again f key (err d) q h k = tt

map_fields_again :
    {V : Type 0} (f : String → V → Coerced V V) (fields : List (String × V))
    → ((key : String) (v : V) → IsFixed (f key) (f key v))
    → IsFixed (map_fields f) (map_fields f fields)
unfolding map_fields
map_fields_again f [] again = refl
map_fields_again f ((key, val) ∷ rest) again =
    cons_fields_again f key (f key val) (map_fields f rest) (again key val)
      (map_fields_again f rest again)

cons_items_again :
    {V : Type 0} (f : V → Coerced V V) (p : Coerced V V) (q : Coerced V (List V))
    → IsFixed f p
    → IsFixed (map_items f) q
    → IsFixed (map_items f) (and_then p (λ v. and_then q (λ more. ok (v ∷ more))))
unfolding map_items
cons_items_again f (ok v) (ok more) h k = rw (h, k) refl
cons_items_again f (ok v) (err e) h k = tt
cons_items_again f (err d) q h k = tt

map_items_again :
    {V : Type 0} (f : V → Coerced V V) (items : List V)
    → ((v : V) → IsFixed f (f v))
    → IsFixed (map_items f) (map_items f items)
unfolding map_items
map_items_again f [] again = refl
map_items_again f (val ∷ rest) again =
    cons_items_again f (f val) (map_items f rest) (again val) (map_items_again f rest again)

module _ (J : Values) where
  object_again :
      (f : String → J.Value → Coerced J.Value J.Value)
      (p : Coerced J.Value (List (String × J.Value)))
      → IsFixed (map_fields f) p
      → IsFixed (on_object J f) (and_then p (λ out. ok (J.value (object out))))
  unfolding on_object
  object_again f (ok out) h = rw (J.shape-value (object out), on_object, h) refl
  object_again f (err e) h = tt

  on_object_again :
      (f : String → J.Value → Coerced J.Value J.Value) (val : J.Value)
      → ((key : String) (v : J.Value) → IsFixed (f key) (f key v))
      → (s : Shape J.Value J.Number) → J.shape val ≡ s
      → IsFixed (on_object J f) (on_object J f val)
  unfolding on_object
  on_object_again f val again (object fields) h =
      rw (h, on_object) (object_again f (map_fields f fields) (map_fields_again f fields again))
  on_object_again f val again null h = IsFixed-ok (on_object J f) val (rw (h, on_object) refl)
  on_object_again f val again (boolean b) h =
      IsFixed-ok (on_object J f) val (rw (h, on_object) refl)
  on_object_again f val again (number n) h = IsFixed-ok (on_object J f) val (rw (h, on_object) refl)
  on_object_again f val again (text s) h = IsFixed-ok (on_object J f) val (rw (h, on_object) refl)
  on_object_again f val again (array items) h =
      IsFixed-ok (on_object J f) val (rw (h, on_object) refl)

  text_again : (t : String) → coerce_to_string J (J.value (text t)) ≡ ok (J.value (text t))
  unfolding coerce_to_string
  text_again t = rw (J.shape-value (text t), coerce_to_string) refl

  printed_again : (val : J.Value) → IsFixed (coerce_to_string J) (printed J val)
  printed_again val =
      elim (J.to_string val)
        as (λ o. IsFixed (coerce_to_string J) (elim o as (λ o. Coerced J.Value J.Value) [
          | inl e ↦
              err (coercion_error "Failed to serialize nested value to JSON string" e (some val))
          | inr json ↦ ok (J.value (text json))
        ])) [ inl e ↦ tt | inr json ↦ text_again json ]

  scalar_text : (t : String) → coerce_scalar_to_string J (J.value (text t)) ≡ J.value (text t)
  unfolding coerce_scalar_to_string
  scalar_text t = rw (J.shape-value (text t), coerce_scalar_to_string) refl

  -- A number or a Boolean becomes a text, and the rest stays.
  scalar_cases :
      (val : J.Value) (s : Shape J.Value J.Number)
      → J.shape val ≡ s
      → ((t : String) × (coerce_scalar_to_string J val ≡ J.value (text t)))
        ⊎ (coerce_scalar_to_string J val ≡ val)
  unfolding coerce_scalar_to_string
  scalar_cases val (number n) h = inl (J.number_text n, rw (h, coerce_scalar_to_string) refl)
  scalar_cases val (boolean b) h =
      inl ((if b then "true" else "false"), rw (h, coerce_scalar_to_string) refl)
  scalar_cases val (object fields) h = inr (rw (h, coerce_scalar_to_string) refl)
  scalar_cases val (array items) h = inr (rw (h, coerce_scalar_to_string) refl)
  scalar_cases val (text t) h = inr (rw (h, coerce_scalar_to_string) refl)
  scalar_cases val null h = inr (rw (h, coerce_scalar_to_string) refl)

  coerce_scalar_again :
      (val : J.Value)
      → coerce_scalar_to_string J (coerce_scalar_to_string J val) ≡ coerce_scalar_to_string J val
  coerce_scalar_again val = elim (scalar_cases val (J.shape val) refl) [
    | inl (t, became) ↦ rw became (scalar_text t)
    | inr kept ↦ rw kept kept
  ]

  scalar_again :
      (val : J.Value)
      → coerce_to_string J val ≡ ok (coerce_scalar_to_string J val)
      → IsFixed (coerce_to_string J) (coerce_to_string J val)
  scalar_again val same = elim (scalar_cases val (J.shape val) refl) [
    | inl (t, became) ↦ rw (same, became) (text_again t)
    | inr kept ↦ IsFixed-ok (coerce_to_string J) val (same ∙ ap ok kept)
  ]

  coerce_to_string_again :
      (val : J.Value) (s : Shape J.Value J.Number)
      → J.shape val ≡ s
      → IsFixed (coerce_to_string J) (coerce_to_string J val)
  unfolding coerce_to_string
  coerce_to_string_again val (number n) h = scalar_again val (rw (h, coerce_to_string) refl)
  coerce_to_string_again val (boolean b) h = scalar_again val (rw (h, coerce_to_string) refl)
  coerce_to_string_again val (object fields) h = rw (h, coerce_to_string) (printed_again val)
  coerce_to_string_again val (array items) h = rw (h, coerce_to_string) (printed_again val)
  coerce_to_string_again val (text t) h =
      IsFixed-ok (coerce_to_string J) val (rw (h, coerce_to_string) refl)
  coerce_to_string_again val null h =
      IsFixed-ok (coerce_to_string J) val (rw (h, coerce_to_string) refl)

  coerce_string_map_again :
      (val : J.Value) → IsFixed (coerce_string_map J) (coerce_string_map J val)
  unfolding coerce_string_map
  coerce_string_map_again val =
      on_object_again (λ key v. coerce_to_string J v) val
        (λ key v. coerce_to_string_again v (J.shape v) refl) (J.shape val) refl

  coerce_content_again :
      (key : String) (val : J.Value) → IsFixed (coerce_content J key) (coerce_content J key val)
  unfolding coerce_content
  coerce_content_again key val = elim (Bool-cases (key == "content")) [
    | inl content ↦ rw (content, coerce_content) (coerce_string_map_again val)
    | inr other ↦ IsFixed-ok (coerce_content J key) val (rw (other, coerce_content) refl)
  ]

  array_again :
      (p : Coerced J.Value (List J.Value))
      → IsFixed (map_items (λ item. on_object J (coerce_content J) item)) p
      → IsFixed (coerce_updates J) (and_then p (λ out. ok (J.value (array out))))
  unfolding coerce_updates
  array_again (ok out) h = rw (J.shape-value (array out), coerce_updates, h) refl
  array_again (err e) h = tt

  coerce_updates_again :
      (val : J.Value) (s : Shape J.Value J.Number)
      → J.shape val ≡ s
      → IsFixed (coerce_updates J) (coerce_updates J val)
  unfolding coerce_updates
  coerce_updates_again val (array items) h =
      rw (h, coerce_updates)
        (array_again (map_items (λ item. on_object J (coerce_content J) item) items) (
          map_items_again (λ item. on_object J (coerce_content J) item) items
            (λ item.
              on_object_again (coerce_content J) item coerce_content_again (J.shape item) refl)))
  coerce_updates_again val (object fields) h =
      IsFixed-ok (coerce_updates J) val (rw (h, coerce_updates) refl)
  coerce_updates_again val (number n) h =
      IsFixed-ok (coerce_updates J) val (rw (h, coerce_updates) refl)
  coerce_updates_again val (boolean b) h =
      IsFixed-ok (coerce_updates J) val (rw (h, coerce_updates) refl)
  coerce_updates_again val (text t) h =
      IsFixed-ok (coerce_updates J) val (rw (h, coerce_updates) refl)
  coerce_updates_again val null h = IsFixed-ok (coerce_updates J) val (rw (h, coerce_updates) refl)

  coerce_field_again :
      (key : String) (val : J.Value) → IsFixed (coerce_field J key) (coerce_field J key val)
  unfolding coerce_field
  coerce_field_again key val = elim (Bool-cases ((key == "content") || (key == "parameters"))) [
    | inl strings ↦ rw (strings, coerce_field) (coerce_string_map_again val)
    | inr other ↦ elim (Bool-cases (key == "updates")) [
      | inl updates ↦
          rw (other, coerce_field, updates) (coerce_updates_again val (J.shape val) refl)
      | inr neither ↦ elim (Bool-cases (ends_with "_id" key)) [
        | inl id ↦ rw (other, coerce_field, neither, id) (ap ok (coerce_scalar_again val))
        | inr typed ↦
            IsFixed-ok (coerce_field J key) val (rw (other, coerce_field, neither, typed) refl)
      ]
    ]
  ]

  -- Coercing a second time changes nothing: what the coercion of a value gives is coerced to
  -- itself.
  pub apply_coercions_again :
      (value coerced : J.Value)
      → apply_coercions J value ≡ ok coerced
      → apply_coercions J coerced ≡ ok coerced
  unfolding apply_coercions
  apply_coercions_again value coerced h =
      let fixed = on_object_again (coerce_field J) value coerce_field_again (J.shape value) refl in
      rw h at fixed
